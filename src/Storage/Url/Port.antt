-- ===== src/Storage/Url/Port.antt =====
-- The text behind the last colon, and the port.
use sui_gas_pool.Prelude.{
  All, ℕ, ◌≡◌, ◌<◌, ◌^◌, refl, true, false, ◌&&◌, ◌||◌, Bool-cases, inl, inr, Option, Option-cases,
  none, some, [], ◌∷◌, ◌++◌, ◌==◌, leb, contains, arith,
}
use sui_gas_pool.Text.{Text, show, IsDigit, show-IsDigit, parse_u64-none, parse_u64-show}
use sui_gas_pool.Storage.Url.{split_last, parse_u16, with_port, port_after, port_if_missing}

pub contains-append : (s t : Text) (c : ℕ) → contains (s ++ t) c ≡ (contains s c || contains t c)
contains-append [] t c = refl
contains-append (d ∷ s) t c = ground (arith, contains-append s t c)

split_last-none : (t : Text) → contains t b':' ≡ false → split_last t ≡ none
unfolding split_last
split_last-none [] h = refl
split_last-none (c ∷ t) h = ground (arith, split_last-none t)

split_last-colon : (a r : Text) → contains r b':' ≡ false → split_last (a ++ b':' ∷ r) ≡ some (a, r)
unfolding split_last
split_last-colon [] r h = rw (split_last-none r h) refl
split_last-colon (c ∷ a) r h = rw (split_last-colon a r h) refl

pub split_last-some :
    (t : Text)
    → contains t b':' ≡ true
    → (before : Text) × (after : Text) × (split_last t ≡ some (before, after))
unfolding split_last
split_last-some [] h = cc
split_last-some (c ∷ t) h = elim (Option-cases (split_last t)) [
  | inr ((b, a), there) ↦ (c ∷ b, a, rw there refl)
  | inl gone ↦ elim (Bool-cases (c == b':')) [
    | inl colon ↦ ([], t, rw gone (rw colon refl))
    | inr other ↦
        let later : contains t b':' ≡ true = ground arith in
        let (b, a, there) = split_last-some t later in absurd (cc (gone, there))
  ]
]

-- What more text makes of the part behind the last colon.
unfoldable pub followed_by : Text → Option (Text × Text) → Option (Text × Text)
followed_by r none = none
followed_by r (some (before, after)) = some (before, after ++ r)

pub split_last-append :
    (x r : Text)
    → contains x b':' ≡ true
    → contains r b':' ≡ false
    → split_last (x ++ r) ≡ followed_by r (split_last x)
unfolding split_last followed_by
split_last-append [] r h k = cc
split_last-append (c ∷ x) r h k = elim (Bool-cases (contains x b':')) [
  | inl colon ↦
      let (b, a, there) = split_last-some x colon in rw (split_last-append x r colon k, there) refl
  | inr plain ↦
      let first : (c == b':') ≡ true = ground arith in
      let whole : contains (x ++ r) b':' ≡ false = ground (arith, contains-append x r b':') in
      rw (split_last-none (x ++ r) whole, split_last-none x plain) (rw first refl)
]

-- Text behind the last colon that has a character of no number is no port.
pub with_port-odd :
    (url before after : Text) (p c : ℕ)
    → split_last url ≡ some (before, after)
    → (leb b'0' c && leb c b'9') ≡ false
    → (b'+' == c) ≡ false
    → contains after c ≡ true
    → with_port url (some p) ≡ url ++ b':' ∷ show p
unfolding with_port port_after port_if_missing parse_u16
with_port-odd url before after p c e odd sign h =
    rw e (rw (parse_u64-none after c odd sign h, port_after) refl)

pub digits_lack :
    (t : Text) (c : ℕ) → (leb b'0' c && leb c b'9') ≡ false → All IsDigit t → contains t c ≡ false
digits_lack [] c odd h = refl
digits_lack (d ∷ t) c odd h = ground (arith, digits_lack t c odd)

parse_u16-show : (q : ℕ) → q < 2 ^ 16 → parse_u16 (show q) ≡ some q
unfolding parse_u16
parse_u16-show q h = ground (arith, parse_u64-show q)

pub with_port-given :
    (before : Text) (q : ℕ) (port : Option ℕ)
    → q < 2 ^ 16
    → with_port (before ++ b':' ∷ show q) port ≡ before ++ b':' ∷ show q
unfolding with_port
with_port-given before q none small = refl
with_port-given before q (some p) small =
    rw (split_last-colon before (show q) (digits_lack (show q) b':' refl (show-IsDigit q)))
      (rw (parse_u16-show q small, port_after) (unfold port_if_missing in refl))

-- The port, where one is configured.
abbrev pub port_suffix : Option ℕ → Text
port_suffix none = []
port_suffix (some p) = b':' ∷ show p
