-- ===== src/Text/Fields.antt =====
-- Texts cut at commas: `str::split(',')`, and `string.find`, `string.sub` and `table.concat` of Lua.
use sui_gas_pool.Prelude.{
  ℕ, ◌≡◌, refl, ◌≢◌, ap, Option, none, some, List, [], ◌∷◌, ◌++◌, arith, ◌==◌, if◌then◌else◌, All,
}

-- No comma stands in the text.
abbrev pub Plain : List ℕ → Type 0
Plain t = All (λ c. c ≢ b',') t

abbrev push_front : ℕ → Option (List ℕ × List ℕ) → Option (List ℕ × List ℕ)
push_front c none = none
push_front c (some (a, b)) = some (c ∷ a, b)

-- What stands before the first comma and what after it: `string.find(t, ',', 1)` with the two calls
-- of `string.sub`; `none` is the `nil` of a text with no comma.
unfoldable pub cut : List ℕ → Option (List ℕ × List ℕ)
cut [] = none
cut (c ∷ t) = let rest = cut t in if c == b',' then some ([], t) else push_front c rest

abbrev pub cons_head : ℕ → List (List ℕ) → List (List ℕ)
cons_head c [] = (c ∷ []) ∷ []
cons_head c (t ∷ ts) = (c ∷ t) ∷ ts

-- `split(',')`: there is always at least one part.
unfoldable pub split : List ℕ → List (List ℕ)
split [] = [] ∷ []
split (c ∷ t) = let parts = split t in if c == b',' then [] ∷ parts else cons_head c parts

-- `table.concat(parts, ',')`
unfoldable pub join : List (List ℕ) → List ℕ
join [] = []
join (a ∷ []) = a
join (a ∷ b ∷ rest) = a ++ b',' ∷ join (b ∷ rest)

pub cut-append : (a b : List ℕ) → Plain a → cut (a ++ b',' ∷ b) ≡ some (a, b)
unfolding cut
cut-append [] b h = refl
cut-append (c ∷ a) b h = ground (arith, cut-append a b h.1)

pub split-append : (a b : List ℕ) → Plain a → split (a ++ b',' ∷ b) ≡ a ∷ split b
unfolding split
split-append [] b h = refl
split-append (c ∷ a) b h = ground (arith, split-append a b h.1)

pub split-Plain : (a : List ℕ) → Plain a → split a ≡ a ∷ []
unfolding split
split-Plain [] h = refl
split-Plain (c ∷ a) h = ground (arith, split-Plain a h.1)

-- Splitting undoes joining, if there is a part and no part holds a comma.
pub split-join :
    (a : List ℕ) (rest : List (List ℕ)) → All Plain (a ∷ rest) → split (join (a ∷ rest)) ≡ a ∷ rest
unfolding join
split-join a [] h = split-Plain a h.0
split-join a (b ∷ rest) h =
    rw (split-append a (join (b ∷ rest)) h.0) (ap (◌∷◌ a) (split-join b rest h.1))
