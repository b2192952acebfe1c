-- ===== src/Storage/Url/Meaning.antt =====
-- What the address is made of.
use mathlib.Core.List.{append_assoc, append-nil}
use sui_gas_pool.Prelude.{
  subst, ℕ, suc, ◌≡◌, ◌<◌, ◌^◌, refl, ap, ◌∙◌, sym, Bool, true, false, ◌&&◌, Option, none, some, [],
  ◌∷◌, ◌++◌, ◌==◌, leb, if◌then◌else◌, contains, arith,
}
use sui_gas_pool.Text.{Text, show, show-IsDigit}
use sui_gas_pool.Storage.Url.{
  redis_scheme, rediss_scheme, starts_with, trim_start, split_last, with_protocol, with_password,
  with_port, build_redis_url,
}
use sui_gas_pool.Storage.Url.Port.{
  contains-append, followed_by, split_last-some, split_last-append, with_port-odd, digits_lack,
  with_port-given, port_suffix,
}

abbrev pub scheme : Bool → Text
scheme tls_enabled = if tls_enabled then rediss_scheme else redis_scheme

-- The password stands in front of the host.
abbrev pub authority : Option Text → Text → Text
authority none host = host
authority (some pw) host = b':' ∷ pw ++ b'@' ∷ host

-- A prefix has no other characters than the text.
starts_with-contains :
    (p t : Text) (c : ℕ) → contains p c ≡ true → contains t c ≡ false → starts_with p t ≡ false
unfolding starts_with
starts_with-contains [] t c h k = cc
starts_with-contains (d ∷ p) [] c h k = refl
starts_with-contains (d ∷ p) (e ∷ t) c h k = ground (arith, starts_with-contains p t c)

-- A host without a slash is not taken for one with a scheme.
pub with_protocol-host :
    (host : Text) (tls_enabled : Bool)
    → contains host b'/' ≡ false
    → with_protocol host tls_enabled ≡ scheme tls_enabled ++ host
unfolding with_protocol
with_protocol-host host true h =
    rw
      (
        starts_with-contains redis_scheme host b'/' refl h,
        starts_with-contains rediss_scheme host b'/' refl h,
      )
      refl
with_protocol-host host false h =
    rw
      (
        starts_with-contains redis_scheme host b'/' refl h,
        starts_with-contains rediss_scheme host b'/' refl h,
      )
      refl

trim_start-host :
    (fuel : ℕ) (tls_enabled : Bool) (host : Text)
    → contains host b'/' ≡ false
    → trim_start (suc (suc fuel)) (scheme tls_enabled) (scheme tls_enabled ++ host) ≡ host
unfolding trim_start starts_with
trim_start-host fuel true host h = rw (starts_with-contains rediss_scheme host b'/' refl h) refl
trim_start-host fuel false host h = rw (starts_with-contains redis_scheme host b'/' refl h) refl

with_password-host :
    (host : Text) (tls_enabled : Bool) (password : Option Text)
    → contains host b'/' ≡ false
    → contains host b'@' ≡ false
    → with_password (scheme tls_enabled ++ host) password
      ≡ scheme tls_enabled ++ authority password host
unfolding with_password starts_with
with_password-host host tls_enabled none h k = refl
with_password-host host true (some pw) h k =
    rw k (ap (λ rest. rediss_scheme ++ b':' ∷ pw ++ b'@' ∷ rest) (trim_start-host _ true host h))
with_password-host host false (some pw) h k =
    rw k (ap (λ rest. redis_scheme ++ b':' ∷ pw ++ b'@' ∷ rest) (trim_start-host _ false host h))

with_port-password :
    (host pw x : Text) (p : ℕ)
    → contains x b':' ≡ true
    → contains host b':' ≡ false
    → with_port (x ++ b'@' ∷ host) (some p) ≡ (x ++ b'@' ∷ host) ++ b':' ∷ show p
with_port-password host pw x p h k =
    let (before, after, there) = split_last-some x h in
    with_port-odd (x ++ b'@' ∷ host) before (after ++ b'@' ∷ host) p b'@'
      (split_last-append x (b'@' ∷ host) h k
        ∙ ap (followed_by (b'@' ∷ host)) there
        ∙ unfold followed_by in refl)
      refl refl (contains-append after (b'@' ∷ host) b'@' ∙ ground arith)

with_port-host :
    (host : Text) (tls_enabled : Bool) (password : Option Text) (port : Option ℕ)
    → contains host b':' ≡ false
    → with_port (scheme tls_enabled ++ authority password host) port
      ≡ (scheme tls_enabled ++ authority password host) ++ port_suffix port
unfolding with_port
with_port-host host tls_enabled password none h = sym (append-nil _)
with_port-host host true none (some p) h =
    with_port-odd (rediss_scheme ++ host) (b'r' ∷ b'e' ∷ b'd' ∷ b'i' ∷ b's' ∷ b's' ∷ [])
      (b'/' ∷ b'/' ∷ host) p b'/'
      (split_last-append rediss_scheme host refl h ∙ unfold followed_by split_last in refl) refl
      refl refl
with_port-host host false none (some p) h =
    with_port-odd (redis_scheme ++ host) (b'r' ∷ b'e' ∷ b'd' ∷ b'i' ∷ b's' ∷ [])
      (b'/' ∷ b'/' ∷ host) p b'/'
      (split_last-append redis_scheme host refl h ∙ unfold followed_by split_last in refl) refl refl
      refl
with_port-host host true (some pw) (some p) h =
    with_port-password host pw (rediss_scheme ++ b':' ∷ pw) p refl h
with_port-host host false (some pw) (some p) h =
    with_port-password host pw (redis_scheme ++ b':' ∷ pw) p refl h

authority-append :
    (password : Option Text) (h r : Text) → authority password (h ++ r) ≡ authority password h ++ r
authority-append none h r = refl
authority-append (some pw) h r = ap (◌∷◌ b':') (sym (append_assoc pw (b'@' ∷ h) r))

-- A configured URL with the scheme of a plain connection stays as it is, whatever the flag for TLS says.
pub build_redis_url_plain :
    (url : Text) (tls_enabled : Bool)
    → starts_with redis_scheme url ≡ true
    → build_redis_url url tls_enabled none none ≡ url
unfolding build_redis_url with_protocol with_password with_port
build_redis_url_plain url tls_enabled h = rw h refl

-- A configured host without a slash, a colon or an at sign gets the scheme, the password, if there is
-- one, in front of it, and the port, if there is one, behind it.
pub build_redis_url_host :
    (host : Text) (tls_enabled : Bool) (password : Option Text) (port : Option ℕ)
    → contains host b'/' ≡ false
    → contains host b'@' ≡ false
    → contains host b':' ≡ false
    → build_redis_url host tls_enabled password port
      ≡ scheme tls_enabled ++ authority password host ++ port_suffix port
unfolding build_redis_url
build_redis_url_host host tls_enabled password port slash at colon =
    ap (λ url. with_port (with_password url password) port)
      (with_protocol-host host tls_enabled slash)
    ∙ ap (λ url. with_port url port) (with_password-host host tls_enabled password slash at)
    ∙ with_port-host host tls_enabled password port colon

-- A configured host with a port keeps it, whatever port is configured beside it.
pub build_redis_url_port :
    (host : Text) (q : ℕ) (tls_enabled : Bool) (password : Option Text) (port : Option ℕ)
    → contains host b'/' ≡ false
    → contains host b'@' ≡ false
    → q < 2 ^ 16
    → build_redis_url (host ++ b':' ∷ show q) tls_enabled password port
      ≡ scheme tls_enabled ++ authority password (host ++ b':' ∷ show q)
unfolding build_redis_url
build_redis_url_port host q tls_enabled password port slash at small =
    ap (λ url. with_port (with_password url password) port)
      (with_protocol-host url tls_enabled (lacks b'/' slash refl refl))
    ∙ ap (λ url. with_port url port)
        (with_password-host url tls_enabled password (lacks b'/' slash refl refl)
          (lacks b'@' at refl refl))
    ∙ subst (λ whole. with_port whole port ≡ whole)
        (append_assoc (scheme tls_enabled) (authority password host) (b':' ∷ show q)
          ∙ ap (◌++◌ (scheme tls_enabled)) (sym (authority-append password host (b':' ∷ show q))))
        (with_port-given (scheme tls_enabled ++ authority password host) q port small)
  where
    url : Text
    url = host ++ b':' ∷ show q

    lacks :
        (c : ℕ)
        → contains host c ≡ false
        → (leb b'0' c && leb c b'9') ≡ false
        → (b':' == c) ≡ false
        → contains url c ≡ false
    lacks c h odd other =
        ground (
          arith,
          contains-append host (b':' ∷ show q) c,
          digits_lack (show q) c odd (show-IsDigit q),
        )
