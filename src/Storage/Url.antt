-- ===== src/Storage/Url.antt =====
-- The address of Redis: `build_redis_url` of src/storage/mod.rs, and the query that `RedisStorage::new`
-- of src/storage/redis/mod.rs adds to it.
pub mod Port
pub mod Meaning
use sui_gas_pool.Prelude.{
  ℕ, zero, suc, Bool, true, false, not, ◌&&◌, ◌||◌, Option, none, some, List, [], ◌∷◌, ◌++◌, ◌==◌,
  ltb, ◌^◌, if◌then◌else◌, contains, drop, length,
}
use sui_gas_pool.Text.{Text, show, parse_u64}

-- redis://
abbrev pub redis_scheme : Text
redis_scheme = b'r' ∷ b'e' ∷ b'd' ∷ b'i' ∷ b's' ∷ b':' ∷ b'/' ∷ b'/' ∷ []

-- rediss://
abbrev pub rediss_scheme : Text
rediss_scheme = b'r' ∷ b'e' ∷ b'd' ∷ b'i' ∷ b's' ∷ b's' ∷ b':' ∷ b'/' ∷ b'/' ∷ []

unfoldable pub starts_with : Text → Text → Bool
starts_with [] t = true
starts_with (c ∷ p) [] = false
starts_with (c ∷ p) (d ∷ t) = (c == d) && starts_with p t

-- `trim_start_matches` removes the prefix as often as it stands there; the fuel is the length.
unfoldable pub trim_start : ℕ → Text → Text → Text
unfolding starts_with
trim_start zero p t = t
trim_start (suc fuel) p t =
    let shorter = trim_start fuel p (drop (length p) t) in if starts_with p t then shorter else t

abbrev pub trim_start_matches : Text → Text → Text
trim_start_matches p t = trim_start (length t) p t

-- `rsplitn(2, ':')`: what stands before the last colon and what after it, if there is one.
abbrev or_here : ℕ → Text → Option (Text × Text) → Option (Text × Text)
or_here c t none = if c == b':' then some ([], t) else none
or_here c t (some (before, after)) = some (c ∷ before, after)

unfoldable pub split_last : Text → Option (Text × Text)
split_last [] = none
split_last (c ∷ t) = or_here c t (split_last t)

abbrev in_u16 : Option ℕ → Option ℕ
in_u16 none = none
in_u16 (some n) = if ltb n (2 ^ 16) then some n else none

-- `parse::<u16>()`
unfoldable pub parse_u16 : Text → Option ℕ
parse_u16 t = in_u16 (parse_u64 t)

unfoldable pub with_protocol : Text → Bool → Text
with_protocol url tls_enabled =
    if not (starts_with redis_scheme url) && not (starts_with rediss_scheme url)
    then (if tls_enabled then rediss_scheme ++ url else redis_scheme ++ url)
    else url

unfoldable pub with_password : Text → Option Text → Text
with_password url none = url
with_password url (some pw) =
    let proto = if starts_with rediss_scheme url then rediss_scheme else redis_scheme in
    if not (contains url b'@')
    then proto ++ b':' ∷ pw ++ b'@' ∷ trim_start_matches proto url
    else url

-- A port is added unless the text behind the last colon is one.
port_if_missing : Text → ℕ → Option ℕ → Text
port_if_missing url p none = url ++ b':' ∷ show p
port_if_missing url p (some q) = url

port_after : Text → ℕ → Option (Text × Text) → Text
unfolding port_if_missing
port_after url p none = url
port_after url p (some (before, after)) = port_if_missing url p (parse_u16 after)

unfoldable pub with_port : Text → Option ℕ → Text
unfolding port_after
with_port url none = url
with_port url (some p) = port_after url p (split_last url)

unfoldable pub build_redis_url : Text → Bool → Option Text → Option ℕ → Text
unfolding with_protocol with_password with_port
build_redis_url redis_url tls_enabled password port =
    with_port (with_password (with_protocol redis_url tls_enabled) password) port

-- insecure=true
abbrev pub insecure : Text
insecure =
    b'i' ∷ b'n' ∷ b's' ∷ b'e' ∷ b'c' ∷ b'u' ∷ b'r' ∷ b'e' ∷ b'=' ∷ b't' ∷ b'r' ∷ b'u' ∷ b'e' ∷ []

-- `contains` of a text.
unfoldable pub has_text : Text → Text → Bool
has_text p [] = starts_with p []
has_text p (c ∷ t) = starts_with p (c ∷ t) || has_text p t

-- The address that the client is opened with.
unfoldable pub client_url : Text → Bool → Text
unfolding has_text
client_url redis_url tls_enabled =
    if tls_enabled && not (has_text insecure redis_url)
    then redis_url ++ (if contains redis_url b'?' then b'&' else b'?') ∷ insecure
    else redis_url
