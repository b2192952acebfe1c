-- ===== src/Storage/Formats.antt =====
-- How a coin is written for Redis: src/storage/redis/mod.rs. The texts of object identifiers and
-- digests come from the Sui types and the JSON of a list of texts from serde_json and cjson: they
-- are parameters, with what the code relies on.
pub mod RoundTrip
use sui_gas_pool.Prelude.{ℕ, ◌≡◌, Option, none, some, List, [], ◌∷◌, ◌++◌, Result, ok, err, Error}
use sui_gas_pool.Text.{Text, show, parse_u64, split, Plain}
use sui_gas_pool.Types.{ObjectId, GasCoin}

pub record Formats : Type 0 where
  pub id_text : ObjectId → Text
  pub id_parse : Text → Option ObjectId
  pub digest_text : ℕ → Text
  pub digest_parse : Text → Option ℕ
  pub to_json : List Text → Text
  pub from_json : Text → Option (List Text)

-- Printing and parsing are inverse, and neither text has a comma in it. The empty text is no id.
pub record IsFormats (F : Formats) : Type 0 where
  pub id_parse-id_text : (i : ObjectId) → F.id_parse (F.id_text i) ≡ some i
  pub id_text-Plain : (i : ObjectId) → Plain (F.id_text i)
  pub id_parse-nil : F.id_parse [] ≡ none
  pub digest_parse-digest_text : (d : ℕ) → F.digest_parse (F.digest_text d) ≡ some d
  pub digest_text-Plain : (d : ℕ) → Plain (F.digest_text d)
  pub from_json-to_json : (ts : List Text) → F.from_json (F.to_json ts) ≡ some ts

abbrev unwrap {ℓ} : {A : Type ℓ} → Option A → Result A
unwrap none = err Error.panic
unwrap (some a) = ok a

module _ (F : Formats) where
  open F use {id_text, id_parse, digest_text, digest_parse}

  -- `format!("{},{},{},{}", balance, id, version, digest)`
  unfoldable pub coin_text : GasCoin → Text
  coin_text c =
      show c.balance
      ++ b','
        ∷ (id_text c.object_ref.id
            ++ b',' ∷ (show c.object_ref.version ++ b',' ∷ digest_text c.object_ref.digest))

  build : Option ℕ → Option ℕ → Option ℕ → Option ℕ → Result GasCoin
  build (some b) (some i) (some v) (some d) =
      ok (record { object_ref = record { id = i; version = v; digest = d }; balance = b })
  build _ _ _ _ = err Error.panic

  -- Each `splits.next().unwrap()` and each parse may panic; what follows a fourth field is ignored.
  parse_fields : List Text → Result GasCoin
  unfolding build
  parse_fields (b ∷ i ∷ v ∷ d ∷ rest) =
      build (parse_u64 b) (id_parse i) (parse_u64 v) (digest_parse d)
  parse_fields _ = err Error.panic

  unfoldable pub parse_coin : Text → Result GasCoin
  unfolding parse_fields
  parse_coin t = parse_fields (split t)
