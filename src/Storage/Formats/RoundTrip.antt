-- ===== src/Storage/Formats/RoundTrip.antt =====
-- A coin that is written comes back, in Rust and in the scripts.
use sui_gas_pool.Prelude.{ℕ, ◌≡◌, some, List, [], ◌∷◌, ok, arith, All}
use sui_gas_pool.Text.{
  show, show-IsDigit, IsDigit, parse_u64-show, cut, cut-append, split, split-append, split-Plain,
  Plain,
}
use sui_gas_pool.Types.{GasCoin, IsCoin}
use sui_gas_pool.Storage.Formats.{Formats, IsFormats, coin_text, parse_coin}

digits-Plain : (t : List ℕ) → All IsDigit t → Plain t
digits-Plain [] h = tt
digits-Plain (c ∷ t) h = (ground arith, digits-Plain t h.1)

pub show-Plain : (n : ℕ) → Plain (show n)
show-Plain n = digits-Plain (show n) (show-IsDigit n)

module _ (F : Formats) (laws : IsFormats F) where
  split-coin_text :
      (c : GasCoin)
      → split (coin_text F c)
        ≡ show c.balance
          ∷ F.id_text c.object_ref.id
          ∷ show c.object_ref.version
          ∷ F.digest_text c.object_ref.digest
          ∷ []
  unfolding coin_text
  split-coin_text c = rw (
    split-append (show c.balance) _ (show-Plain c.balance),
    split-append (F.id_text c.object_ref.id) _ (laws.id_text-Plain c.object_ref.id),
    split-append (show c.object_ref.version) _ (show-Plain c.object_ref.version),
    split-Plain (F.digest_text c.object_ref.digest) (laws.digest_text-Plain c.object_ref.digest),
  )

  -- A coin whose numbers fit their words is read back by Rust as it was written.
  pub parse_coin-coin_text : (c : GasCoin) → IsCoin c → parse_coin F (coin_text F c) ≡ ok c
  unfolding parse_coin
  parse_coin-coin_text c h = rw (
    split-coin_text c,
    parse_u64-show c.balance h.0,
    laws.id_parse-id_text c.object_ref.id,
    parse_u64-show c.object_ref.version h.1,
    laws.digest_parse-digest_text c.object_ref.digest,
  )

  -- What the scripts cut off a coin.
  pub cut-coin_text :
      (c : GasCoin)
      → (rest more : List ℕ) × (cut (coin_text F c) ≡ some (show c.balance, rest))
        × (cut rest ≡ some (F.id_text c.object_ref.id, more))
  unfolding coin_text
  cut-coin_text c = (
    _,
    _,
    cut-append (show c.balance) _ (show-Plain c.balance),
    cut-append (F.id_text c.object_ref.id) _ (laws.id_text-Plain c.object_ref.id),
  )
