-- ===== src/Storage/Scripts/Loop.antt =====
-- The loops of the scripts on texts that are coins.
use sui_gas_pool.Prelude.{
  ℕ, zero, suc, ◌+◌, ◌^◌, ◌<◌, ◌≡◌, refl, sym, ◌∙◌, ap, some, List, [], ◌∷◌, ◌++◌, map, reverse,
  arith, ltb, Bool-cases, inl, inr,
}
use mathlib.Core.List.{append_assoc, append-nil, reverse-reverse, reverse-cons}
use sui_gas_pool.Text.{Text, read_nat-show}
use sui_gas_pool.Types.{GasCoin, total_balance}
use sui_gas_pool.Storage.Double.{double, double_exact}
use sui_gas_pool.Storage.Formats.{Formats, IsFormats, coin_text}
use sui_gas_pool.Storage.Formats.RoundTrip.{cut-coin_text}
use sui_gas_pool.Storage.Pick.{pick}
use sui_gas_pool.Storage.Scripts.{
  Picked, to_number, read_balance, read_id, add_coin, take_coins, push_front_all, push_coins,
}

push_front_all-append : (ts av : List Text) → push_front_all ts av ≡ reverse ts ++ av
unfolding push_front_all
push_front_all-append [] av = refl
push_front_all-append (t ∷ ts) av =
    push_front_all-append ts (t ∷ av)
    ∙ sym (ap (λ r. r ++ av) (reverse-cons t ts) ∙ append_assoc (reverse ts) (t ∷ []) av)

-- Pushing the popped coins back, last one first, restores the list.
pub push_front_all-reverse : (ts av : List Text) → push_front_all (reverse ts) av ≡ ts ++ av
push_front_all-reverse ts av =
    push_front_all-append (reverse ts) av ∙ ap (λ r. r ++ av) (reverse-reverse ts)

module _ (F : Formats) (laws : IsFormats F) where
  abbrev text : GasCoin → Text
  text = coin_text F

  abbrev id_of : GasCoin → Text
  id_of c = F.id_text c.object_ref.id

  pub read_balance-coin_text : (c : GasCoin) → read_balance (text c) ≡ some (double c.balance)
  unfolding read_balance
  read_balance-coin_text c =
      let (rest, more, e, e') = cut-coin_text F laws c in
      rw (e, read_balance, to_number, read_nat-show c.balance)

  read_id-coin_text : (c : GasCoin) → read_id (text c) ≡ some (id_of c)
  unfolding read_id
  read_id-coin_text c = let (rest, more, e, e') = cut-coin_text F laws c in rw (e, read_id, e')

  -- What the loop has gathered after a list of coins.
  abbrev pub gather : Picked → List GasCoin → Picked
  gather p cs = record {
    total = p.total + total_balance cs;
    coins = p.coins ++ map text cs;
    object_ids = p.object_ids ++ map id_of cs;
  }

  gather-nil : (p : Picked) → p ≡ gather p []
  gather-nil p = λ i. record {
    total = total_path i;
    coins = sym (append-nil p.coins) i;
    object_ids = sym (append-nil p.object_ids) i;
  }
    where
      total_path : p.total ≡ p.total + 0
      total_path = omega arith

  -- One round on a coin.
  add_coin-coin_text :
      (c : GasCoin) (p : Picked)
      → p.total + c.balance < 2 ^ 53
      → add_coin (text c) p ≡ some (gather p (c ∷ []))
  unfolding add_coin
  add_coin-coin_text c p h =
      rw
        (
          read_balance-coin_text c,
          add_coin,
          read_id-coin_text c,
          double_exact c.balance (omega arith),
          double_exact (p.total + c.balance) h,
        )
        (ground arith)

  gather-append :
      (p : Picked) (c : GasCoin) (cs : List GasCoin)
      → gather (gather p (c ∷ [])) cs ≡ gather p (c ∷ cs)
  gather-append p c cs = λ i. record {
    total = total_path i;
    coins = append_assoc p.coins (text c ∷ []) (map text cs) i;
    object_ids = append_assoc p.object_ids (id_of c ∷ []) (map id_of cs) i;
  }
    where
      total_path :
          p.total + (c.balance + 0) + total_balance cs ≡ p.total + (c.balance + total_balance cs)
      total_path = omega arith

  -- While the sums are exact the loop takes what `pick` takes.
  pub take_coins-pick :
      (room target : ℕ) (p : Picked) (cs : List GasCoin)
      → p.total + total_balance cs < 2 ^ 53
      → let (picked, rest) = pick room target p.total cs in
        take_coins room target p (map text cs) ≡ (some (gather p picked), map text rest)
  unfolding take_coins pick
  take_coins-pick zero target p cs h = rw (← gather-nil p)
  take_coins-pick (suc room) target p [] h = rw (← gather-nil p)
  take_coins-pick (suc room) target p (c ∷ cs) h = elim (Bool-cases (ltb p.total target)) [
    | inl more ↦
        let z : p.total + (c.balance + 0) ≡ p.total + c.balance = omega arith in
        let picked = (pick room target (p.total + c.balance) cs).0 in
        let ih = rw z at (take_coins-pick room target (gather p (c ∷ [])) cs (omega arith)) in
        rw (more, take_coins, add_coin-coin_text c p (omega arith), ← gather-append p c picked, z)
          ih
    | inr done ↦ rw (done, take_coins, ← gather-nil p)
  ]

  pub push_coins-map :
      (cs : List GasCoin) (total : ℕ) (available : List Text)
      → total + total_balance cs < 2 ^ 53
      → push_coins (map text cs) total available
        ≡ (some (total + total_balance cs), available ++ map text cs)
  unfolding push_coins
  push_coins-map [] total available h = rw append-nil (ground arith)
  push_coins-map (c ∷ cs) total available h =
      rw
        (
          read_balance-coin_text c,
          push_coins,
          double_exact c.balance (omega arith),
          double_exact (total + c.balance) (omega arith),
        )
        (push_coins-map cs (total + c.balance) (available ++ text c ∷ []) (omega arith) ∙ λ i.
          (some (sums i), append_assoc available (text c ∷ []) (map text cs) i))
    where
      sums : total + c.balance + total_balance cs ≡ total + (c.balance + total_balance cs)
      sums = omega arith
