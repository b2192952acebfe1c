-- ===== src/Initializer/Run/Steps.antt =====
-- A run of the initializer as steps of the life of the coins.
use mathlib.Core.List.{append_assoc, append-nil}
use sui_gas_pool.Prelude.{
  ℕ, zero, suc, ◌+◌, ◌^◌, ◌<◌, ◌≤◌, ◌≡◌, refl, ap, ◌∙◌, sym, subst, true, false, some, List, [],
  ◌∷◌, ◌++◌, map, Result, ok, Option-cases, Bool-cases, inl, inr, length, length-append, take, drop,
  take-append-drop, length-drop_le, All, All-split, arith, ltb,
}
use sui_gas_pool.Types.{ObjectId, GasCoin, IsCoin, coin_id, total_balance}
use sui_gas_pool.Storage.Double.{double}
use sui_gas_pool.Storage.Store.{Store}
use sui_gas_pool.Storage.Formats.{Formats, IsFormats}
use sui_gas_pool.Storage.Invariant.{Holds, Holds_of_same, total_balance-append}
use sui_gas_pool.Storage.Scripts.Init.{acquire_lock_script, release_lock_script}
use sui_gas_pool.Storage.Scripts.AddNew.{grown}
use sui_gas_pool.Storage.Redis.{acquire_init_lock, release_init_lock, add_new_coins}
use sui_gas_pool.Storage.Redis.AddNew.{add_new_coins_appends}
use sui_gas_pool.Storage.Flow.{count, Sys, arrives, locks, Reach, here, next}
use sui_gas_pool.Storage.Flow.Counting.{count-append, count-ids-append}
use sui_gas_pool.Initializer.Run.{
  RunMode, Parts, max_init_duration_sec, balance_threshold, must, add_chunks, release, store_split,
  split_owned, with_lock, run_once,
}

-- New coins that fit beside those of the store, and that were never seen.
pub record IsNew (coins more : List GasCoin) (known : List ObjectId) : Type 0 where
  pub in_range : All IsCoin more
  pub total_fits : total_balance coins + total_balance more < 2 ^ 53
  pub count_fits : length coins + length more < 2 ^ 53
  pub unseen : (a : ObjectId) → count a (map coin_id more) + count a known ≤ 1

-- The first of the new coins, and the others after them.
module _ (coins more : List GasCoin) (known : List ObjectId) (n : ℕ)
    (new : IsNew coins more known) where
  whole : take n more ++ drop n more ≡ more
  whole = take-append-drop n more

  parts_in_range : All IsCoin (take n more) × All IsCoin (drop n more)
  parts_in_range =
      All-split IsCoin (take n more) (drop n more) (subst (All IsCoin) (sym whole) new.in_range)

  total_parts : total_balance (take n more) + total_balance (drop n more) ≡ total_balance more
  total_parts =
      omega (arith, total_balance-append (take n more) (drop n more), ap total_balance whole)

  length_parts : length (take n more) + length (drop n more) ≡ length more
  length_parts = omega (arith, length-append (take n more) (drop n more), ap length whole)

  count_parts :
      (a : ObjectId)
      → count a (map coin_id (take n more)) + count a (map coin_id (drop n more))
        ≡ count a (map coin_id more)
  count_parts a = omega (
    arith,
    count-ids-append a (take n more) (drop n more),
    ap (λ cs. count a (map coin_id cs)) whole,
  )

  IsNew-take : IsNew coins (take n more) known
  IsNew-take = record {
    in_range = parts_in_range.0;
    total_fits = omega (arith, new.total_fits, total_parts);
    count_fits = omega (arith, new.count_fits, length_parts);
    unseen = λ a. omega (arith, new.unseen a, count_parts a);
  }

  IsNew-drop : IsNew (coins ++ take n more) (drop n more) (map coin_id (take n more) ++ known)
  IsNew-drop = record {
    in_range = parts_in_range.1;
    total_fits =
        omega (arith, new.total_fits, total_parts, total_balance-append coins (take n more));
    count_fits = omega (arith, new.count_fits, length_parts, length-append coins (take n more));
    unseen = λ a.
        omega
          (arith, new.unseen a, count_parts a, count-append a (map coin_id (take n more)) known);
  }

module _ (F : Formats) (laws : IsFormats F) (parts : Parts) (out spent : List ObjectId) where
  abbrev pub among : Store → List ObjectId → Sys
  among s known = record { store = s; out = out; spent = spent; known = known }

  -- What a part of the run does: it succeeds, along steps, releases the lock and stores the coins behind the others.
  pub record Stored (start : Sys) (r : Result (Unit {0}) × Store) (coins more : List GasCoin)
      (known : List ObjectId) : Type 0 where
    pub seen : List ObjectId
    pub succeeds : r.0 ≡ ok tt
    pub unlocked : r.1.init_lock ≡ some 0
    pub path : Reach F start (among r.1 seen)
    pub holds : Holds F r.1 (coins ++ more)
    pub adds : (a : ObjectId) → count a seen ≡ count a (map coin_id more) + count a known

  release-Stored :
      (start : Sys) (s : Store) (coins : List GasCoin) (known : List ObjectId)
      → Reach F start (among s known)
      → Holds F s coins
      → Stored start (release F parts s) coins [] known
  unfolding release must release_init_lock release_lock_script
  release-Stored start s coins known path holds = record {
    seen = known;
    succeeds = refl;
    unlocked = refl;
    path = next path (locks (some 0) refl);
    holds =
        subst (Holds F (record s { init_lock = some 0 })) (sym (append-nil coins))
          (Holds_of_same F s (record s { init_lock = some 0 }) coins refl refl refl holds);
    adds = λ a. omega arith;
  }

  -- One chunk, and what follows it.
  module _ (start : Sys) (fuel : ℕ) (c : GasCoin) (tail : List GasCoin) (s : Store)
      (coins : List GasCoin) (known : List ObjectId) (new : IsNew coins (c ∷ tail) known)
      (holds : Holds F s coins) where
    abbrev chunk : List GasCoin
    chunk = take 5000 (c ∷ tail)

    abbrev later : List GasCoin
    later = drop 5000 (c ∷ tail)

    abbrev after : Store
    after = grown F s coins chunk

    small : IsNew coins chunk known
    small = IsNew-take coins (c ∷ tail) known 5000 new

    added : (add_new_coins F chunk s ≡ (ok tt, after)) × Holds F after (coins ++ chunk)
    added =
        add_new_coins_appends F laws s coins chunk holds small.in_range small.total_fits
          small.count_fits

    first :
        add_chunks F parts (suc fuel) (c ∷ tail) (release F parts) s
        ≡ add_chunks F parts fuel later (release F parts) after
    unfolding add_chunks must
    first = ap (λ r. must F parts r (add_chunks F parts fuel later (release F parts))) added.0

    chunk-path :
        Reach F start (among s known) → Reach F start (among after (map coin_id chunk ++ known))
    chunk-path path = next path (
        arrives chunk
          (record {
            total = total_balance coins;
            number = length coins;
            stat_total = holds.stat_total;
            stat_count = holds.stat_count;
            in_range = small.in_range;
            total_fits = small.total_fits;
            count_fits = small.count_fits;
          })
          small.unseen
          (ap (λ t. among t (map coin_id chunk ++ known)) (sym (ap (λ r. r.1) added.0))))

    chunk-Stored :
        Stored start
          (add_chunks F parts fuel later (release F parts) after)
          (coins ++ chunk)
          later
          (map coin_id chunk ++ known)
        → Stored start
            (add_chunks F parts (suc fuel) (c ∷ tail) (release F parts) s)
            coins
            (c ∷ tail)
            known
    chunk-Stored rest =
        subst (λ r. Stored start r coins (c ∷ tail) known) (sym first)
          (record {
            seen = rest.seen;
            succeeds = rest.succeeds;
            unlocked = rest.unlocked;
            path = rest.path;
            holds =
                subst (Holds F (add_chunks F parts fuel later (release F parts) after).1)
                  (append_assoc coins chunk later
                    ∙ ap (◌++◌ coins) (whole coins (c ∷ tail) known 5000 new))
                  rest.holds;
            adds = λ a. omega (
              arith,
              rest.adds a,
              count_parts coins (c ∷ tail) known 5000 new a,
              count-append a (map coin_id chunk) known,
            );
          })

  add_chunks-Stored :
      (start : Sys) (fuel : ℕ) (more : List GasCoin) (s : Store) (coins : List GasCoin)
      (known : List ObjectId)
      → length more ≤ fuel
      → IsNew coins more known
      → Reach F start (among s known)
      → Holds F s coins
      → Stored start (add_chunks F parts fuel more (release F parts) s) coins more known
  unfolding add_chunks
  add_chunks-Stored start zero [] s coins known enough new path holds =
      release-Stored start s coins known path holds
  add_chunks-Stored start zero (c ∷ more) s coins known enough new path holds =
      absurd (omega (arith, enough))
  add_chunks-Stored start (suc fuel) [] s coins known enough new path holds =
      release-Stored start s coins known path holds
  add_chunks-Stored start (suc fuel) (c ∷ more) s coins known enough new path holds =
      chunk-Stored start fuel c more s coins known new holds (
        add_chunks-Stored start fuel (drop 5000 (c ∷ more)) (grown F s coins (take 5000 (c ∷ more)))
          (coins ++ take 5000 (c ∷ more)) (map coin_id (take 5000 (c ∷ more)) ++ known)
          (omega (arith, enough, length-drop_le 4999 more))
          (IsNew-drop coins (c ∷ more) known 5000 new)
          (chunk-path start fuel c more s coins known new holds path)
          (added start fuel c more s coins known new holds).1)

  acquired :
      (now duration : ℕ) (s : Store)
      → (acquire_init_lock now duration s).0 ≡ ok true
      → (lock : ℕ) × (acquire_init_lock now duration s
          ≡ (ok true, record s { init_lock = some lock }))
  unfolding acquire_init_lock acquire_lock_script
  acquired now duration s got = elim (Option-cases s.init_lock) [
    | inl free ↦ (double (double now + double duration), rw free refl)
    | inr (t, held) ↦ elim (Bool-cases (ltb t (double now))) [
      | inl over ↦ (double (double now + double duration), rw held (rw over refl))
      | inr running ↦ absurd (refused_lock t held running got)
    ]
  ]
    where
      refused_lock :
          (t : ℕ)
          → s.init_lock ≡ some t
          → ltb t (double now) ≡ false
          → ¬ ((acquire_init_lock now duration s).0 ≡ ok true)
      refused_lock t held running e = ground arith

  -- On a store that holds coins, a run that gets the lock and finds coins, whose splitting ends
  -- with new coins for which the store has room, succeeds and releases the lock; it stores the
  -- coins behind those that the store held, in chunks, and does nothing to the store that the
  -- specification of the coins' life does not allow.
  pub run_once-Stored :
      (now : ℕ) (mode : RunMode) (s : Store) (coins more found : List GasCoin) (c : GasCoin)
      (known : List ObjectId)
      → (acquire_init_lock now max_init_duration_sec s).0 ≡ ok true
      → parts.owned (balance_threshold mode parts.target_init_balance) ≡ ok (c ∷ found)
      → parts.split c (c ∷ found) ≡ ok more
      → Holds F s coins
      → IsNew coins more known
      → Stored (among s known) (run_once F parts now mode s) coins more known
  unfolding run_once with_lock split_owned store_split
  run_once-Stored now mode s coins more found c known got owns splits holds new =
      let (lock, taken) = acquired now max_init_duration_sec s got in
      rw taken (
        rw owns (
          rw splits (
            add_chunks-Stored (among s known) (length more) more
              (record s { init_lock = some lock }) coins known (omega arith) new
              (next here (locks (some lock) refl))
              (Holds_of_same F s (record s { init_lock = some lock }) coins refl refl refl holds))))
