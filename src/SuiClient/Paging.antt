-- ===== src/SuiClient/Paging.antt =====
-- The loop over the pages of coins.
use mathlib.Core.List.{append_assoc}
use sui_gas_pool.Prelude.{
  ℕ, zero, suc, ◌≤◌, ◌≡◌, refl, ap, ◌∙◌, sym, ◌⊎◌, inl, inr, true, false, Option, none, some, List,
  [], ◌∷◌, ◌++◌, arith, Bool-cases, leb,
}
use sui_gas_pool.Types.{GasCoin}
use sui_gas_pool.SuiClient.{
  Page, above, collect_pages, get_all_owned_sui_coins_above_balance_threshold,
}

-- From a cursor on, the node serves these coins in at most so many pages.
abbrev pub Serves : (Option ℕ → Page) → ℕ → Option ℕ → List GasCoin → Type 0
Serves get_coins zero cursor coins = ⊥
Serves get_coins (suc n) cursor coins =
    (((get_coins cursor).has_next_page ≡ false) × (coins ≡ (get_coins cursor).items))
    ⊎ (((get_coins cursor).has_next_page ≡ true)
        × (rest : List GasCoin) × (coins ≡ (get_coins cursor).items ++ rest)
        × Serves get_coins n (get_coins cursor).next_cursor rest)

above-append :
    (threshold : ℕ) (xs ys : List GasCoin)
    → above threshold (xs ++ ys) ≡ above threshold xs ++ above threshold ys
unfolding above
above-append threshold [] ys = refl
above-append threshold (x ∷ xs) ys = elim (Bool-cases (leb threshold x.balance)) [
  | inl large ↦ rw large (ap (◌∷◌ x) (above-append threshold xs ys))
  | inr small ↦ rw small (above-append threshold xs ys)
]

collect_pages-Serves :
    (get_coins : Option ℕ → Page) (fuel n threshold : ℕ) (cursor : Option ℕ)
    (found coins : List GasCoin)
    → Serves get_coins n cursor coins
    → n ≤ fuel
    → collect_pages get_coins fuel threshold cursor found ≡ some (found ++ above threshold coins)
unfolding collect_pages
collect_pages-Serves get_coins fuel zero threshold cursor found coins serves h = absurd serves
collect_pages-Serves get_coins zero (suc n) threshold cursor found coins serves h =
    absurd (omega (arith, h))
collect_pages-Serves get_coins (suc fuel) (suc n) threshold cursor found coins (inl (last, same))
      h =
    rw (last, same) refl
collect_pages-Serves get_coins (suc fuel) (suc n) threshold cursor found coins
      (inr (more, rest, same, serves)) h =
    let page = get_coins cursor in
    let later =
      collect_pages-Serves get_coins fuel n threshold page.next_cursor
        (found ++ above threshold page.items) rest serves (omega (arith, h)) in
    rw more (
      later
      ∙ ap some (
          append_assoc found (above threshold page.items) (above threshold rest)
          ∙ ap (◌++◌ found)
              (sym (above-append threshold page.items rest) ∙ ap (above threshold) (sym same))))

-- If the node serves the coins of the sponsor in at most as many pages as there is fuel, the loop
-- returns exactly those whose balance is at least the threshold, in the order of the pages.
pub get_all_owned-Serves :
    (get_coins : Option ℕ → Page) (fuel n threshold : ℕ) (coins : List GasCoin)
    → Serves get_coins n none coins
    → n ≤ fuel
    → get_all_owned_sui_coins_above_balance_threshold get_coins fuel threshold
      ≡ some (above threshold coins)
unfolding get_all_owned_sui_coins_above_balance_threshold
get_all_owned-Serves get_coins fuel n threshold coins serves h =
    collect_pages-Serves get_coins fuel n threshold none [] coins serves h
