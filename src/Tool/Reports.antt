-- ===== src/Tool/Reports.antt =====
-- What the tool reports of the station that listens at the address.
use sui_gas_pool.Prelude.{ℕ, ◌==◌, ◌≡◌, ◌↔◌, refl, ap, Result, ok, if◌then◌else◌}
use sui_gas_pool.Text.{Text}
use sui_gas_pool.GasPool.Core.{Parts, GasPool, debug_check_health}
use sui_gas_pool.Rpc.{StatusCode, Texts, Answer, value, failure}
use sui_gas_pool.Rpc.Routes.{Reply}
use sui_gas_pool.Rpc.Routes
use sui_gas_pool.Rpc.Calls.{HttpRequest}
use sui_gas_pool.Rpc.Calls.EndToEnd.{server, call_health_serves, call_debug_health_check_serves}
use sui_gas_pool.Tool.{
  Ending, healthy, server_version, check_station_health, check_station_end_to_end_health,
  get_station_version, ToolCommand, cli, execute, execute_cli, Shell, end_to_end_outcome,
  health_outcome, version_outcome,
}

-- A check passes exactly when the client's answer is a success.
end_to_end_outcome_iff :
    (answer : Answer (Unit {0})) → (end_to_end_outcome answer ≡ healthy) ↔ (answer ≡ value tt)
unfolding end_to_end_outcome
end_to_end_outcome_iff (value u) = (λ h. refl, λ h. refl)
end_to_end_outcome_iff (failure e) = (λ h. absurd (cc), λ h. absurd (cc))

module _ {S : Type 0} (parts : Parts S) (texts : Texts) (secret : ℕ) (version : Text)
    (turned_away : HttpRequest → Result Reply) (shown : StatusCode → Text → Text) (bad_json : Text)
    (around : Routes.Surroundings) (address : Text) (w : Shell) where
  abbrev tool : ℕ → ToolCommand → GasPool parts → Ending × GasPool parts
  tool auth =
      execute (server parts texts secret version turned_away shown bad_json around address) auth
        texts shown bad_json w

  -- The tool's plain check of a listening station reports that it is healthy, and the tool prints its
  -- version, whatever the token and the state of the pool, which they do not change. The check end to
  -- end reports that the station is healthy exactly when the token is the secret and the pool could
  -- reserve a coin and sign with it, and changes the pool as that check does, or not at all without the
  -- secret.
  pub execute_reports :
      (auth : ℕ) (p : GasPool parts)
      → let called = debug_check_health parts around.health_tx around.today around.now p in
        let (outcome, p') = tool auth (cli (check_station_end_to_end_health address)) p in
        (tool auth (cli (check_station_health address)) p ≡ (healthy, p))
        × (tool auth (cli (get_station_version address)) p ≡ (server_version version, p))
        × ((outcome ≡ healthy) ↔ ((auth ≡ secret) × (called.0 ≡ ok tt)))
        × (p' ≡ (if auth == secret then called.1 else p))
  unfolding execute execute_cli health_outcome version_outcome
  execute_reports auth p =
      let (well, versioned) =
        call_health_serves parts texts secret version turned_away shown bad_json around address auth
          p in
      let (answered, moved) =
        call_debug_health_check_serves parts texts secret version turned_away shown bad_json around
          address auth p in
      (
        ap (λ r. (health_outcome r.0, r.1)) well,
        ap (λ r. (version_outcome r.0, r.1)) versioned,
        both (end_to_end_outcome_iff _) answered,
        moved,
      )
    where
      both : {A B C : Type 0} → A ↔ B → B ↔ C → A ↔ C
      both (to, from) (on, back) = (λ a. on (to a), λ c. from (back c))
