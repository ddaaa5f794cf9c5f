-- ===== src/Manager/Probe.antt =====
-- `_probe_candidate` of manager.py: a provider's inventory of one domain, and the health record of it.
pub mod Guarantee
use msys_hal.Prelude.{
  ℕ, ◌-◌, ◌/◌, ◌^◌, String, Bool, true, false, ◌||◌, Option, none, some, List, [], ◌∷◌, ◌++◌, ltb,
  length, take, if◌then◌else◌, ◌==◌, string_eq, pair_eq, concat, prefix, sort_texts, unique, member,
}
use Prim.Native.Nat.{min}
use msys_hal.Prelude.Dict.{put}
use msys_hal.Json.{obj, arr, str, field, end, texts}
use msys_hal.Errors.{Exception, error_code, Result, ok, err}
use msys_hal.Manager.State.{Candidate, ProviderHealth, Shared}
use msys_hal.Manager.Exec.{
  Exec, pure, raise, lift, attempt, modify, acquire, monotonic, unix_ms, ◌>>=◌, ◌>>◌,
}
use msys_hal.Manager.Gateway.{invoke}
use msys_hal.Manager.Responses.{Device, Inventory, normalize_inventory}

-- `_elapsed_ms`; a clock that goes back counts as no time.
unfoldable pub elapsed_ms : ℕ → ℕ → ℕ
elapsed_ms started now = min ((now - started) / 1000000) (2 ^ 31 - 1)

-- The mutable fields of all devices.
abbrev all_mutable : List Device → List String
all_mutable [] = []
all_mutable (d ∷ ds) = d.mutable_fields ++ all_mutable ds

unfoldable pub failed_health : Exception → ℕ → ℕ → ProviderHealth
failed_health e checked latency = record {
  status = "unavailable";
  reason =
      if error_code e == "CALL_TIMEOUT" || error_code e == "HAL_UNAVAILABLE"
      then "transport-error"
      else "provider-error";
  checked_at_unix_ms = checked;
  latency_ms = latency;
  device_count = none;
  mutable_fields = [];
  mutable_truncated = false;
  error_code = some (error_code e);
}

unfoldable pub observed_health : Inventory → ℕ → ℕ → ProviderHealth
observed_health inventory checked latency =
    let fields = sort_texts (unique (all_mutable inventory.devices)) in
    record {
      status = inventory.row.status;
      reason = prefix 128 (elim inventory.row.reason [ none ↦ "healthy" | some reason ↦ reason ]);
      checked_at_unix_ms = checked;
      latency_ms = latency;
      device_count = some (length inventory.devices);
      mutable_fields = take 32 fields;
      mutable_truncated = ltb 32 (length fields);
      error_code = none;
    }

abbrev set_health : String → String → ProviderHealth → Shared → Shared
set_health component domain health s = record s {
  provider_health = put (component, domain) health s.provider_health;
}

-- The call and the check of its answer.
unfoldable pub fetch_inventory : Candidate → String → ℕ → Exec Inventory
fetch_inventory candidate requested_domain timeout_ms = do
  raw ←
      invoke
        (record {
          target = candidate.target;
          method = "inventory";
          payload = obj (field "domains" (arr (texts (requested_domain ∷ []))) end);
          timeout_ms = timeout_ms;
          idempotent = true;
        })
        (concat ("inventory " ∷ candidate.component ∷ []))
  lift (normalize_inventory (obj raw) requested_domain candidate)

-- The health record is written whether or not the call succeeds.
record_health : Candidate → String → ℕ → Result Inventory → Exec Inventory
unfolding failed_health observed_health elapsed_ms
record_health candidate requested_domain started (err e) = do
  checked ← unix_ms
  now ← monotonic
  acquire
  modify (
      set_health candidate.component requested_domain
        (failed_health e checked (elapsed_ms started now)))
  raise e
record_health candidate requested_domain started (ok inventory) = do
  checked ← unix_ms
  now ← monotonic
  acquire
  modify (
      set_health candidate.component requested_domain
        (observed_health inventory checked (elapsed_ms started now)))
  pure inventory

unfoldable pub probe_candidate : Candidate → String → ℕ → Exec Inventory
unfolding record_health fetch_inventory
probe_candidate candidate requested_domain timeout_ms = do
  started ← monotonic
  outcome ← attempt (fetch_inventory candidate requested_domain timeout_ms)
  record_health candidate requested_domain started outcome
