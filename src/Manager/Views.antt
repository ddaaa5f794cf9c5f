-- ===== src/Manager/Views.antt =====
-- The answers of `list_providers` and `get_provider` of manager.py, and their JSON form.
use msys_hal.Prelude.{ℕ, String, Bool, true, false, Option, none, some, List, map}
use msys_hal.Json.{Value, null, bool, int, str, arr, obj, Fields, field, end, texts, from_items}
use msys_hal.Json.Int.{pos}
use msys_hal.Manager.State.{Candidate, ProviderHealth}
use msys_hal.Manager.Responses.{manager_interface}
use msys_hal.Manager.Catalog.{SelectionMode, manual, stale, automatic}

-- `preferred`, `active` and `selection` of `_selection_for`.
pub record Selected : Type 0 where
  pub preferred : Option String
  pub active : Option String
  pub selection : SelectionMode

-- A candidate as `_candidate_payload` shows it; without a domain, only its name and priority count.
pub record CandidateView : Type 0 where
  pub candidate : Candidate
  pub capabilities : List String
  pub selected : Bool
  pub active : Bool
  pub health : Option ProviderHealth

-- A row of `providers`.
pub record ProviderRow : Type 0 where
  pub domain : String
  pub selected : Selected
  pub candidates : List CandidateView

pub record ProviderList : Type 0 where
  pub revision : ℕ
  pub rows : List ProviderRow

pub record ProviderDetail : Type 0 where
  pub revision : ℕ
  pub domain : String
  pub selected : Selected
  pub provider : Option CandidateView

pub text_or_null : Option String → Value
text_or_null none = null
text_or_null (some s) = str s

pub mode_text : SelectionMode → String
mode_text manual = "manual"
mode_text stale = "stale"
mode_text automatic = "automatic"

error_field : Option String → Fields
error_field none = end
error_field (some code) = field "error_code" (str code) end

counted_fields : Option ℕ → ProviderHealth → Fields → Fields
counted_fields none health rest = rest
counted_fields (some n) health rest = field "device_count" (int (pos n)) (
    field "mutable" (arr (texts health.mutable_fields))
      (field "mutable_truncated" (bool health.mutable_truncated) rest))

-- `ProviderHealth.payload`
unfoldable pub payload : ProviderHealth → Value
unfolding error_field counted_fields
payload health = obj (
    field "status" (str health.status) (
      field "reason" (str health.reason) (
        field "checked_at_unix_ms" (int (pos health.checked_at_unix_ms)) (
          field "latency_ms" (int (pos health.latency_ms))
            (counted_fields health.device_count health (error_field health.error_code))))))

health_payload : Option ProviderHealth → Value
health_payload none = obj (field "status" (str "unknown") (field "reason" (str "not-checked") end))
health_payload (some health) = payload health

candidate_payload : CandidateView → Value
candidate_payload view = obj (
    field "component" (str view.candidate.component) (
      field "name" (str view.candidate.name) (
        field "version" (str view.candidate.version) (
          field "priority" (int view.candidate.priority) (
            field "domains" (arr (texts view.candidate.domains)) (
              field "capabilities" (arr (texts view.capabilities)) (
                field "selected" (bool view.selected) (
                  field "active" (bool view.active)
                    (field "health" (health_payload view.health) end)))))))))

short_payload : CandidateView → Value
short_payload view = obj (
    field "component" (str view.candidate.component) (
      field "name" (str view.candidate.name) (
        field "version" (str view.candidate.version)
          (field "priority" (int view.candidate.priority) end))))

view_payload : Bool → CandidateView → Value
view_payload true view = candidate_payload view
view_payload false view = short_payload view

row_payload : Bool → ProviderRow → Value
row_payload detailed row = obj (
    field "domain" (str row.domain) (
      field "selection" (str (mode_text row.selected.selection)) (
        field "preferred" (text_or_null row.selected.preferred) (
          field "active" (text_or_null row.selected.active) (
            field "candidates" (arr (from_items (map (view_payload detailed) row.candidates)))
              end)))))

-- `result` of `list_providers`, detailed if a domain was asked for.
unfoldable pub list_payload : Bool → ProviderList → Value
unfolding row_payload view_payload candidate_payload short_payload health_payload payload
    text_or_null mode_text
list_payload detailed answer = obj (
    field "schema" (str manager_interface) (
      field "revision" (int (pos answer.revision))
        (field "providers" (arr (from_items (map (row_payload detailed) answer.rows))) end)))

provider_payload : Option CandidateView → Value
provider_payload none = null
provider_payload (some view) = candidate_payload view

-- `result` of `get_provider`
unfoldable pub detail_payload : ProviderDetail → Value
unfolding provider_payload candidate_payload health_payload payload text_or_null mode_text
detail_payload answer = obj (
    field "schema" (str manager_interface) (
      field "revision" (int (pos answer.revision)) (
        field "domain" (str answer.domain) (
          field "selection" (str (mode_text answer.selected.selection)) (
            field "preferred" (text_or_null answer.selected.preferred) (
              field "active" (text_or_null answer.selected.active)
                (field "provider" (provider_payload answer.provider) end)))))))
