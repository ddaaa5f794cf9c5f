-- ===== src/Tests/Values.antt =====
-- Values and files on which the theorems of validation and storage are used.
use msys_hal.Prelude.{
  ℕ, zero, suc, ◌≡◌, refl, ◌↔◌, ◌⊎◌, String, Option, none, some, List, [], ◌∷◌, arith, decimal,
  concat, string_eq, ◌==◌, false,
}
use msys_hal.Prelude.Dict.{Dict, get}
use msys_hal.Json.{Value, int, str, obj, Fields, field, end}
use msys_hal.Errors.{Exception, Result, ok, err}
use msys_hal.Validation.Bounded.{default_limits, ensure_bounded_json}
use msys_hal.Validation.Bounded.Walk.{IsBounded, ensure_bounded_json_iff}
use msys_hal.Validation.Patterns.{domain_re, component_re, device_id_re}
use msys_hal.Validation.Payload.{object_payload, string_list, device_id, domain, safe_scalar_map}
use msys_hal.Validation.Payload.Accepts.{IsPayload, object_payload_iff}
use msys_hal.SelectionStore.{
  File, Disk, Step, unlink_temporary, save, load, file_of, selection_payload,
}
use msys_hal.SelectionStore.Atomic.{save_atomic}
use msys_hal.SelectionStore.Restart.{load-selection_payload, load-save_overfull}
use msys_hal.Manager.Responses.{Inventory, normalize_inventory, normalize_device}
use msys_hal.Manager.Responses.Checked.{IsInventory, normalize_inventory_sound}
use msys_hal.Json.Int.{pos}
use msys_hal.Tests.World.{panel, listed}

abbrev preferences : Dict String String
preferences = ("backlight", "org.msys.hal.linux:main") ∷ []

abbrev empty_disk : Disk
empty_disk = record { current = none; temporary = none }

-- A file system that turns read-only behind `os.replace`.
abbrev frozen : Step → Option String
frozen unlink_temporary = some "OSError"
frozen step = none

save_atomic_example :
    let r = save preferences frozen empty_disk in
    ((r.0 ≡ ok tt)
      × ((r.1.current ≡ some (file_of (selection_payload preferences))) × (r.1.temporary ≡ none)))
    ⊎ ((e : Exception) × (r.0 ≡ err e)
        × (((r.1.current ≡ none)
              × ((r.1.temporary ≡ none)
                  ⊎ ((name : String) × (frozen unlink_temporary ≡ some name))))
            ⊎ (((r.1.current ≡ some (file_of (selection_payload preferences)))
                  × (r.1.temporary ≡ none))
                × (name : String) × (frozen unlink_temporary ≡ some name)
                × ((name == "FileNotFoundError") ≡ false))))
save_atomic_example = save_atomic frozen preferences empty_disk refl

abbrev preference_file : File
preference_file = record { bytes = 100; document = some (selection_payload preferences) }

load-selection_payload_example :
    get "backlight" (load (some preference_file)) ≡ get "backlight" preferences
unfolding domain_re component_re
load-selection_payload_example =
    load-selection_payload preferences preference_file "backlight" refl (omega arith) (omega arith)
      (refl, tt) (refl, tt)

-- `n` selections, of the domains `d0`, `d1`, ...
abbrev many : ℕ → Dict String String
many zero = []
many (suc n) = (concat ("d" ∷ decimal n ∷ []), "org.msys.hal.linux:main") ∷ many n

abbrev quiet : Step → Option String
quiet step = none

load-save_overfull_example : load (save (many 65) quiet empty_disk).1.current ≡ []
unfolding save selection_payload ensure_bounded_json decimal
load-save_overfull_example = load-save_overfull quiet (many 65) empty_disk refl (omega arith) refl

ensure_bounded_json_iff_example :
    (ensure_bounded_json (default_limits "inventory") (obj listed) ≡ ok tt)
    ↔ IsBounded (default_limits "inventory") (obj listed)
ensure_bounded_json_iff_example = ensure_bounded_json_iff (default_limits "inventory") (obj listed)

abbrev request : Fields
request = field "domain" (str "backlight") end

object_payload_iff_example :
    (object_payload (obj request) ("domain" ∷ "component" ∷ []) ("domain" ∷ []) "request"
      ≡ ok request)
    ↔ IsPayload (obj request) ("domain" ∷ "component" ∷ []) ("domain" ∷ []) "request" request
object_payload_iff_example =
    object_payload_iff (obj request) ("domain" ∷ "component" ∷ []) ("domain" ∷ []) "request" request

abbrev two_fields : List String
two_fields = "percent" ∷ "power" ∷ []

abbrev listed_inventory : Result Inventory → Inventory
listed_inventory (ok i) = i
listed_inventory (err e) = record {
  row = record { domain = ""; status = ""; reason = none };
  devices = [];
}

normalize_inventory_sound_example :
    IsInventory "backlight" panel.component
      (obj listed)
      (listed_inventory (normalize_inventory (obj listed) "backlight" panel))
unfolding normalize_inventory object_payload domain normalize_device device_id device_id_re
    string_list safe_scalar_map ensure_bounded_json domain_re
normalize_inventory_sound_example =
    normalize_inventory_sound (obj listed) "backlight" panel
      (listed_inventory (normalize_inventory (obj listed) "backlight" panel)) refl

abbrev choice : Value
choice = obj (
    field "domain" (str "backlight") (
      field "component" (str "org.msys.hal.linux:main")
        (field "expected_revision" (int (pos 3)) end)))
