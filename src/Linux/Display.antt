-- ===== src/Linux/Display.antt =====
-- What `DisplayBackend.set_state` of linux.py asks the window manager for.
pub mod Layouts
use msys_hal.Prelude.{
  String, Bool, true, false, not, ◌&&◌, Option, none, some, List, [], ◌∷◌, all, member, filter,
  is_empty, sort_texts, concat, ◌==◌, string_eq, if◌then◌else◌,
}
use msys_hal.Json.{
  Value, null, int, str, arr, obj, Fields, field, end, texts, keys, get_field, field_or,
}
use msys_hal.Json.Int.{ℤ, pos}
use msys_hal.Errors.{Result, ok, err, ◌>>=◌, ◌>>◌, require, validation_error, read_only_error}
use msys_hal.Validation.Payload.{device_id, integer}

abbrev pub profiles : List String
profiles = "mobile" ∷ "kiosk" ∷ "desktop" ∷ []

abbrev pub orientations : List String
orientations = "auto" ∷ "portrait" ∷ "landscape" ∷ []

abbrev pub physical_fields : List String
physical_fields = "rotation" ∷ "physical_rotation" ∷ "input_transform" ∷ []

abbrev pub layout_fields : List String
layout_fields = "profile" ∷ "mode" ∷ "orientation" ∷ "insets" ∷ []

abbrev pub sides : List String
sides = "top" ∷ "right" ∷ "bottom" ∷ "left" ∷ []

-- `isinstance(value, str) and value in allowed`
word_in : List String → String → Value → Result String
word_in allowed complaint (str s) = do
  require (member s allowed) (validation_error complaint end)
  ok s
word_in allowed complaint v = err (validation_error complaint end)

-- `changes.get("profile", changes.get("mode"))`, where `null` counts as no profile.
profile_of : Value → Result Fields
unfolding word_in
profile_of null = ok end
profile_of v = do
  profile ← word_in profiles "display profile must be mobile, kiosk or desktop" v
  ok (field "profile" (str profile) end)

orientation_of : Option Value → Result Fields
unfolding word_in
orientation_of none = ok end
orientation_of (some v) = do
  orientation ← word_in orientations "display orientation must be auto, portrait or landscape" v
  ok (field "orientation" (str orientation) end)

inset : Fields → String → Result ℤ
inset insets side =
    integer (field_or null side insets) (concat ("changes.insets." ∷ side ∷ [])) (pos 0) (pos 8192)

insets_of : Option Value → Result Fields
unfolding inset
insets_of none = ok end
insets_of (some (str s)) = do
  require (s == "auto")
      (validation_error "display insets must be auto or top/right/bottom/left integers" end)
  ok (field "insets" (str "auto") end)
insets_of (some (obj insets)) = do
  require (all (λ k. member k sides) (keys insets) && all (λ k. member k (keys insets)) sides)
      (validation_error "display insets must be auto or top/right/bottom/left integers" end)
  top ← inset insets "top"
  right ← inset insets "right"
  bottom ← inset insets "bottom"
  left ← inset insets "left"
  ok (
      field "insets"
        (obj (
          field "top" (int top) (
            field "right" (int right) (field "bottom" (int bottom) (field "left" (int left) end)))))
        end)
insets_of (some v) =
    err (validation_error "display insets must be auto or top/right/bottom/left integers" end)

pub append_fields : Fields → Fields → Fields
append_fields end gs = gs
append_fields (field k v fs) gs = field k v (append_fields fs gs)

abbrev pub is_end : Fields → Bool
is_end end = true
is_end (field k v fs) = false

-- `set_state` in front of the call: the payload of `set_layout`.
unfoldable pub layout_request : String → Fields → Result Fields
unfolding profile_of orientation_of insets_of append_fields
layout_request identifier changes = do
  parsed ← device_id (str identifier) "id"
  require (parsed == "display:primary") (validation_error "unknown display device" end)
  let physical = filter (λ k. member k (keys changes)) physical_fields
  require (is_empty physical) (
      read_only_error
        "physical display transforms are owned by the selected display-output provider"
        (field "id" (str identifier) (
          field "fields" (arr (texts (sort_texts physical)))
            (field "owner" (str "display-output") end))))
  require
      (all (λ k. member k layout_fields) (keys changes)
        && not (member "profile" (keys changes) && member "mode" (keys changes)))
      (validation_error "display changes accepts profile, orientation and insets" end)
  profile ← profile_of (field_or (field_or null "mode" changes) "profile" changes)
  orientation ← orientation_of (get_field "orientation" changes)
  insets ← insets_of (get_field "insets" changes)
  let payload = append_fields profile (append_fields orientation insets)
  require (not (is_end payload)) (validation_error "display changes is empty" end)
  ok payload
