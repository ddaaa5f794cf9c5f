-- ===== src/SelectionStore.antt =====
-- `SelectionStore` of manager.py: the file of preferred providers, by the system calls of `save`.
pub mod Atomic
pub mod Restart
use msys_hal.Prelude.{
  ℕ, ◌+◌, ◌*◌, String, Bool, true, false, ◌&&◌, not, Option, none, some, List, [], ◌∷◌, leb, ltb,
  if◌then◌else◌, text_le, ◌==◌, string_eq,
}
use msys_hal.Prelude.Dict.{Dict, put}
use msys_hal.Json.{Value, str, obj, Fields, end, field, get_field, is_text, count_fields}
use msys_hal.Errors.{Exception, python, Result, ok, err}
use msys_hal.Validation.Bounded.{default_limits, ensure_bounded_json, text_size}
use msys_hal.Validation.Patterns.{domain_re, component_re}

-- A file: its size, and the document that its bytes encode, if they are UTF-8 and JSON.
pub record File : Type 0 where
  pub bytes : ℕ
  pub document : Option Value

-- The preference file, and the temporary files beside it that a failed `save` may leave.
pub record Disk : Type 0 where
  pub current : Option File
  pub temporary : Option File

-- The calls of `save` that may raise an `OSError`.
pub data Step : Type 0 where
  make_directory create_temporary change_mode write_data flush_data sync_file replace_file : Step
  sync_directory unlink_temporary : Step

schema_name : String
schema_name = "msys.hal.selection.v1"

-- One entry of the loop of `load`.
load_entry : Dict String String → String → Value → Dict String String
load_entry result raw_domain (str raw_component) =
    if domain_re raw_domain && component_re raw_component
    then put raw_domain raw_component result
    else result
load_entry result raw_domain raw_component = result

load_entries : Dict String String → Fields → Dict String String
load_entries result end = result
load_entries result (field k v rest) = load_entries (load_entry result k v) rest

load_selections : Option Value → Dict String String
load_selections (some (obj selections)) =
    if ltb 64 (count_fields selections) then [] else load_entries [] selections
load_selections other = []

load_document : Option Value → Dict String String
unfolding schema_name
load_document (some (obj fs)) = elim (get_field "schema" fs) [
  | none ↦ []
  | some schema ↦
      if is_text schema_name schema then load_selections (get_field "selections" fs) else []
]
load_document other = []

-- `load`: whatever is missing, too large or malformed counts as no preference. A file that cannot
-- be read is `none` here.
unfoldable pub load : Option File → Dict String String
unfolding load_document load_selections load_entries load_entry
load none = []
load (some file) = if ltb (64 * 1024) file.bytes then [] else load_document file.document

-- `dict(sorted(selections.items()))`
insert_entry : String → String → Fields → Fields
insert_entry k v end = field k (str v) end
insert_entry k v (field j w rest) =
    if text_le k j then field k (str v) (field j w rest) else field j w (insert_entry k v rest)

sorted_fields : Dict String String → Fields
unfolding insert_entry
sorted_fields [] = end
sorted_fields ((k, v) ∷ rest) = insert_entry k v (sorted_fields rest)

unfoldable pub selection_payload : Dict String String → Value
unfolding sorted_fields schema_name
selection_payload selections =
    obj (field "schema" (str schema_name) (field "selections" (obj (sorted_fields selections)) end))

-- The file that holds a document: its JSON text and a line feed.
unfoldable pub file_of : Value → File
file_of v = record { bytes = elim (text_size v) [ none ↦ 1 | some n ↦ n + 1 ]; document = some v }

-- Actions on the disk; the first argument says which system calls raise an `OSError`, and its class.
abbrev pub Io : Type 0
Io = (Step → Option String) → Disk → Result (Unit {0}) × Disk

infixr 5 ◌>>◌
◌>>◌ : Io → Io → Io
◌>>◌ m n fails disk =
    let (outcome, disk') = m fails disk in
    elim outcome [ err e ↦ (err e, disk') | ok u ↦ n fails disk' ]

-- A system call and what it does to the files when it does not raise.
system : Step → (Disk → Disk) → Io
system step effect fails disk = elim (fails step) [
  | none ↦ (ok tt, effect disk)
  | some name ↦ (err (python name ""), disk)
]

-- `try: ... except OSError: pass`
passed : Io → Io
passed m fails disk = (ok tt, (m fails disk).1)

-- The body of the `try` behind the creation of the temporary file.
write_steps : Value → Io
write_steps payload =
    system change_mode (λ d. d)
    >> system write_data (λ d. record d { temporary = some (file_of payload) })
    >> system flush_data (λ d. d)
    >> system sync_file (λ d. d)
    >> system replace_file (λ d. record { current = d.temporary; temporary = none })
    >> passed (system sync_directory (λ d. d))

-- The `finally` clause: `os.unlink` of the temporary name, also behind `os.replace`. That it finds no
-- file is passed; any other failure takes the place of the outcome.
cleanup : (Step → Option String) → Result (Unit {0}) → Disk → Result (Unit {0}) × Disk
cleanup fails outcome disk = elim (fails unlink_temporary) [
  | none ↦ (outcome, record disk { temporary = none })
  | some name ↦
      if name == "FileNotFoundError" then (outcome, disk) else (err (python name ""), disk)
]

with_cleanup : Io → Io
with_cleanup m fails disk = let (outcome, disk') = m fails disk in cleanup fails outcome disk'

write_file : Value → Io
write_file payload =
    system make_directory (λ d. d)
    >> system create_temporary
        (λ d. record d { temporary = some (record { bytes = 0; document = none }) })
    >> with_cleanup (write_steps payload)

-- `save`
unfoldable pub save : Dict String String → Io
unfolding write_file write_steps with_cleanup cleanup file_of system passed ◌>>◌
save selections fails disk =
    let payload = selection_payload selections in
    elim (ensure_bounded_json (default_limits "HAL provider selection") payload) [
      | err e ↦ (err e, disk)
      | ok u ↦ write_file payload fails disk
    ]
