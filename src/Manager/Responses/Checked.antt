-- ===== src/Manager/Responses/Checked.antt =====
-- What a provider's answer is sure of once it is normalised, and the codes of the errors.
use msys_hal.Prelude.{
  ◌≤◌, ◌≡◌, refl, ap, ◌∙◌, not, ◌&&◌, len, String, Bool, true, false, List, [], ◌∷◌, length, leb,
  leb→le, ◌==◌, string_eq, eq_iff, member, before,
}
use mathlib.Core.Path.{subst}
use msys_hal.Json.{
  Value, str, arr, obj, Items, nil, cons, null, bool, field_or, get_field, is_text, is_text-str,
  count_items, Fields, texts,
}
use msys_hal.Errors.{Exception, Result, ok, err, ◌>>=◌, >>=-eq-ok, require}
use msys_hal.Validation.Payload.{object_payload, domain, device_id, string_list, safe_scalar_map}
use msys_hal.Validation.Payload.Accepts.{
  Distinct, string_list_sound, object_payload_iff, device_id-domain, domain_sound,
  safe_scalar_map_sound,
}
use msys_hal.Manager.State.{Candidate}
use msys_hal.Manager.Responses.{
  Device, Inventory, normalize_device, name_text, flag, normalize_devices, device_list, single_row,
  status_text, reason_text, normalize_inventory, provider_interface,
}

-- A device of an answer for a domain, and what the provider has sent for it.
pub record IsDevice (requested_domain : String) (raw : Value) (d : Device) : Type 0 where
  pub item : Fields
  pub is_object : raw ≡ obj item
  pub id_sent : field_or null "id" item ≡ str d.id
  pub id_domain : before b':' d.id ≡ requested_domain
  pub domain_sent : field_or null "domain" item ≡ str requested_domain
  pub domain_kept : d.domain ≡ requested_domain
  pub name_sent : field_or null "name" item ≡ str d.name
  pub available_sent : field_or null "available" item ≡ bool d.available
  pub mutable_sent : field_or null "mutable" item ≡ arr (texts d.mutable_fields)
  pub metadata_sent : field_or null "metadata" item ≡ obj d.metadata
  pub few : length d.mutable_fields ≤ 32
  pub once : Distinct d.mutable_fields

-- The devices of an answer, in the order in which the provider has sent them.
abbrev pub AreDevices : String → Items → List Device → Type 0
AreDevices requested_domain nil [] = Unit
AreDevices requested_domain (cons raw rest) (d ∷ ds) =
    IsDevice requested_domain raw d × AreDevices requested_domain rest ds
AreDevices requested_domain raw ds = ⊥

complain-ok {ℓ} :
    {A : Type ℓ} (b : Bool) (e : Exception) (f : Unit {0} → Result A) {a : A}
    → (require b e >>= f) ≡ ok a
    → (b ≡ true) × (f tt ≡ ok a)
complain-ok true e f h = (refl, h)
complain-ok false e f h = cc

name_text_sound : (v : Value) (name : String) → name_text v ≡ ok name → v ≡ str name
unfolding name_text
name_text_sound (str x) name h =
    let (_, h1) = complain-ok (not (x == "") && leb (len x) 128) _ _ h in cc
name_text_sound _ name h = absurd cc

flag_sound : (complaint : String) (v : Value) (b : Bool) → flag complaint v ≡ ok b → v ≡ bool b
unfolding flag
flag_sound complaint (bool x) b h = cc
flag_sound complaint _ b h = absurd cc

normalize_device_sound :
    (raw : Value) (requested_domain : String) (d : Device)
    → normalize_device raw requested_domain ≡ ok d
    → IsDevice requested_domain raw d
unfolding normalize_device
normalize_device_sound raw requested_domain d h =
    let (item, shaped, h1) = >>=-eq-ok (object_payload raw _ _ _) _ h in
    let (identifier, named, h2) = >>=-eq-ok (device_id (field_or null "id" item) _) _ h1 in
    let (own, h3) = complain-ok (before b':' identifier == requested_domain) _ _ h2 in
    let (item_domain, placed, h4) = >>=-eq-ok (domain (field_or null "domain" item) _) _ h3 in
    let (right, h5) = complain-ok (item_domain == requested_domain) _ _ h4 in
    let (name, called, h6) = >>=-eq-ok (name_text (field_or null "name" item)) _ h5 in
    let (available, flagged, h7) = >>=-eq-ok (flag _ (field_or null "available" item)) _ h6 in
    let (mutable_fields, listed, h8) =
      >>=-eq-ok (string_list (field_or null "mutable" item) _ 32 64) _ h7 in
    let (metadata, described, h9) =
      >>=-eq-ok (safe_scalar_map (field_or null "metadata" item) _ 64) _ h8 in
    let (whole, few, _, once) =
      string_list_sound (field_or null "mutable" item) _ 32 64 mutable_fields listed in
    subst (λ r. elim r [ ok x ↦ IsDevice requested_domain raw x | err e ↦ Unit ]) h9
      (record {
        item = item;
        is_object = ((object_payload_iff raw _ _ _ item).0 shaped).is_dict;
        id_sent = (device_id-domain (field_or null "id" item) _ identifier named).0;
        id_domain = (eq_iff (before b':' identifier) requested_domain).0 own;
        domain_sent =
            domain_sound (field_or null "domain" item) _ item_domain placed
            ∙ ap str ((eq_iff item_domain requested_domain).0 right);
        domain_kept = refl;
        name_sent = name_text_sound (field_or null "name" item) name called;
        available_sent = flag_sound _ (field_or null "available" item) available flagged;
        mutable_sent = whole;
        metadata_sent =
            safe_scalar_map_sound (field_or null "metadata" item) _ 64 metadata described;
        few = few;
        once = once;
      })

normalize_devices_sound :
    (raw : Items) (requested_domain : String) (ds : List Device)
    → normalize_devices raw requested_domain ≡ ok ds
    → AreDevices requested_domain raw ds
unfolding normalize_devices
normalize_devices_sound nil requested_domain [] h = tt
normalize_devices_sound nil requested_domain (d ∷ ds) h = absurd cc
normalize_devices_sound (cons v rest) requested_domain ds h =
    let (d, first, h1) = >>=-eq-ok (normalize_device v requested_domain) _ h in
    let (ds', others, h2) = >>=-eq-ok (normalize_devices rest requested_domain) _ h1 in
    let same : (d ∷ ds') ≡ ds = cc in
    subst (AreDevices requested_domain (cons v rest)) same (
      normalize_device_sound v requested_domain d first,
      normalize_devices_sound rest requested_domain ds' others,
    )

-- The list of devices that the provider has sent, at most 256, and what becomes of it.
pub record AreListed (requested_domain : String) (v : Value) (ds : List Device) : Type 0 where
  pub items : Items
  pub is_list : v ≡ arr items
  pub few : count_items items ≤ 256
  pub devices : AreDevices requested_domain items ds

device_list_sound :
    (v : Value) (requested_domain : String) (ds : List Device)
    → device_list v requested_domain ≡ ok ds
    → AreListed requested_domain v ds
unfolding device_list
device_list_sound (arr raw) requested_domain ds h =
    let (few, h1) = complain-ok (leb (count_items raw) 256) _ _ h in
    record {
      items = raw;
      is_list = refl;
      few = leb→le (count_items raw) 256 few;
      devices = normalize_devices_sound raw requested_domain ds h1;
    }
device_list_sound _ requested_domain ds h = absurd cc

single_row_sound : (v row : Value) → single_row v ≡ ok row → v ≡ arr (cons row nil)
unfolding single_row
single_row_sound (arr (cons (obj fs) nil)) row h = let same : obj fs ≡ row = cc in rw same refl
single_row_sound _ row h = absurd cc

status_text_sound :
    (v : Value) (status : String)
    → status_text v ≡ ok status
    → (v ≡ str status) × (member status ("available" ∷ "unavailable" ∷ "degraded" ∷ []) ≡ true)
unfolding status_text
status_text_sound (str x) status h =
    let (known, h1) =
      complain-ok (member x ("available" ∷ "unavailable" ∷ "degraded" ∷ [])) _ _ h in
    let same : x ≡ status = cc in
    subst (λ s. (str x ≡ str s) × (member s ("available" ∷ "unavailable" ∷ "degraded" ∷ []) ≡ true))
      same (refl, known)
status_text_sound _ status h = absurd cc

-- An inventory for a domain, and the answer of the provider `component` that it stands for.
pub record IsInventory (requested_domain component : String) (raw : Value) (i : Inventory)
    : Type 0 where
  pub answer : Fields
  pub is_object : raw ≡ obj answer
  pub schema_sent : field_or null "schema" answer ≡ str provider_interface
  pub provider_sent : field_or null "provider" answer ≡ str component
  pub row : Fields
  pub one_row : field_or null "domains" answer ≡ arr (cons (obj row) nil)
  pub domain_sent : field_or null "domain" row ≡ str requested_domain
  pub domain_kept : i.row.domain ≡ requested_domain
  pub status_sent : field_or null "status" row ≡ str i.row.status
  pub status_known : member i.row.status ("available" ∷ "unavailable" ∷ "degraded" ∷ []) ≡ true
  pub listed : AreListed requested_domain (field_or null "devices" answer) i.devices

abbrev HoldsInventory : String → String → Value → Result Inventory → Type 0
HoldsInventory requested_domain component raw (ok i) = IsInventory requested_domain component raw i
HoldsInventory requested_domain component raw (err e) = Unit

-- A provider can answer for itself and the requested domain alone. An inventory that
-- `_normalize_inventory` returns comes from an answer with the provider schema and the candidate's
-- component, and with one row: of the requested domain, with one of the three statuses, which is the
-- inventory's. The answer's devices are at most 256, and the inventory has them in their order: each
-- was sent as a device of the requested domain, by its field and by its id, and keeps its id, name,
-- availability, metadata and mutable fields, of which there are at most 32, no two of them equal.
pub normalize_inventory_sound :
    (raw : Value) (requested_domain : String) (c : Candidate) (i : Inventory)
    → normalize_inventory raw requested_domain c ≡ ok i
    → IsInventory requested_domain c.component raw i
unfolding normalize_inventory
normalize_inventory_sound raw requested_domain c i h =
    let (result, shaped, h1) = >>=-eq-ok (object_payload raw _ _ _) _ h in
    let (schema, h2) =
      complain-ok (is_text provider_interface (field_or null "schema" result)) _ _ h1 in
    let (provider, h3) =
      complain-ok (is_text c.component (field_or null "provider" result)) _ _ h2 in
    let (raw_domain, single, h4) = >>=-eq-ok (single_row (field_or null "domains" result)) _ h3 in
    let (row, formed, h5) = >>=-eq-ok (object_payload raw_domain _ _ _) _ h4 in
    let (row_domain, placed, h6) = >>=-eq-ok (domain (field_or null "domain" row) _) _ h5 in
    let (right, h7) = complain-ok (row_domain == requested_domain) _ _ h6 in
    let (status, known, h8) = >>=-eq-ok (status_text (field_or null "status" row)) _ h7 in
    let (reason, _, h9) = >>=-eq-ok (reason_text (get_field "reason" row)) _ h8 in
    let (devices, listed, h10) =
      >>=-eq-ok (device_list (field_or null "devices" result) requested_domain) _ h9 in
    let (sent, valid) = status_text_sound (field_or null "status" row) status known in
    let held : IsInventory requested_domain c.component raw (record {
      row = record { domain = requested_domain; status = status; reason = reason };
      devices = devices;
    }) =
      record {
        answer = result;
        is_object = ((object_payload_iff raw _ _ _ result).0 shaped).is_dict;
        schema_sent = is_text-str _ _ schema;
        provider_sent = is_text-str _ _ provider;
        row = row;
        one_row =
            single_row_sound (field_or null "domains" result) raw_domain single
            ∙ ap (λ r. arr (cons r nil))
                ((object_payload_iff raw_domain _ _ _ row).0 formed).is_dict;
        domain_sent =
            domain_sound (field_or null "domain" row) _ row_domain placed
            ∙ ap str ((eq_iff row_domain requested_domain).0 right);
        domain_kept = refl;
        status_sent = sent;
        status_known = valid;
        listed = device_list_sound (field_or null "devices" result) requested_domain devices listed;
      } in
    subst (HoldsInventory requested_domain c.component raw) h10 held
