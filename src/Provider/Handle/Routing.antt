-- ===== src/Provider/Handle/Routing.antt =====
-- Where `handle` of the provider may change the state.
use msys_hal.Prelude.{
  ◌≡◌, refl, ◌∙◌, ◌⊎◌, inl, inr, String, some, List, [], ◌∷◌, All, before, ◌==◌, string_eq, eq_iff,
  Bool-cases, Option-cases,
}
use msys_hal.Prelude.Dict.{Dict, get}
use mathlib.Core.Path.{subst}
use msys_hal.Json.{Value, obj, Fields, field_or, null, get_field}
use msys_hal.Errors.{ok}
use msys_hal.Action.{pure, continue-ends}
use msys_hal.Validation.Payload.{object_payload, device_id, changes}
use msys_hal.Validation.Payload.Accepts.{object_payload_iff}
use msys_hal.Provider.{Backend, Service}
use msys_hal.Provider.Handle.{
  handle, backend_for, inventories_of, selected_of, inventory_answer, describe, inventory,
  get_state, set_state,
}

-- A backend that reads without changing the state.
pub record Reads {S : Type 0} (b : Backend S) : Type 0 where
  pub inventory_keeps : (s : S) → (b.inventory s).1 ≡ s
  pub get_state_keeps : (identifier : String) (s : S) → (b.get_state identifier s).1 ≡ s

abbrev pub AllRead : {S : Type 0} → Dict String (Backend S) → Type 0
AllRead backends = All (λ e. Reads e.1) backends

get-Reads :
    {S : Type 0} (backends : Dict String (Backend S)) (d : String) (b : Backend S)
    → AllRead backends
    → get d backends ≡ some b
    → Reads b
get-Reads [] d b h e = absurd cc
get-Reads ((key, c) ∷ rest) d b h e = elim (Bool-cases (key == d)) [
  | inl here ↦ let same : c ≡ b = (let l = rw here at e in cc) in subst Reads same h.0
  | inr there ↦ get-Reads rest d b h.1 (rw there at e)
]

-- The state that a request for a change ends in.
pub record IsChange {S : Type 0} (service : Service S) (payload : Fields) (s s' : S) : Type 0 where
  pub identifier : String
  pub read_id : device_id (field_or null "id" payload) "id" ≡ ok identifier
  pub requested : Fields
  pub read_changes : changes (field_or null "changes" payload) ≡ ok requested
  pub backend : Backend S
  pub served : get (before b':' identifier) service.backends ≡ some backend
  pub changed : s' ≡ (backend.set_state identifier requested s).1

module _ {S : Type 0} (repr : String → String) (service : Service S)
    (reads : AllRead service.backends) where
  inventories_of-keeps : (ds : List String) (s : S) → (inventories_of repr service ds s).1 ≡ s
  unfolding inventories_of
  inventories_of-keeps [] s = refl
  inventories_of-keeps (d ∷ rest) s = elim (Option-cases (get d service.backends)) [
    | inl missing ↦ rw (missing, inventories_of) refl
    | inr (b, there) ↦
        let kept = (get-Reads service.backends d b reads there).inventory_keeps s in
        let after = inventories_of-keeps rest (b.inventory s).1 ∙ kept in
        rw (there, inventories_of)
          (continue-ends (λ x. x ≡ s) (b.inventory s).0 _ _ kept
            λ fs e.
              continue-ends {B = List Fields} (λ x. x ≡ s)
                (inventories_of repr service rest (b.inventory s).1).0
                (λ others. pure (fs ∷ others)) _ after λ others e2. after)
  ]

  inventory-keeps : (payload : Fields) (s : S) → (inventory repr service payload s).1 ≡ s
  unfolding inventory
  inventory-keeps payload s =
      continue-ends (λ x. x ≡ s) (object_payload (obj payload) ("domains" ∷ []) [] "payload") _ s
        refl
        λ request e.
          continue-ends (λ x. x ≡ s) (selected_of repr service (get_field "domains" request)) _ s
            refl
            λ selected e2.
              let kept = inventories_of-keeps selected s in
              continue-ends {B = Value} (λ x. x ≡ s) (inventories_of repr service selected s).0
                (λ inventories. pure (inventory_answer repr service inventories)) _ kept
                λ inventories e3. kept

  describe-keeps : (payload : Fields) (s : S) → (describe repr service payload s).1 ≡ s
  unfolding describe
  describe-keeps payload s =
      continue-ends (λ x. x ≡ s) (object_payload (obj payload) [] [] "payload") _ s refl
        λ request e. refl

  backend_for-get :
      (identifier : String) (b : Backend S)
      → backend_for repr service identifier ≡ ok b
      → get (before b':' identifier) service.backends ≡ some b
  unfolding backend_for
  backend_for-get identifier b e =
      elim (Option-cases (get (before b':' identifier) service.backends)) [
        | inl missing ↦ absurd (let l = rw (missing, backend_for) at e in cc)
        | inr (c, there) ↦ let l : ok c ≡ ok b = rw (there, backend_for) at e in there ∙ cc
      ]

  get_state-keeps : (payload : Fields) (s : S) → (get_state repr service payload s).1 ≡ s
  unfolding get_state
  get_state-keeps payload s =
      continue-ends (λ x. x ≡ s) (object_payload (obj payload) ("id" ∷ []) ("id" ∷ []) "payload") _
        s refl
        λ request e.
          continue-ends (λ x. x ≡ s) (device_id (field_or null "id" request) "id") _ s refl
            λ identifier e2.
              continue-ends (λ x. x ≡ s) (backend_for repr service identifier) _ s refl
                λ b e3.
                  let kept =
                    (get-Reads service.backends _ b reads
                        (backend_for-get identifier b e3)).get_state_keeps
                      identifier s in
                  continue-ends (λ x. x ≡ s) (b.get_state identifier s).0 _ _ kept λ state e4. kept

  set_state-IsChange :
      (payload : Fields) (s : S)
      → ((set_state repr service payload s).1 ≡ s)
        ⊎ IsChange service payload s (set_state repr service payload s).1
  unfolding set_state
  set_state-IsChange payload s =
      let P : S → Type 0 = λ x. (x ≡ s) ⊎ IsChange service payload s x in
      continue-ends P
        (object_payload (obj payload) ("id" ∷ "changes" ∷ []) ("id" ∷ "changes" ∷ []) "payload") _ s
        (inl refl)
        λ request e.
          continue-ends P (device_id (field_or null "id" request) "id") _ s (inl refl)
            λ identifier e2.
              continue-ends P (changes (field_or null "changes" request)) _ s (inl refl)
                λ requested e3.
                  continue-ends P (backend_for repr service identifier) _ s (inl refl) λ b e4.
                    let same : obj payload ≡ obj request =
                      ((object_payload_iff (obj payload) ("id" ∷ "changes" ∷ [])
                          ("id" ∷ "changes" ∷ []) "payload" request).0
                        e).is_dict in
                    let told : request ≡ payload = cc in
                    let change : IsChange service payload s (b.set_state identifier requested s).1 =
                      record {
                        identifier = identifier;
                        read_id =
                            subst (λ r. device_id (field_or null "id" r) "id" ≡ ok identifier) told
                              e2;
                        requested = requested;
                        read_changes =
                            subst (λ r. changes (field_or null "changes" r) ≡ ok requested) told e3;
                        backend = b;
                        served = backend_for-get identifier b e4;
                        changed = refl;
                      } in
                    continue-ends P (b.set_state identifier requested s).0 _ _ (inr change)
                      λ state e5. inr change

  -- Requests reach one backend: if no backend changes the state when it is read, then whatever method
  -- is called with whatever payload, and however the call ends, the state is left alone, or the method
  -- is `set_state` and the state is what one `set_state` of the backend of the device's domain leaves,
  -- called with the payload's `id` and `changes`, both checked.
  pub handle-IsChange :
      (method : String) (payload : Fields) (s : S)
      → ((handle repr service method payload s).1 ≡ s)
        ⊎ ((method ≡ "set_state")
            × IsChange service payload s (handle repr service method payload s).1)
  unfolding handle
  handle-IsChange method payload s = elim (Bool-cases (method == "describe")) [
    | inl one ↦ inl (rw (one, handle) (describe-keeps payload s))
    | inr not1 ↦ elim (Bool-cases (method == "inventory")) [
      | inl two ↦ inl (rw (not1, two, handle) (inventory-keeps payload s))
      | inr not2 ↦ elim (Bool-cases (method == "get_state")) [
        | inl three ↦ inl (rw (not1, not2, three, handle) (get_state-keeps payload s))
        | inr not3 ↦ elim (Bool-cases (method == "set_state")) [
          | inr not4 ↦ inl (rw (not1, not2, not3, not4, handle) refl)
          | inl four ↦
              let name : method ≡ "set_state" = (eq_iff method "set_state").0 four in
              elim (set_state-IsChange payload s) [
                | inl kept ↦ inl (rw (not1, not2, not3, four, handle) kept)
                | inr change ↦ inr (name, rw (not1, not2, not3, four, handle) change)
              ]
        ]
      ]
    ]
  ]
