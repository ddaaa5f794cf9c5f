-- ===== src/Manager/Inventory/Routes.antt =====
-- `inventory` leaves a route for every device that it lists.
use msys_hal.Prelude.{
  ◌≡◌, refl, sym, ap, ◌∙◌, String, Bool, false, Option, none, some, List, [], ◌∷◌, ◌++◌, All, ◌==◌,
  string_eq, eq_iff, Bool-cases, inl, inr, Option-cases, arith,
}
use mathlib.Core.Path.{subst, subst₂}
use msys_hal.Prelude.Dict.{Dict, get, put, get-put}
use msys_hal.Errors.{Result, ok, err}
use msys_hal.Manager.State.{Candidate, Env, State}
use msys_hal.Manager.Exec.{acquire, >>=-eq-ok}
use msys_hal.Manager.Responses.{Device}
use msys_hal.Manager.Catalog.{SelectionMode, refresh_catalog, ordered_for}
use msys_hal.Manager.Inventory.{
  ListedDevice, InventoryAnswer, Collected, nothing_collected, Choice, chosen, nobody, add_devices,
  collect_domain, no_provider, try_candidates, collect_ordered, collect_domains, or_all, inventory,
}

-- The device is routed to the provider that it is listed with.
abbrev pub IsRouted : Dict String Candidate → ListedDevice → Type 0
IsRouted routes l = (c : Candidate) × (get l.device.id routes ≡ some c) × (c.component ≡ l.provider)

abbrev Apart : ListedDevice → List ListedDevice → Type 0
Apart l ls = All (λ k. (k.device.id == l.device.id) ≡ false) ls

-- No id is listed twice.
abbrev pub Distinct : List ListedDevice → Type 0
Distinct [] = Unit
Distinct (l ∷ ls) = Apart l ls × Distinct ls

-- Each listed device is routed, and no id is listed twice.
pub record AreRouted (routes : Dict String Candidate) (ls : List ListedDevice) : Type 0 where
  pub routed : All (IsRouted routes) ls
  pub distinct : Distinct ls

All-snoc {ℓ} :
    {A : Type ℓ} (P : A → Type 0) (xs : List A) (x : A) → All P xs → P x → All P (xs ++ x ∷ [])
All-snoc P [] x h p = (p, tt)
All-snoc P (y ∷ ys) x (q, h) p = (q, All-snoc P ys x h p)

Distinct-snoc :
    (ls : List ListedDevice) (l : ListedDevice) → Distinct ls → Apart l ls → Distinct (ls ++ l ∷ [])
Distinct-snoc [] l d a = (tt, tt)
Distinct-snoc (k ∷ ks) l (apart, d) (other, a) = (
  All-snoc _ ks l apart
      (ground (arith, eq_iff k.device.id l.device.id, eq_iff l.device.id k.device.id)),
  Distinct-snoc ks l d a,
)

-- A device without a route is none of the listed ones.
routed-Apart :
    (routes : Dict String Candidate) (l : ListedDevice) (ls : List ListedDevice)
    → get l.device.id routes ≡ none
    → All (IsRouted routes) ls
    → Apart l ls
routed-Apart routes l [] free h = tt
routed-Apart routes l (k ∷ ks) free ((c, found, same), h) = (
  elim (Bool-cases (k.device.id == l.device.id)) [
    | inl e ↦
        let clash =
          sym found ∙ ap (λ i. get i routes) ((eq_iff k.device.id l.device.id).0 e) ∙ free in
        cc
    | inr e ↦ e
  ],
  routed-Apart routes l ks free h,
)

-- A route for another device changes nothing.
IsRouted-put :
    (routes : Dict String Candidate) (l : ListedDevice) (c : Candidate) (ls : List ListedDevice)
    → Apart l ls
    → All (IsRouted routes) ls
    → All (IsRouted (put l.device.id c routes)) ls
IsRouted-put routes l c [] apart h = tt
IsRouted-put routes l c (k ∷ ks) (other, apart) ((d, found, same), h) = (
  (
    d,
    ground (
      arith,
      get-put l.device.id k.device.id c routes,
      eq_iff l.device.id k.device.id,
      eq_iff k.device.id l.device.id,
    ),
    same,
  ),
  IsRouted-put routes l c ks apart h,
)

add_device-AreRouted :
    (provider : Candidate) (d : Device) (routes : Dict String Candidate) (ls : List ListedDevice)
    → get d.id routes ≡ none
    → AreRouted routes ls
    → AreRouted
        (put d.id provider routes)
        (ls ++ record { device = d; provider = provider.component } ∷ [])
add_device-AreRouted provider d routes ls free h =
    let l : ListedDevice = record { device = d; provider = provider.component } in
    let apart = routed-Apart routes l ls free h.routed in
    record {
      routed =
          All-snoc (IsRouted (put d.id provider routes)) ls l
            (IsRouted-put routes l provider ls apart h.routed)
            (provider, ground (arith, get-put d.id d.id provider routes, eq_iff d.id d.id), refl);
      distinct = Distinct-snoc ls l h.distinct apart;
    }

add_devices-AreRouted :
    (provider : Candidate) (ds : List Device) (c : Collected)
    → AreRouted c.routes c.devices
    → AreRouted (add_devices provider ds c).routes (add_devices provider ds c).devices
unfolding add_devices
add_devices-AreRouted provider [] c h = h
add_devices-AreRouted provider (d ∷ ds) c h = elim (Option-cases (get d.id c.routes)) [
  | inl free ↦
      rw (free, add_devices)
        (add_devices-AreRouted provider ds _
          (add_device-AreRouted provider d c.routes c.devices free h))
  | inr (_, taken) ↦ rw (taken, add_devices) (add_devices-AreRouted provider ds c h)
]

abbrev HasRoutes : Collected → Type 0
HasRoutes c = AreRouted c.routes c.devices

collect_domain-AreRouted :
    (domain : String) (mode : SelectionMode) (first : Candidate) (choice : Choice) (c : Collected)
    → AreRouted c.routes c.devices
    → AreRouted
        (collect_domain domain mode first choice c).routes
        (collect_domain domain mode first choice c).devices
unfolding collect_domain
collect_domain-AreRouted domain mode first (chosen inventory provider) c h =
    add_devices-AreRouted provider inventory.devices _
      (record { routed = h.routed; distinct = h.distinct })
collect_domain-AreRouted domain mode first (nobody errors) c h = record {
  routed = h.routed;
  distinct = h.distinct;
}

collect_ordered-AreRouted :
    (domain : String) (ordered : List Candidate) (mode : SelectionMode) (c : Collected) (env : Env)
    (s t : State) (r : Collected)
    → collect_ordered domain ordered mode c env s ≡ (ok r, t)
    → AreRouted c.routes c.devices
    → AreRouted r.routes r.devices
unfolding collect_ordered
collect_ordered-AreRouted domain [] mode c env s t r e h =
    let same : no_provider domain mode c ≡ r = cc in
    subst HasRoutes same (record { routed = h.routed; distinct = h.distinct })
collect_ordered-AreRouted domain (first ∷ rest) mode c env s t r e h =
    let (choice, tried, more) = >>=-eq-ok (try_candidates mode domain none [] (first ∷ rest)) _ e in
    let same : collect_domain domain mode first choice c ≡ r = cc in
    subst HasRoutes same (collect_domain-AreRouted domain mode first choice c h)

collect_domains-AreRouted :
    (domains : List String) (c : Collected) (env : Env) (s t : State) (r : Collected)
    → collect_domains domains c env s ≡ (ok r, t)
    → AreRouted c.routes c.devices
    → AreRouted r.routes r.devices
unfolding collect_domains
collect_domains-AreRouted [] c env s t r e h = let same : c ≡ r = cc in subst HasRoutes same h
collect_domains-AreRouted (domain ∷ rest) c env s t r e h =
    let (found, ordered_ok, e1) = >>=-eq-ok (ordered_for domain false) _ e in
    let (c', collected, e2) = >>=-eq-ok (collect_ordered domain found.0 found.1 c) _ e1 in
    collect_domains-AreRouted rest c' env _ t r e2
      (collect_ordered-AreRouted domain found.0 found.1 c env _ _ c' collected h)

abbrev answered : Result InventoryAnswer → List ListedDevice
answered (ok r) = r.devices
answered (err e) = []

-- `inventory` leaves a route for every device that it lists: when it returns, no device id is listed
-- twice, and the routes lead from each listed id to a candidate of the component that is listed as
-- its provider.
pub inventory-AreRouted :
    (domains : Option (List String)) (refresh : Bool) (env : Env) (s t : State)
    (r : InventoryAnswer)
    → inventory domains refresh env s ≡ (ok r, t)
    → AreRouted t.shared.device_routes r.devices
unfolding inventory acquire
inventory-AreRouted domains refresh env s t r e =
    let (candidates, refreshed, e1) = >>=-eq-ok (refresh_catalog refresh) _ e in
    let (c, collected, e2) =
      >>=-eq-ok (collect_domains (or_all domains candidates) nothing_collected) _ e1 in
    let h =
      collect_domains-AreRouted (or_all domains candidates) nothing_collected env _ _ c collected
        (record { routed = tt; distinct = tt }) in
    let listed : c.devices ≡ r.devices = ap (λ x. answered x.0) e2 in
    let led : c.routes ≡ t.shared.device_routes = ap (λ x. x.1.shared.device_routes) e2 in
    subst₂ AreRouted led listed h
