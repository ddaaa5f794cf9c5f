-- ===== src/Provider/Classes.antt =====
-- The provider over the sysfs classes: `ProviderService` with the power, thermal and backlight
-- backends of `linux_backends` in linux.py.
use msys_hal.Prelude.{
  ◌≡◌, refl, ◌⊎◌, inl, inr, ◌∙◌, String, some, [], ◌∷◌, All, ◌==◌, string_eq, Bool-cases, sym,
}
use msys_hal.Prelude.Dict.{Dict, get}
use mathlib.Core.Path.{subst}
use msys_hal.Json.{Fields, field_or, null}
use msys_hal.Errors.{ok}
use msys_hal.Validation.Payload.{device_id}
use msys_hal.Action.{gets, lift}
use msys_hal.Linux.{Sysfs}
use msys_hal.Linux.Power
use msys_hal.Linux.Thermal
use msys_hal.Linux.Attribute.{Platform}
use msys_hal.Linux.Backlight
use msys_hal.Linux.Backlight.Writes.{IsWrite, set_state-IsWrite}
use msys_hal.Provider.{Backend, Service}
use msys_hal.Provider.Handle.{handle}
use msys_hal.Provider.Handle.Routing.{Reads, AllRead, handle-IsChange}

-- The directories, which the environment may name.
pub record Roots : Type 0 where
  pub power_root : String
  pub thermal_root : String
  pub backlight_root : String

module _ (p : Platform) (roots : Roots) where
  abbrev pub power : Backend Sysfs
  power = record {
    domain = "power";
    inventory = gets (Power.inventory p.decode p.repr roots.power_root);
    get_state = λ identifier s. (Power.get_state p.decode p.repr roots.power_root identifier s, s);
    set_state = λ identifier changes.
        lift (Power.set_state p.decode p.repr roots.power_root identifier changes);
  }

  abbrev pub thermal : Backend Sysfs
  thermal = record {
    domain = "thermal";
    inventory = gets (Thermal.inventory p.decode p.repr roots.thermal_root);
    get_state =
        λ identifier s. (Thermal.get_state p.decode p.repr roots.thermal_root identifier s, s);
    set_state = λ identifier changes.
        lift (Thermal.set_state p.decode p.repr roots.thermal_root identifier changes);
  }

  abbrev pub backlight : Backend Sysfs
  backlight = record {
    domain = "backlight";
    inventory = gets (Backlight.inventory p roots.backlight_root);
    get_state = λ identifier s. (Backlight.get_state p roots.backlight_root identifier s, s);
    set_state = Backlight.set_state p roots.backlight_root;
  }

  -- The backends of the three classes.
  pub data IsClass : Backend Sysfs → Type 0 where
    is_power : IsClass power
    is_thermal : IsClass thermal
    is_backlight : IsClass backlight

  IsClass-Reads : (b : Backend Sysfs) → IsClass b → Reads b
  IsClass-Reads b is_power = record { inventory_keeps = λ s. refl; get_state_keeps = λ i s. refl }
  IsClass-Reads b is_thermal = record { inventory_keeps = λ s. refl; get_state_keeps = λ i s. refl }
  IsClass-Reads b is_backlight = record {
    inventory_keeps = λ s. refl;
    get_state_keeps = λ i s. refl;
  }

  abbrev pub AllClasses : Dict String (Backend Sysfs) → Type 0
  AllClasses backends = All (λ e. IsClass e.1) backends

  classes-AllRead :
      (backends : Dict String (Backend Sysfs)) → AllClasses backends → AllRead backends
  classes-AllRead [] h = tt
  classes-AllRead ((key, b) ∷ rest) h = (IsClass-Reads b h.0, classes-AllRead rest h.1)

  get-IsClass :
      (backends : Dict String (Backend Sysfs)) (d : String) (b : Backend Sysfs)
      → AllClasses backends
      → get d backends ≡ some b
      → IsClass b
  get-IsClass [] d b h e = absurd cc
  get-IsClass ((key, c) ∷ rest) d b h e = elim (Bool-cases (key == d)) [
    | inl here ↦ let same : c ≡ b = (let l = rw here at e in cc) in subst IsClass same h.0
    | inr there ↦ get-IsClass rest d b h.1 (rw there at e)
  ]

  -- What a change that reaches one of the three does.
  set-IsWrite :
      (b : Backend Sysfs) (identifier : String) (requested : Fields) (s : Sysfs)
      → IsClass b
      → ((b.set_state identifier requested s).1 ≡ s)
        ⊎ IsWrite p roots.backlight_root identifier s (b.set_state identifier requested s).1
  set-IsWrite b identifier requested s is_power = inl refl
  set-IsWrite b identifier requested s is_thermal = inl refl
  set-IsWrite b identifier requested s is_backlight =
      set_state-IsWrite p roots.backlight_root identifier requested s

  -- The process writes carefully: whatever method of the service over the sysfs classes is called with
  -- whatever payload, and however the call ends, sysfs is left alone, or the method is `set_state` and
  -- there is one write, of a level between 0 and the maximum that the device gives, to the resolved
  -- `brightness` of the entry that the payload's device id names; for the directory /sys/class/backlight
  -- that file lies below /sys/devices.
  pub handle-IsWrite :
      (service : Service Sysfs) (method : String) (payload : Fields) (s : Sysfs)
      → AllClasses service.backends
      → ((handle p.repr service method payload s).1 ≡ s)
        ⊎ ((method ≡ "set_state")
            × (identifier : String) × (device_id (field_or null "id" payload) "id" ≡ ok identifier)
            × IsWrite p roots.backlight_root identifier s
                (handle p.repr service method payload s).1)
  handle-IsWrite service method payload s classes =
      elim (handle-IsChange p.repr service (classes-AllRead service.backends classes) method payload
        s) [
          | inl kept ↦ inl kept
          | inr (name, change) ↦
              let b = change.backend in
              elim (set-IsWrite b change.identifier change.requested s
                (get-IsClass service.backends _ b classes change.served)) [
                  | inl kept ↦ inl (change.changed ∙ kept)
                  | inr write ↦ inr (
                    name,
                    change.identifier,
                    change.read_id,
                    subst (IsWrite p roots.backlight_root change.identifier s) (sym change.changed)
                        write,
                  )
                ]
        ]
