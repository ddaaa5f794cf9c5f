-- ===== src/Linux/Attribute/Cases.antt =====
-- How `_safe_write` ends.
use msys_hal.Prelude.{
  ℕ, ◌≡◌, refl, ◌⊎◌, inl, inr, String, true, some, List, Bool-cases, Option-cases,
}
use msys_hal.Linux.{Sysfs}
use msys_hal.Linux.Attribute.{
  Platform, line_of, is_allowed, resolved_write, write_allowed, attempt_write, safe_write,
}

pub safe_write-cases :
    (p : Platform) (root entry : String) (value : ℕ) (s : Sysfs)
    → ((safe_write p root entry value s).1 ≡ s)
      ⊎ ((path : List String) × (root_path : List String) × (s.target root entry "brightness"
            ≡ some path)
          × (s.root_target root ≡ some root_path)
          × (is_allowed p root root_path path ≡ true)
          × ((safe_write p root entry value s).1 ≡ (p.write path (line_of value) s).1))
unfolding safe_write resolved_write
safe_write-cases p root entry value s = elim (Option-cases (s.target root entry "brightness")) [
  | inl missing ↦ inl (rw (missing, safe_write, resolved_write) refl)
  | inr (path, resolved) ↦ elim (Option-cases (s.root_target root)) [
    | inl missing ↦ inl (rw (resolved, missing, safe_write, resolved_write) refl)
    | inr (root_path, resolved_root) ↦ elim (Bool-cases (is_allowed p root root_path path)) [
      | inl allowed ↦ inr (
        path,
        root_path,
        resolved,
        resolved_root,
        allowed,
        rw
            (
              resolved, resolved_root, allowed, safe_write, resolved_write, write_allowed,
              attempt_write,
            )
            refl,
      )
      | inr refused ↦
          inl
            (rw (resolved, resolved_root, refused, safe_write, resolved_write, write_allowed) refl)
    ]
  ]
]
