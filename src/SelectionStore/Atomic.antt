-- ===== src/SelectionStore/Atomic.antt =====
-- `save` replaces the preference file whole or leaves it alone.
use msys_hal.Prelude.{
  String, ◌≡◌, refl, ◌⊎◌, inl, inr, Option, none, some, false, arith, Option-cases, Bool-cases,
  ◌==◌, string_eq,
}
use msys_hal.Prelude.Dict.{Dict}
use msys_hal.Json.{Value}
use msys_hal.Errors.{Result-cases, Exception, python, Result, ok, err}
use msys_hal.Validation.Bounded.{default_limits, ensure_bounded_json}
use msys_hal.SelectionStore.{
  File, Disk, Step, sync_directory, unlink_temporary, Io, ◌>>◌, system, passed, file_of, cleanup,
  with_cleanup, write_steps, write_file, save, selection_payload,
}

-- `r` returned into `Q` or raised into `E`.
abbrev Ends : (Disk → Type 0) → (Disk → Type 0) → Result (Unit {0}) × Disk → Type 0
Ends Q E r = ((r.0 ≡ ok tt) × Q r.1) ⊎ ((e : Exception) × (r.0 ≡ err e) × E r.1)

-- From `P`, `m` returns into `Q` or raises into `E`.
record Triple (fails : Step → Option String) (P : Disk → Type 0) (m : Io) (Q E : Disk → Type 0)
    : Type 0 where
  at : (disk : Disk) → P disk → Ends Q E (m fails disk)

module _ {fails : Step → Option String} {P Q R E : Disk → Type 0} where
  Triple-seq :
      {m n : Io} → Triple fails P m Q E → Triple fails Q n R E → Triple fails P (m >> n) R E
  unfolding ◌>>◌
  Triple-seq first second = record {
    at = λ disk p. elim (first.at disk p) [
      | inl (o, q) ↦ rw (o, ◌>>◌) (second.at _ q)
      | inr (e, o, x) ↦ rw (o, ◌>>◌) (inr (e, refl, x))
    ];
  }

module _ {fails : Step → Option String} {P Q E : Disk → Type 0} where
  Triple-system :
      (step : Step) (effect : Disk → Disk)
      → ((d : Disk) → P d → Q (effect d))
      → ((d : Disk) → P d → E d)
      → Triple fails P (system step effect) Q E
  unfolding system
  Triple-system step effect done undone = record {
    at = λ disk p. elim (Option-cases (fails step)) [
      | inl o ↦ rw (o, system) (inl (refl, done disk p))
      | inr (name, o) ↦ rw (o, system) (inr (python name "", refl, undone disk p))
    ];
  }

-- A system call without an effect on the files.
Triple-keep :
    {P E : Disk → Type 0} {fails : Step → Option String} (step : Step)
    → ((d : Disk) → P d → E d)
    → Triple fails P (system step (λ d. d)) P E
Triple-keep step undone = Triple-system step (λ d. d) (λ d p. p) undone

module _ (fails : Step → Option String) (old : Option File) (payload : Value) where
  abbrev Old : Disk → Type 0
  Old d = d.current ≡ old

  abbrev Written : Disk → Type 0
  Written d = (d.current ≡ old) × (d.temporary ≡ some (file_of payload))

  abbrev Installed : Disk → Type 0
  Installed d = (d.current ≡ some (file_of payload)) × (d.temporary ≡ none)

  sync_directory-passed :
      Triple fails Installed (passed (system sync_directory (λ d. d))) Installed Old
  unfolding passed system
  sync_directory-passed = record { at = λ disk p. inl (refl, ground arith) }

  -- The body of the `try`: on an error the old file stands, else the new one and no temporary file.
  write_steps-Triple : Triple fails Old (write_steps payload) Installed Old
  unfolding write_steps
  write_steps-Triple = Triple-seq {Q = Old} (Triple-keep _ (λ d p. p)) (
      Triple-seq {Q = Written} (Triple-system _ _ (λ d p. (p, refl)) (λ d p. p)) (
        Triple-seq {Q = Written} (Triple-keep _ (λ d p. p.0)) (
          Triple-seq {Q = Written} (Triple-keep _ (λ d p. p.0)) (
            Triple-seq {Q = Installed} (Triple-system _ _ (λ d p. (p.1, refl)) (λ d p. p.0))
              sync_directory-passed))))

  -- The temporary file that was still there could not be removed.
  abbrev Unremoved : Type 0
  Unremoved = (name : String) × (fails unlink_temporary ≡ some name)

  -- After an error in front of `os.replace`: the old file.
  abbrev Undone : Disk → Type 0
  Undone d = (d.current ≡ old) × ((d.temporary ≡ none) ⊎ Unremoved)

  -- After an error behind `os.replace`: the new file.
  abbrev Late : Disk → Type 0
  Late d =
      Installed d
      × (name : String) × (fails unlink_temporary ≡ some name)
      × ((name == "FileNotFoundError") ≡ false)

  abbrev Failed : Disk → Type 0
  Failed d = Undone d ⊎ Late d

  abbrev Ready : Disk → Type 0
  Ready d = (d.current ≡ old) × (d.temporary ≡ none)

  cleanup-Ends :
      (r : Result (Unit {0}) × Disk)
      → Ends Installed Old r
      → Ends Installed Failed (cleanup fails r.0 r.1)
  unfolding cleanup
  cleanup-Ends r h = elim (Option-cases (fails unlink_temporary)) [
    | inl u ↦ elim h [
      | inl (o, q) ↦ rw (u, cleanup) (inl (o, (q.0, refl)))
      | inr (e, o, q) ↦ rw (u, cleanup) (inr (e, o, inl (q, inl refl)))
    ]
    | inr (n, u) ↦ elim (Bool-cases (n == "FileNotFoundError")) [
      | inl gone ↦ elim h [
        | inl (o, q) ↦ rw (u, gone, cleanup) (inl (o, q))
        | inr (e, o, q) ↦ rw (u, gone, cleanup) (inr (e, o, inl (q, inr (n, refl))))
      ]
      | inr other ↦ elim h [
        | inl (o, q) ↦ rw (u, other, cleanup) (inr (python n "", refl, inr (q, n, refl, other)))
        | inr (e, o, q) ↦ rw (u, other, cleanup) (inr (python n "", refl, inl (q, inr (n, refl))))
      ]
    ]
  ]

  write_file-Triple : Triple fails Ready (write_file payload) Installed Failed
  unfolding write_file
  write_file-Triple = Triple-seq {Q = Ready} (Triple-keep _ (λ d p. inl (p.0, inl p.1))) (
      Triple-seq {Q = Old} (Triple-system _ _ (λ d p. p.0) (λ d p. inl (p.0, inl p.1))) (
        unfold with_cleanup in
        record {
          at = λ d p. cleanup-Ends (write_steps payload fails d) (write_steps-Triple.at d p);
        }))

save-Ends :
    (fails : Step → Option String) (selections : Dict String String) (disk : Disk)
    → disk.temporary ≡ none
    → Ends
        (Installed fails disk.current (selection_payload selections))
        (Failed fails disk.current (selection_payload selections))
        (save selections fails disk)
unfolding save
save-Ends fails selections disk clear =
    elim (Result-cases (
      ensure_bounded_json (default_limits "HAL provider selection")
        (selection_payload selections))) [
          | inl (u, o) ↦
              rw (o, save)
                ((write_file-Triple fails disk.current (selection_payload selections)).at disk
                  (refl, clear))
          | inr (e, o) ↦ rw (o, save) (inr (e, refl, inl (refl, inl clear)))
        ]

-- What `save` leaves behind. Whatever system calls fail, from a disk without a temporary file: either
-- it returns, the file holds exactly the document of these selections, and no temporary file is left;
-- or it raises, the file is the one from before, and no temporary file is left or its removal failed
-- too; or it raises, the file holds the document of these selections and no temporary file is left,
-- and this only if the `unlink` of the temporary name has failed with another exception than
-- FileNotFoundError.
pub save_atomic :
    (fails : Step → Option String) (selections : Dict String String) (disk : Disk)
    → disk.temporary ≡ none
    → let r = save selections fails disk in
      ((r.0 ≡ ok tt)
        × ((r.1.current ≡ some (file_of (selection_payload selections))) × (r.1.temporary ≡ none)))
      ⊎ ((e : Exception) × (r.0 ≡ err e)
          × (((r.1.current ≡ disk.current)
                × ((r.1.temporary ≡ none)
                    ⊎ ((name : String) × (fails unlink_temporary ≡ some name))))
              ⊎ (((r.1.current ≡ some (file_of (selection_payload selections)))
                    × (r.1.temporary ≡ none))
                  × (name : String) × (fails unlink_temporary ≡ some name)
                  × ((name == "FileNotFoundError") ≡ false))))
save_atomic fails selections disk clear = save-Ends fails selections disk clear
