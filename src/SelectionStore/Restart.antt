-- ===== src/SelectionStore/Restart.antt =====
-- What `load` reads back from a file that `save` wrote.
use msys_hal.Prelude.{
  suc, ◌*◌, ◌≤◌, ◌<◌, ◌≡◌, refl, ap, ◌∙◌, String, true, ◌&&◌, Option, none, some, [], ◌∷◌, arith,
  ltb, if◌then◌else◌, length, All, ◌==◌, string_eq, eq_iff, le→ltb, lt→ltb, Bool-cases, inl, inr,
}
use msys_hal.Prelude.Dict.{Dict, get, put, get-put}
use msys_hal.Json.{
  null, bool, int, float, str, arr, obj, Fields, end, field, get_field, count_fields,
}
use msys_hal.Validation.Patterns.{domain_re, component_re}
use msys_hal.Errors.{ok}
use msys_hal.SelectionStore.Atomic.{save_atomic}
use msys_hal.SelectionStore.{
  save, Disk, Step, load, load_entry, load_entries, load_selections, load_document, insert_entry,
  sorted_fields, selection_payload, file_of, File,
}

abbrev IsPreference : String × String → Type 0
IsPreference (k, v) = (domain_re k && component_re v) ≡ true

-- Each key stands once.
abbrev pub HasKeysOnce : Dict String String → Type 0
HasKeysOnce [] = Unit
HasKeysOnce ((k, v) ∷ d) = (get k d ≡ none) × HasKeysOnce d

-- The entries of a JSON object, all of them preferences.
abbrev Preferences : Fields → Type 0
Preferences end = Unit
Preferences (field k (str v) rest) = IsPreference (k, v) × Preferences rest
Preferences (field k v rest) = ⊥

-- The text that the last entry for a key holds.
last_entry : String → Fields → Option String
last_entry j end = none
last_entry j (field k (str v) rest) = elim (last_entry j rest) [
  | some w ↦ some w
  | none ↦ if k == j then some v else none
]
last_entry j (field k v rest) = last_entry j rest

abbrev or_else : Option String → Option String → Option String
or_else none o = o
or_else (some v) o = some v

or_else-none : (o : Option String) → or_else o none ≡ o
or_else-none none = refl
or_else-none (some v) = refl

get-load_entries :
    (j : String) (acc : Dict String String) (fs : Fields)
    → Preferences fs
    → get j (load_entries acc fs) ≡ or_else (last_entry j fs) (get j acc)
unfolding load_entries load_entry last_entry
get-load_entries j acc end h = refl
get-load_entries j acc (field k (str v) rest) h =
    ground (arith, get-load_entries j (put k v acc) rest h.1, get-put k j v acc)
get-load_entries j acc (field k null rest) h = elim h [ ]
get-load_entries j acc (field k (bool b) rest) h = elim h [ ]
get-load_entries j acc (field k (int n) rest) h = elim h [ ]
get-load_entries j acc (field k (float b t) rest) h = elim h [ ]
get-load_entries j acc (field k (arr xs) rest) h = elim h [ ]
get-load_entries j acc (field k (obj gs) rest) h = elim h [ ]

module _ (k v : String) where
  insert_entry-Preferences :
      (fs : Fields) → IsPreference (k, v) → Preferences fs → Preferences (insert_entry k v fs)
  unfolding insert_entry
  insert_entry-Preferences end p h = (p, tt)
  insert_entry-Preferences (field j (str w) rest) p h =
      ground (arith, insert_entry-Preferences rest p h.1)
  insert_entry-Preferences (field j null rest) p h = elim h [ ]
  insert_entry-Preferences (field j (bool b) rest) p h = elim h [ ]
  insert_entry-Preferences (field j (int n) rest) p h = elim h [ ]
  insert_entry-Preferences (field j (float b t) rest) p h = elim h [ ]
  insert_entry-Preferences (field j (arr xs) rest) p h = elim h [ ]
  insert_entry-Preferences (field j (obj gs) rest) p h = elim h [ ]

  last_entry-insert_entry :
      (j : String) (fs : Fields)
      → Preferences fs
      → last_entry k fs ≡ none
      → last_entry j (insert_entry k v fs) ≡ (if k == j then some v else last_entry j fs)
  unfolding insert_entry last_entry
  last_entry-insert_entry j end h e = refl
  last_entry-insert_entry j (field i (str w) rest) h e =
      ground (arith, last_entry-insert_entry j rest h.1, eq_iff k j, eq_iff i k, eq_iff i j)
  last_entry-insert_entry j (field i null rest) h e = elim h [ ]
  last_entry-insert_entry j (field i (bool b) rest) h e = elim h [ ]
  last_entry-insert_entry j (field i (int n) rest) h e = elim h [ ]
  last_entry-insert_entry j (field i (float b t) rest) h e = elim h [ ]
  last_entry-insert_entry j (field i (arr xs) rest) h e = elim h [ ]
  last_entry-insert_entry j (field i (obj gs) rest) h e = elim h [ ]

  count_fields-insert_entry :
      (fs : Fields) → count_fields (insert_entry k v fs) ≡ suc (count_fields fs)
  unfolding insert_entry
  count_fields-insert_entry end = refl
  count_fields-insert_entry (field j w rest) = ground (arith, count_fields-insert_entry rest)

sorted_fields-Preferences :
    (d : Dict String String) → All IsPreference d → Preferences (sorted_fields d)
unfolding sorted_fields
sorted_fields-Preferences [] h = tt
sorted_fields-Preferences ((k, v) ∷ d) h =
    insert_entry-Preferences k v (sorted_fields d) h.0 (sorted_fields-Preferences d h.1)

last_entry-sorted_fields :
    (j : String) (d : Dict String String)
    → All IsPreference d
    → HasKeysOnce d
    → last_entry j (sorted_fields d) ≡ get j d
unfolding sorted_fields
last_entry-sorted_fields j [] h once = unfold last_entry in refl
last_entry-sorted_fields j ((k, v) ∷ d) h once =
    last_entry-insert_entry k v j (sorted_fields d) (sorted_fields-Preferences d h.1)
      (last_entry-sorted_fields k d h.1 once.1 ∙ once.0)
    ∙ ap (λ o. if k == j then some v else o) (last_entry-sorted_fields j d h.1 once.1)

count_fields-sorted_fields : (d : Dict String String) → count_fields (sorted_fields d) ≡ length d
unfolding sorted_fields
count_fields-sorted_fields [] = refl
count_fields-sorted_fields ((k, v) ∷ d) =
    count_fields-insert_entry k v (sorted_fields d) ∙ ap suc (count_fields-sorted_fields d)

load-file_of :
    (d : Dict String String) (file : File)
    → file.document ≡ some (selection_payload d)
    → file.bytes ≤ 64 * 1024
    → length d ≤ 64
    → load (some file) ≡ load_entries [] (sorted_fields d)
unfolding load load_document load_selections selection_payload
load-file_of d file doc small few =
    rw (le→ltb file.bytes (64 * 1024) small, doc, load_document, get_field, string_eq)
      (rw (count_fields-sorted_fields d, le→ltb (length d) 64 few))

-- A restart restores the preferences: of a file of at most 65536 bytes that holds the document of
-- at most 64 selections, each of a domain name and a component name and each domain once, `load`
-- reads back the same selection for every domain.
pub load-selection_payload :
    (d : Dict String String) (file : File) (j : String)
    → file.document ≡ some (selection_payload d)
    → file.bytes ≤ 64 * 1024
    → length d ≤ 64
    → All IsPreference d
    → HasKeysOnce d
    → get j (load (some file)) ≡ get j d
load-selection_payload d file j doc small few h once = rw (load-file_of d file doc small few) (
    get-load_entries j [] (sorted_fields d) (sorted_fields-Preferences d h)
    ∙ rw (last_entry-sorted_fields j d h once) (or_else-none (get j d)))

load-overfull_document :
    (d : Dict String String) (file : File)
    → file.document ≡ some (selection_payload d)
    → 64 < length d
    → load (some file) ≡ []
unfolding load load_document load_selections selection_payload
load-overfull_document d file doc many = elim (Bool-cases (ltb (64 * 1024) file.bytes)) [
  | inl big ↦ rw big
  | inr small ↦
      rw (small, doc, load_document, get_field, string_eq)
        (rw (count_fields-sorted_fields d, lt→ltb 64 (length d) many))
]

-- `save` accepts more selections than `load` reads: after a `save` of more than 64 selections that
-- returns, from a disk without a temporary file, `load` finds no selection at all.
pub load-save_overfull :
    (fails : Step → Option String) (d : Dict String String) (disk : Disk)
    → disk.temporary ≡ none
    → 64 < length d
    → (save d fails disk).0 ≡ ok tt
    → load (save d fails disk).1.current ≡ []
load-save_overfull fails d disk clear many done = elim (save_atomic fails d disk clear) [
  | inl (_, (installed, _)) ↦
      rw installed
        (load-overfull_document d (file_of (selection_payload d)) (unfold file_of in refl) many)
  | inr (e, failed, _) ↦ cc
]
