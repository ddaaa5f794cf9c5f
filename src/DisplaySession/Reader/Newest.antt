-- ===== src/DisplaySession/Reader/Newest.antt =====
-- What `load` returns.
use msys_hal.Prelude.{
  ℕ, ◌≤◌, ◌≡◌, refl, ap, ◌∙◌, inl, inr, String, true, Option, none, some, List, [], ◌∷◌,
  Option-cases, string_eq,
}
use mathlib.Core.Path.{subst}
use msys_hal.Json.{Fields}
use msys_hal.Errors.{Result, ok, err, Result-cases, >>=-eq-ok, require-eq-ok, ◌>>◌}
use msys_hal.DisplaySession.Reader.{
  Surroundings, SessionReader, read_document, require_fresh, is_fresh, Found, outcome, newest,
  choose, finish, load, observed_at,
}
use msys_hal.DisplaySession.Reader.Gathered.{
  Among, Among-cons, newest-Among, newest-all, load_loop-Gathered,
}

finish-ok :
    (o : Option (Result Found)) (d : Fields)
    → finish o ≡ some (ok d)
    → (f : Found) × (o ≡ some (ok f)) × (choose f.fresh f ≡ ok d)
unfolding finish
finish-ok none d e = absurd cc
finish-ok (some (err x)) d e = absurd cc
finish-ok (some (ok f)) d e = (f, refl, cc)

choose-ok :
    (ds : List Fields) (f : Found) (d : Fields)
    → choose ds f ≡ ok d
    → Among d ds × ((e : Fields) → Among e ds → observed_at e ≤ observed_at d)
unfolding choose
choose-ok [] f d e = absurd cc
choose-ok (x ∷ ds) f d e =
    let same : newest x ds ≡ d = cc in
    (
      subst (λ y. Among y (x ∷ ds)) same (newest-Among x ds),
      λ z m. subst (λ y. observed_at z ≤ observed_at y) same (newest-all ds x z (Among-cons m)),
    )

outcome-ok :
    (w : Surroundings) (age : ℕ) (path : String) (d : Fields)
    → outcome w age path ≡ some (ok d)
    → (read_document w path ≡ some (ok d)) × (is_fresh age (w.now path) (observed_at d) ≡ true)
unfolding outcome require_fresh
outcome-ok w age path d e = elim (Option-cases (read_document w path)) [
  | inl endless ↦ absurd (let l = rw (endless, outcome) at e in cc)
  | inr (r, read) ↦ elim (Result-cases r) [
    | inr (x, bad) ↦ absurd (let l = rw (read ∙ ap some bad, outcome) at e in cc)
    | inl (c, fine) ↦
        let l = rw (read ∙ ap some fine, outcome) at e in
        let kept : (require_fresh age (w.now path) c >> ok c) ≡ ok d = cc in
        let (u, young, m) = >>=-eq-ok (require_fresh age (w.now path) c) _ kept in
        let same : c ≡ d = cc in
        subst
          (λ x.
            (read_document w path ≡ some (ok x))
            × (is_fresh age (w.now path) (observed_at x) ≡ true))
          same (read ∙ ap some fine, require-eq-ok _ _ young)
  ]
]

-- A document that `load` returns, and where it has been found.
pub record IsNewest (w : Surroundings) (reader : SessionReader) (d : Fields) : Type 0 where
  pub path : String
  pub known : Among path reader.paths
  pub read : read_document w path ≡ some (ok d)
  pub fresh : is_fresh reader.max_age_ms (w.now path) (observed_at d) ≡ true
  pub top :
      (other : String) (e : Fields)
      → Among other reader.paths
      → outcome w reader.max_age_ms other ≡ some (ok e)
      → observed_at e ≤ observed_at d

-- The newest state is returned: a document that `load` returns has been read from one of the paths,
-- with success, and is fresh, and no other document that is so has been observed later.
pub load-IsNewest :
    (w : Surroundings) (reader : SessionReader) (d : Fields)
    → load w reader ≡ some (ok d)
    → IsNewest w reader d
unfolding load
load-IsNewest w reader d e =
    let (f, gathered, chosen) = finish-ok _ d e in
    let all = load_loop-Gathered w reader.max_age_ms reader.paths _ f gathered in
    let (there, top) = choose-ok f.fresh f d chosen in
    elim (all.came d there) [
      | inl nowhere ↦ elim nowhere [ ]
      | inr (path, known, out) ↦
          let (read, fresh) = outcome-ok w reader.max_age_ms path d out in
          record {
            path = path;
            known = known;
            read = read;
            fresh = fresh;
            top = λ other x m o. top x (all.took other x m o);
          }
    ]
