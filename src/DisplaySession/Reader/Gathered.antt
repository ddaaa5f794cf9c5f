-- ===== src/DisplaySession/Reader/Gathered.antt =====
-- What the loop of `load` gathers, and the newest of the documents.
use msys_hal.Prelude.{
  ℕ, ◌≤◌, ◌≡◌, refl, sym, ap, ◌∙◌, ◌⊎◌, inl, inr, String, true, Option, none, some, List, [], ◌∷◌,
  ◌++◌, ltb, ltb→lt, ltb→le, Bool-cases, arith, ◌==◌, string_eq,
}
use mathlib.Core.Path.{subst}
use msys_hal.Json.{Fields}
use msys_hal.Errors.{Exception, hal, python, Result, ok, err, Result-cases}
use msys_hal.DisplaySession.Reader.{
  Surroundings, Found, outcome, after_path, is_os_or_value_error, newest, next_path, load_loop,
  observed_at,
}

-- A member of a list.
pub data Among {A : Type 0} (a : A) : List A → Type 0 where
  first : {xs : List A} → Among a (a ∷ xs)
  later : {x : A} {xs : List A} → Among a xs → Among a (x ∷ xs)

module _ {A : Type 0} where
  Among-left : {a : A} {xs : List A} (ys : List A) → Among a xs → Among a (xs ++ ys)
  Among-left ys first = first
  Among-left ys (later m) = later (Among-left ys m)

  Among-last : (a : A) (xs : List A) → Among a (xs ++ a ∷ [])
  Among-last a [] = first
  Among-last a (x ∷ xs) = later (Among-last a xs)

  Among-snoc : {a : A} (b : A) (xs : List A) → Among a (xs ++ b ∷ []) → Among a xs ⊎ (a ≡ b)
  Among-snoc b [] first = inr refl
  Among-snoc b [] (later m) = elim m [ ]
  Among-snoc b (x ∷ xs) first = inl first
  Among-snoc b (x ∷ xs) (later m) = elim (Among-snoc b xs m) [
    | inl n ↦ inl (later n)
    | inr same ↦ inr same
  ]

  pub Among-cons : {a b : A} {xs : List A} → Among a (b ∷ xs) → (a ≡ b) ⊎ Among a xs
  Among-cons first = inl refl
  Among-cons (later m) = inr m

  skip : {a b c : A} {xs : List A} → Among a (b ∷ xs) → Among a (b ∷ c ∷ xs)
  skip first = first
  skip (later m) = later (later m)

-- The newest is among the documents, and no other is newer.
pub newest-Among : (best : Fields) (ds : List Fields) → Among (newest best ds) (best ∷ ds)
unfolding newest
newest-Among best [] = first
newest-Among best (d ∷ ds) = elim (Bool-cases (ltb (observed_at best) (observed_at d))) [
  | inl newer ↦ rw (newer, newest) (later (newest-Among d ds))
  | inr older ↦ rw (older, newest) (skip (newest-Among best ds))
]

newest-ge : (best : Fields) (ds : List Fields) → observed_at best ≤ observed_at (newest best ds)
unfolding newest
newest-ge best [] = omega arith
newest-ge best (d ∷ ds) = elim (Bool-cases (ltb (observed_at best) (observed_at d))) [
  | inl newer ↦
      rw (newer, newest)
        (let h = newest-ge d ds in
          let l = ltb→lt (observed_at best) (observed_at d) newer in omega arith)
  | inr older ↦ rw (older, newest) (newest-ge best ds)
]

pub newest-all :
    (ds : List Fields) (best e : Fields)
    → (e ≡ best) ⊎ Among e ds
    → observed_at e ≤ observed_at (newest best ds)
unfolding newest
newest-all [] best e (inl same) = let h = ap observed_at same in omega arith
newest-all [] best e (inr m) = elim m [ ]
newest-all (d ∷ ds) best e (inl same) =
    let h = ap observed_at same in let l = newest-ge best (d ∷ ds) in omega arith
newest-all (d ∷ ds) best e (inr m) = elim (Bool-cases (ltb (observed_at best) (observed_at d))) [
  | inl newer ↦ rw (newer, newest) (newest-all ds d e (Among-cons m))
  | inr older ↦ elim (Among-cons m) [
    | inr n ↦ rw (older, newest) (newest-all ds best e (inr n))
    | inl same ↦
        let h = ap observed_at same in
        let l = ltb→le (observed_at best) (observed_at d) older in
        let g = newest-ge best ds in rw (older, newest) (omega arith)
  ]
]

-- What the loop has gathered from the paths.
pub record Gathered (w : Surroundings) (age : ℕ) (paths : List String) (f g : Found) : Type 0 where
  pub came :
      (d : Fields)
      → Among d g.fresh
      → Among d f.fresh ⊎ ((path : String) × Among path paths × (outcome w age path ≡ some (ok d)))
  pub took :
      (path : String) (d : Fields)
      → Among path paths
      → outcome w age path ≡ some (ok d)
      → Among d g.fresh
  pub kept : (d : Fields) → Among d f.fresh → Among d g.fresh

after_path-cases :
    (r : Result Fields) (f g : Found)
    → after_path r f ≡ ok g
    → ((d : Fields) × (r ≡ ok d) × (g.fresh ≡ f.fresh ++ d ∷ []))
      ⊎ ((e : Exception) × (r ≡ err e) × (g.fresh ≡ f.fresh))
unfolding after_path
after_path-cases (ok d) f g e = inl (
  d,
  refl,
  (let same : record f { fresh = f.fresh ++ d ∷ [] } ≡ g = cc in ap (λ x. x.fresh) (sym same)),
)
after_path-cases (err (python name text)) f g e = inr (
  python name text,
  refl,
  elim (Bool-cases (name == "FileNotFoundError")) [
    | inl missing ↦
        (let l = rw (missing, after_path) at e in let same : g ≡ f = cc in ap (λ x. x.fresh) same)
    | inr there ↦ elim (Bool-cases (is_os_or_value_error name)) [
      | inl bad ↦
          (let l = rw (there, bad, after_path) at e in
            let same : g ≡ record f { invalid = true } = cc in ap (λ x. x.fresh) same)
      | inr other ↦ absurd (let l = rw (there, other, after_path) at e in cc)
    ]
  ],
)
after_path-cases (err (hal x)) f g e = inr (
  hal x,
  refl,
  elim (Bool-cases (x.code == "HAL_UNAVAILABLE")) [
    | inl old ↦
        (let l = rw (old, after_path) at e in
          let same : g ≡ record f { stale = true } = cc in ap (λ x. x.fresh) same)
    | inr other ↦ absurd (let l = rw (other, after_path) at e in cc)
  ],
)

next_path-ok :
    (next : Found → Option (Result Found)) (o : Option (Result Fields)) (f g : Found)
    → next_path next o f ≡ some (ok g)
    → (r : Result Fields) × (h : Found) × (o ≡ some r)
      × (after_path r f ≡ ok h)
      × (next h ≡ some (ok g))
unfolding next_path
next_path-ok next none f g e = absurd cc
next_path-ok next (some r) f g e = elim (Result-cases (after_path r f)) [
  | inr (x, bad) ↦ absurd (let l = rw (bad, next_path) at e in cc)
  | inl (h, fine) ↦ (r, h, refl, fine, rw (fine, next_path) at e)
]

took-next :
    (w : Surroundings) (age : ℕ) (path : String) (rest : List String) (g : Found)
    → ((p : String) (d : Fields) → Among p rest → outcome w age p ≡ some (ok d) → Among d g.fresh)
    → ((d : Fields) → outcome w age path ≡ some (ok d) → Among d g.fresh)
    → (p : String) (d : Fields) → Among p (path ∷ rest)
    → outcome w age p ≡ some (ok d)
    → Among d g.fresh
took-next w age path rest g below here p d first out = here d out
took-next w age path rest g below here p d (later m) out = below p d m out

pub load_loop-Gathered :
    (w : Surroundings) (age : ℕ) (paths : List String) (f g : Found)
    → load_loop w age paths f ≡ some (ok g)
    → Gathered w age paths f g
unfolding load_loop
load_loop-Gathered w age [] f g e =
    let same : f ≡ g = cc in
    subst (Gathered w age [] f) same
      (record { came = λ d m. inl m; took = λ path d m. elim m [ ]; kept = λ d m. m })
load_loop-Gathered w age (path ∷ rest) f g e =
    let (r, h, read, seen, more) = next_path-ok (load_loop w age rest) (outcome w age path) f g e in
    let below = load_loop-Gathered w age rest h g more in
    elim (after_path-cases r f h seen) [
      | inl (d, is_ok, grown) ↦ record {
        came = λ d' m. elim (below.came d' m) [
          | inr (p, mem, out) ↦ inr (p, later mem, out)
          | inl m' ↦ elim (Among-snoc d f.fresh (subst (Among d') grown m')) [
            | inl old ↦ inl old
            | inr same ↦ inr (path, first, read ∙ ap some (is_ok ∙ ap ok (sym same)))
          ]
        ];
        took = took-next w age path rest g below.took (λ d' out.
            let same : d ≡ d' = cc in
            below.kept d' (
              subst (Among d') (sym grown)
                (subst (λ x. Among x (f.fresh ++ d ∷ [])) same (Among-last d f.fresh))));
        kept = λ d' m. below.kept d' (subst (Among d') (sym grown) (Among-left (d ∷ []) m));
      }
      | inr (x, is_err, same) ↦ record {
        came = λ d' m. elim (below.came d' m) [
          | inr (p, mem, out) ↦ inr (p, later mem, out)
          | inl m' ↦ inl (subst (Among d') same m')
        ];
        took = took-next w age path rest g below.took (λ d' out. absurd cc);
        kept = λ d' m. below.kept d' (subst (Among d') (sym same) m);
      }
    ]
