-- ===== src/DisplaySession/Matrix.antt =====
-- What `normalized_matrix` of display_session.py accepts.
use msys_hal.Prelude.{
  suc, ◌≤◌, ◌≡◌, refl, ap, ◌∙◌, String, Bool, true, false, not, ◌&&◌, List, [], ◌∷◌, arith, ltb,
  ◌==◌, nat_eq, nat_beq_iff,
}
use mathlib.Core.Path.{subst}
use msys_hal.Json.{Value, int, float, arr, Items, nil, cons, count_items}
use msys_hal.Json.Int.{ℤ, pos, negsuc}
use msys_hal.Errors.{ok, >>=-eq-ok, require, require-eq-ok}
use msys_hal.DisplaySession.{
  Reading, reading_int, float_limit, number_of, numbers_of, is_affine, normalized_matrix,
}

module _ (reading : String → Reading) where
  -- A number of a matrix: an integer from -16 to 16, or a finite float that is no larger.
  abbrev pub IsEntry : Value → Type 0
  IsEntry (int (pos n)) = n ≤ 16
  IsEntry (int (negsuc n)) = suc n ≤ 16
  IsEntry (float finite text) = (finite ≡ true) × ((reading text).large ≡ false)
  IsEntry v = ⊥

  abbrev pub AreEntries : Items → Type 0
  AreEntries nil = Unit
  AreEntries (cons v vs) = IsEntry v × AreEntries vs

  -- The integer `k`, or a float next to it by what Python finds out about the float.
  abbrev pub IsNear : ℤ → (Reading → Bool) → Value → Type 0
  IsNear k off (int n) = n ≡ k
  IsNear k off (float finite text) = off (reading text) ≡ false
  IsNear k off v = ⊥

  -- The seventh to the ninth number are 0, 0 and 1.
  abbrev pub HasLastRow : Items → Type 0
  HasLastRow (cons a (cons b (cons c (cons d (cons e (cons f (cons g (cons h (cons i vs))))))))) =
      IsNear (pos 0) (λ r. r.off_zero) g
      × IsNear (pos 0) (λ r. r.off_zero) h
      × IsNear (pos 1) (λ r. r.off_one) i
  HasLastRow vs = ⊥

  -- Nine numbers within bounds, the last three of them 0, 0 and 1.
  pub record IsAffine (v : Value) : Type 0 where
    pub items : Items
    pub is_list : v ≡ arr items
    pub nine : count_items items ≡ 9
    pub bounded : AreEntries items
    pub last_row : HasLastRow items

  -- A number and what has been found out about it.
  abbrev IsRead : Value → Reading → Type 0
  IsRead (int n) r = reading_int n ≡ r
  IsRead (float finite text) r = reading text ≡ r
  IsRead v r = ⊥

  abbrev AreRead : Items → List Reading → Type 0
  AreRead nil [] = Unit
  AreRead (cons v vs) (r ∷ rs) = IsRead v r × AreRead vs rs
  AreRead vs rs = ⊥

  number_of-IsEntry :
      (label : String) (v : Value) (r : Reading)
      → number_of reading label v ≡ ok r
      → IsEntry v × IsRead v r
  unfolding number_of
  number_of-IsEntry label (int (pos n)) r e =
      let (u, q, e1) = >>=-eq-ok (require (ltb n float_limit) _) _ e in
      let (u, small, e2) = >>=-eq-ok (require (not (ltb 16 n)) _) _ e1 in
      (ground (arith, require-eq-ok _ _ small), cc)
  number_of-IsEntry label (int (negsuc n)) r e =
      let (u, q, e1) = >>=-eq-ok (require (ltb (suc n) float_limit) _) _ e in
      let (u, small, e2) = >>=-eq-ok (require (not (ltb 16 (suc n))) _) _ e1 in
      (ground (arith, require-eq-ok _ _ small), cc)
  number_of-IsEntry label (float finite text) r e =
      let (u, small, e1) = >>=-eq-ok (require (finite && not (reading text).large) _) _ e in
      let both = require-eq-ok _ _ small in ((ground arith, ground arith), cc)
  number_of-IsEntry label _ r e = absurd cc

  numbers_of-AreEntries :
      (label : String) (vs : Items) (rs : List Reading)
      → numbers_of reading label vs ≡ ok rs
      → AreEntries vs × AreRead vs rs
  unfolding numbers_of
  numbers_of-AreEntries label nil [] e = (tt, tt)
  numbers_of-AreEntries label nil (r ∷ rs) e = absurd cc
  numbers_of-AreEntries label (cons v vs) rs e =
      let (x, first, e1) = >>=-eq-ok (number_of reading label v) _ e in
      let (xs, others, e2) = >>=-eq-ok (numbers_of reading label vs) _ e1 in
      let same : (x ∷ xs) ≡ rs = cc in
      let (entry, read) = number_of-IsEntry label v x first in
      let (entries, all_read) = numbers_of-AreEntries label vs xs others in
      ((entry, entries), subst (AreRead (cons v vs)) same (read, all_read))

  IsNear-zero :
      (v : Value) (r : Reading)
      → IsRead v r
      → r.off_zero ≡ false
      → IsNear (pos 0) (λ x. x.off_zero) v
  IsNear-zero (int (pos n)) r read h =
      let off : not (n == 0) ≡ false = ap (λ x. x.off_zero) read ∙ h in
      let same : n ≡ 0 = ground arith in ap pos same
  IsNear-zero (int (negsuc n)) r read h =
      let off : true ≡ false = ap (λ x. x.off_zero) read ∙ h in absurd cc
  IsNear-zero (float finite text) r read h = ap (λ x. x.off_zero) read ∙ h
  IsNear-zero _ r read h = elim read [ ]

  IsNear-one :
      (v : Value) (r : Reading) → IsRead v r → r.off_one ≡ false → IsNear (pos 1) (λ x. x.off_one) v
  IsNear-one (int (pos n)) r read h =
      let off : not (n == 1) ≡ false = ap (λ x. x.off_one) read ∙ h in
      let same : n ≡ 1 = ground arith in ap pos same
  IsNear-one (int (negsuc n)) r read h =
      let off : true ≡ false = ap (λ x. x.off_one) read ∙ h in absurd cc
  IsNear-one (float finite text) r read h = ap (λ x. x.off_one) read ∙ h
  IsNear-one _ r read h = elim read [ ]

  is_affine-HasLastRow :
      (rs : List Reading) (vs : Items) → AreRead vs rs → is_affine reading rs ≡ true → HasLastRow vs
  unfolding is_affine
  is_affine-HasLastRow (r1 ∷ r2 ∷ r3 ∷ r4 ∷ r5 ∷ r6 ∷ r7 ∷ r8 ∷ r9 ∷ rs)
        (cons a (cons b (cons c (cons d (cons e (cons f (cons g (cons h (cons i vs))))))))) read q =
      let at_g = read.1.1.1.1.1.1.0 in
      let at_h = read.1.1.1.1.1.1.1.0 in
      let at_i = read.1.1.1.1.1.1.1.1.0 in
      (
        IsNear-zero g r7 at_g (ground arith),
        IsNear-zero h r8 at_h (ground arith),
        IsNear-one i r9 at_i (ground arith),
      )
  is_affine-HasLastRow (r1 ∷ r2 ∷ r3 ∷ r4 ∷ r5 ∷ r6 ∷ r7 ∷ r8 ∷ r9 ∷ rs) nil read q = elim read [ ]
  is_affine-HasLastRow (r1 ∷ r2 ∷ r3 ∷ r4 ∷ r5 ∷ r6 ∷ r7 ∷ r8 ∷ r9 ∷ rs) (cons a nil) read q =
      elim read.1 [ ]
  is_affine-HasLastRow (r1 ∷ r2 ∷ r3 ∷ r4 ∷ r5 ∷ r6 ∷ r7 ∷ r8 ∷ r9 ∷ rs) (cons a (cons b nil)) read
        q =
      elim read.1.1 [ ]
  is_affine-HasLastRow (r1 ∷ r2 ∷ r3 ∷ r4 ∷ r5 ∷ r6 ∷ r7 ∷ r8 ∷ r9 ∷ rs)
        (cons a (cons b (cons c nil))) read q =
      elim read.1.1.1 [ ]
  is_affine-HasLastRow (r1 ∷ r2 ∷ r3 ∷ r4 ∷ r5 ∷ r6 ∷ r7 ∷ r8 ∷ r9 ∷ rs)
        (cons a (cons b (cons c (cons d nil)))) read q =
      elim read.1.1.1.1 [ ]
  is_affine-HasLastRow (r1 ∷ r2 ∷ r3 ∷ r4 ∷ r5 ∷ r6 ∷ r7 ∷ r8 ∷ r9 ∷ rs)
        (cons a (cons b (cons c (cons d (cons e nil))))) read q =
      elim read.1.1.1.1.1 [ ]
  is_affine-HasLastRow (r1 ∷ r2 ∷ r3 ∷ r4 ∷ r5 ∷ r6 ∷ r7 ∷ r8 ∷ r9 ∷ rs)
        (cons a (cons b (cons c (cons d (cons e (cons f nil)))))) read q =
      elim read.1.1.1.1.1.1 [ ]
  is_affine-HasLastRow (r1 ∷ r2 ∷ r3 ∷ r4 ∷ r5 ∷ r6 ∷ r7 ∷ r8 ∷ r9 ∷ rs)
        (cons a (cons b (cons c (cons d (cons e (cons f (cons g nil))))))) read q =
      elim read.1.1.1.1.1.1.1 [ ]
  is_affine-HasLastRow (r1 ∷ r2 ∷ r3 ∷ r4 ∷ r5 ∷ r6 ∷ r7 ∷ r8 ∷ r9 ∷ rs)
        (cons a (cons b (cons c (cons d (cons e (cons f (cons g (cons h nil)))))))) read q =
      elim read.1.1.1.1.1.1.1.1 [ ]
  is_affine-HasLastRow rs vs read q = absurd cc

  -- A matrix that is accepted.
  pub normalized_matrix-IsAffine :
      (v : Value) (label : String) (matrix : Items)
      → normalized_matrix reading v label ≡ ok matrix
      → IsAffine v
  unfolding normalized_matrix
  normalized_matrix-IsAffine (arr vs) label matrix e =
      let (u, nine, e1) = >>=-eq-ok (require (count_items vs == 9) _) _ e in
      let (rs, read, e2) = >>=-eq-ok (numbers_of reading label vs) _ e1 in
      let (u, affine, e3) = >>=-eq-ok (require (is_affine reading rs) _) _ e2 in
      let (entries, all_read) = numbers_of-AreEntries label vs rs read in
      record {
        items = vs;
        is_list = refl;
        nine = (nat_beq_iff (count_items vs) 9).0 (require-eq-ok _ _ nine);
        bounded = entries;
        last_row = is_affine-HasLastRow rs vs all_read (require-eq-ok _ _ affine);
      }
  normalized_matrix-IsAffine _ label matrix e = absurd cc
