-- ===== src/Mipc/Line/Fragments.antt =====
-- A packet that comes in as a line, cut up in any way, is read back.
use msys_hal.Prelude.{
  ℕ, zero, suc, ◌+◌, ◌-◌, ◌≤◌, ◌<◌, ◌≡◌, ◌≢◌, refl, sym, ap, ◌∙◌, true, false, some, List, [], ◌∷◌,
  ◌++◌, map, All, leb, length, length-append, length-drop, take, drop, nat_eq, nat_beq_iff, arith,
  Bool-cases, inl, inr, le→ltb,
}
use mathlib.Core.Path.{subst}
use mathlib.Core.List.{append-nil, append_assoc}
use msys_hal.Json.{Value}
use msys_hal.Errors.{ok}
use msys_hal.Mipc.Packet.{
  max_packet, Bytes, newline, Codec, IsJson, encode_packet, decode_packet, has_type,
}
use msys_hal.Mipc.Packet.Inverse.{encode_packet-decode_packet}
use msys_hal.Mipc.Line.{
  chunk, recv, ends_line, strip_lines, limit_of, received, recv_loop, decode_line, read_line,
  recv_line,
}

abbrev pub flat : List Bytes → Bytes
flat [] = []
flat (p ∷ ps) = p ++ flat ps

-- No piece is empty.
abbrev pub IsPiece : Bytes → Type 0
IsPiece p = 0 < length p

abbrev IsInLine : ℕ → Type 0
IsInLine b = b ≢ newline

module _ {ℓ} {A : Type ℓ} where
  take-all : (n : ℕ) (xs : List A) → length xs ≤ n → take n xs ≡ xs
  take-all zero [] h = refl
  take-all (suc n) [] h = refl
  take-all zero (x ∷ xs) h = absurd (omega arith)
  take-all (suc n) (x ∷ xs) h = ap (λ ys. x ∷ ys) (take-all n xs (omega arith))

  take-drop : (n : ℕ) (xs : List A) → take n xs ++ drop n xs ≡ xs
  take-drop zero xs = refl
  take-drop (suc n) [] = refl
  take-drop (suc n) (x ∷ xs) = ap (λ ys. x ∷ ys) (take-drop n xs)

-- A piece begins to be received: at least a byte, and what is left is in pieces again.
recv-pieces :
    (n b : ℕ) (bs : Bytes) (ps : List Bytes)
    → All IsPiece ps
    → (c : ℕ) × (cs : Bytes) × (qs : List Bytes) × (recv (suc n) (map chunk ((b ∷ bs) ∷ ps))
        ≡ (ok (c ∷ cs), map chunk qs))
      × ((c ∷ cs) ++ flat qs ≡ (b ∷ bs) ++ flat ps)
      × All IsPiece qs
unfolding recv
recv-pieces n b bs ps h = elim (Bool-cases (leb (length (b ∷ bs)) (suc n))) [
  | inl whole ↦ (
    b,
    bs,
    ps,
    rw whole (ap (λ l. (ok (b ∷ l), map chunk ps)) (take-all n bs (ground arith))),
    refl,
    h,
  )
  | inr part ↦ (
    b,
    take n bs,
    drop n bs ∷ ps,
    rw part refl,
    sym (append_assoc (b ∷ take n bs) (drop n bs) (flat ps))
        ∙ ap (λ l. (b ∷ l) ++ flat ps) (take-drop n bs),
    (ground (arith, length-drop n bs), h),
  )
]

-- What stands in front of the rest of a line has no line feed.
front-InLine :
    (front rest packet : Bytes)
    → All IsInLine packet
    → front ++ rest ≡ packet ++ newline ∷ []
    → 0 < length rest
    → All IsInLine front
front-InLine [] rest packet h e more = tt
front-InLine (f ∷ front) rest [] h e more = absurd (
    let l : length (f ∷ front ++ rest) ≡ 1 = ap length e in omega (arith, length-append front rest))
front-InLine (f ∷ front) rest (p ∷ packet) h e more =
    let heads : p ≡ f = cc in
    let tails : front ++ rest ≡ packet ++ newline ∷ [] = cc in
    (subst IsInLine heads h.0, front-InLine front rest packet h.1 tails more)

ends_line-InLine : (bs : Bytes) → All IsInLine bs → ends_line bs ≡ false
unfolding ends_line
ends_line-InLine [] h = refl
ends_line-InLine (b ∷ []) h = ground (arith, nat_beq_iff b newline)
ends_line-InLine (b ∷ c ∷ bs) h = ends_line-InLine (c ∷ bs) h.1

ends_line-newline : (bs : Bytes) → ends_line (bs ++ newline ∷ []) ≡ true
unfolding ends_line
ends_line-newline [] = refl
ends_line-newline (b ∷ []) = refl
ends_line-newline (b ∷ c ∷ bs) = ends_line-newline (c ∷ bs)

strip_lines-newline : (bs : Bytes) → All IsInLine bs → strip_lines (bs ++ newline ∷ []) ≡ bs
unfolding strip_lines
strip_lines-newline [] h = refl
strip_lines-newline (b ∷ bs) h =
    rw (strip_lines-newline bs h.1) (ground (arith, nat_beq_iff b newline))

-- The loop over the pieces of a line.
recv_loop-pieces :
    (rounds : ℕ) (so_far packet : Bytes) (ps : List Bytes)
    → All IsInLine packet
    → length packet < max_packet
    → All IsPiece ps
    → so_far ++ flat ps ≡ packet ++ newline ∷ []
    → length (flat ps) < rounds
    → recv_loop rounds so_far (map chunk ps) ≡ (some (ok (packet ++ newline ∷ [])), [])
unfolding recv_loop
recv_loop-pieces zero so_far packet ps h short pieces e enough = absurd (omega arith)
recv_loop-pieces (suc rounds) so_far packet [] h short pieces e enough =
    let whole : so_far ≡ packet ++ newline ∷ [] = sym (append-nil so_far) ∙ e in
    rw (whole, ends_line-newline packet) refl
recv_loop-pieces (suc rounds) so_far packet ([] ∷ ps) h short pieces e enough = absurd (omega arith)
recv_loop-pieces (suc rounds) so_far packet ((b ∷ bs) ∷ ps) h short pieces e enough =
    let sizes : length so_far + length ((b ∷ bs) ++ flat ps) ≡ length packet + 1 =
      sym (length-append so_far ((b ∷ bs) ++ flat ps))
      ∙ ap length e
      ∙ length-append packet (newline ∷ []) in
    let open_ =
      ends_line-InLine so_far
        (front-InLine so_far ((b ∷ bs) ++ flat ps) packet h e (omega arith)) in
    let limit : limit_of so_far ≡ suc (limit_of so_far - 1) = omega arith in
    let (c, cs, qs, got, same, rest) = recv-pieces (limit_of so_far - 1) b bs ps pieces.1 in
    let joined : (so_far ++ c ∷ cs) ++ flat qs ≡ packet ++ newline ∷ [] =
      append_assoc so_far (c ∷ cs) (flat qs) ∙ ap (λ l. so_far ++ l) same ∙ e in
    let got' =
      subst (λ n. recv n (map chunk ((b ∷ bs) ∷ ps)) ≡ (ok (c ∷ cs), map chunk qs)) (sym limit)
        got in
    let after : length (so_far ++ c ∷ cs) + length (flat qs) ≡ length packet + 1 =
      sym (length-append (so_far ++ c ∷ cs) (flat qs))
      ∙ ap length joined
      ∙ length-append packet (newline ∷ []) in
    rw (open_, got', received, le→ltb (length (so_far ++ c ∷ cs)) max_packet (omega arith))
      (recv_loop-pieces rounds (so_far ++ c ∷ cs) packet qs h short rest joined
        (omega (arith, length-append so_far (c ∷ cs))))

decode_line-newline :
    (codec : Codec) (packet : Bytes)
    → All IsInLine packet
    → decode_line codec (packet ++ newline ∷ []) ≡ decode_packet codec packet
unfolding decode_line
decode_line-newline codec [] h = ap (decode_packet codec) (strip_lines-newline [] h)
decode_line-newline codec (b ∷ bs) h = ap (decode_packet codec) (strip_lines-newline (b ∷ bs) h)

-- A line is read whole, however it is cut up: the packet of a message with a type and a line feed,
-- received in pieces of any sizes, none of them empty, is the message again, and nothing is left to
-- receive, if `json` behaves on the message as it should.
pub recv_line-pieces :
    (codec : Codec) (message : Value) (packet : Bytes) (ps : List Bytes)
    → IsJson codec message
    → has_type message ≡ true
    → encode_packet codec message ≡ ok packet
    → All IsPiece ps
    → flat ps ≡ packet ++ newline ∷ []
    → recv_line codec (map chunk ps) ≡ (some (ok message), [])
unfolding recv_line read_line
recv_line-pieces codec message packet ps json typed e pieces line =
    let (same, some_byte, short, back) =
      encode_packet-decode_packet codec message packet json typed e in
    let h : All IsInLine packet = subst (All IsInLine) (sym same) json.one_line in
    let size : length (flat ps) ≡ length packet + 1 =
      ap length line ∙ length-append packet (newline ∷ []) in
    rw (recv_loop-pieces (max_packet + 2) [] packet ps h short pieces line (omega arith))
      (ap (λ r. (some r, [])) (decode_line-newline codec packet h ∙ back))
