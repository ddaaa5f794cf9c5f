-- ===== src/Radios/Responses/Bounds.antt =====
-- What the parsers of wpa_supplicant's answers let through.
use msys_hal.Prelude.{
  inl, inr, ◌≤◌, ◌≡◌, refl, String, Bool, true, false, some, List, [], ◌∷◌, All, take, length,
  length-take-le, all_chars, len, arith, leb, leb→le, ◌&&◌, &&-split, Option-cases, starts_with,
}
use mathlib.Core.Path.{subst}
use msys_hal.Errors.{ok, require, >>=-eq-ok}
use msys_hal.Radios.{Unicode}
use msys_hal.Radios.Lines.{split_lines, split_max, utf8, is_address, is_number}
use msys_hal.Radios.Responses.{
  Scan, scan_fields, scan_loop, scan_lines, parse_scan_results, Network, network_fields,
  network_loop, network_lines, parse_networks, some_when, number,
}

-- A configured network within its bounds, its texts printable.
pub record IsNetwork (u : Unicode) (n : Network) : Type 0 where
  pub id_bound : n.network_id ≤ 4095
  pub ssid_bound : length (utf8 n.ssid) ≤ 128
  pub bssid_bound : len n.bssid ≤ 64
  pub flags_bound : len n.flags ≤ 192
  pub ssid_printable : all_chars u.is_printable n.ssid ≡ true
  pub bssid_printable : all_chars u.is_printable n.bssid ≡ true
  pub flags_printable : all_chars u.is_printable n.flags ≡ true

-- A cell of a scan within its bounds, its texts printable.
pub record IsScan (u : Unicode) (s : Scan) : Type 0 where
  pub ssid_bound : length (utf8 s.ssid) ≤ 128
  pub flags_bound : len s.flags ≤ 192
  pub ssid_printable : all_chars u.is_printable s.ssid ≡ true
  pub flags_printable : all_chars u.is_printable s.flags ≡ true

some_when-eq-some :
    {A : Type 0} (b : Bool) {a x : A} → some_when b a ≡ some x → (b ≡ true) × (a ≡ x)
some_when-eq-some true h = (refl, cc)
some_when-eq-some false h = absurd cc

module _ (u : Unicode) where
  network_fields-IsNetwork :
      (fields : List String) (n : Network) → network_fields u fields ≡ some n → IsNetwork u n
  unfolding network_fields
  network_fields-IsNetwork (number_text ∷ ssid ∷ bssid ∷ flags ∷ []) n h =
      let (t, same) = some_when-eq-some _ h in
      let (t1, t2) = &&-split (is_number 4 number_text) _ t in
      let (small, t3) = &&-split (leb (number number_text) 4095) _ t2 in
      let (sizes, t4) =
        &&-split (leb (length (utf8 ssid)) 128 && (leb (len bssid) 64 && leb (len flags) 192)) _
          t3 in
      let (size1, sizes2) = &&-split (leb (length (utf8 ssid)) 128) _ sizes in
      let (size2, size3) = &&-split (leb (len bssid) 64) _ sizes2 in
      let (print1, prints) = &&-split (all_chars u.is_printable ssid) _ t4 in
      let (print2, print3) = &&-split (all_chars u.is_printable bssid) _ prints in
      subst (IsNetwork u) same (record {
        id_bound = leb→le _ 4095 small;
        ssid_bound = leb→le _ 128 size1;
        bssid_bound = leb→le _ 64 size2;
        flags_bound = leb→le _ 192 size3;
        ssid_printable = print1;
        bssid_printable = print2;
        flags_printable = print3;
      })
  network_fields-IsNetwork _ n h = absurd cc

  network_loop-IsNetwork :
      (lines : List String)
      → (length (network_loop u lines) ≤ length lines) × All (IsNetwork u) (network_loop u lines)
  unfolding network_loop
  network_loop-IsNetwork [] = (omega arith, tt)
  network_loop-IsNetwork (line ∷ rest) =
      let (size, more) = network_loop-IsNetwork rest in
      elim (Option-cases (network_fields u (split_max b'\t' 3 line))) [
        | inl none_here ↦ rw (none_here, network_loop) (omega (arith, size), more)
        | inr (n, here) ↦
            rw (here, network_loop) (omega (arith, size), (network_fields-IsNetwork _ n here, more))
      ]

  network_lines-IsNetwork :
      (lines : List String) (networks : List Network)
      → network_lines u lines ≡ ok networks
      → (length networks ≤ 16) × All (IsNetwork u) networks
  unfolding network_lines
  network_lines-IsNetwork [] networks h = absurd cc
  network_lines-IsNetwork (header ∷ rest) networks h =
      let (one, e1, h1) = >>=-eq-ok (require (starts_with header "network id /") _) _ h in
      let same : network_loop u (take 16 rest) ≡ networks = cc in
      let (size, every) = network_loop-IsNetwork (take 16 rest) in
      subst (λ ns. (length ns ≤ 16) × All (IsNetwork u) ns) same
        (omega (arith, size, length-take-le 16 rest), every)

  -- Whatever is answered to `LIST_NETWORKS`, at most 16 networks are read from it, with numbers of at
  -- most 4095 and texts within their bounds and printable.
  pub parse_networks-IsNetwork :
      (response : String) (networks : List Network)
      → parse_networks u response ≡ ok networks
      → (length networks ≤ 16) × All (IsNetwork u) networks
  unfolding parse_networks
  parse_networks-IsNetwork response networks h =
      network_lines-IsNetwork (split_lines response) networks h

  scan_fields-IsScan :
      (fields : List String) (s : Scan) → scan_fields u fields ≡ some s → IsScan u s
  unfolding scan_fields
  scan_fields-IsScan (bssid ∷ frequency ∷ signal ∷ flags ∷ ssid ∷ []) s h =
      let (t, same) = some_when-eq-some _ h in
      let (t1, t2) = &&-split (is_address 5 5 bssid) _ t in
      let (t3, t4) = &&-split _ _ t2 in
      let (sizes, prints) = &&-split (leb (len flags) 192 && leb (length (utf8 ssid)) 128) _ t4 in
      let (size1, size2) = &&-split (leb (len flags) 192) _ sizes in
      let (print1, print2) = &&-split (all_chars u.is_printable flags) _ prints in
      subst (IsScan u) same (record {
        ssid_bound = leb→le _ 128 size2;
        flags_bound = leb→le _ 192 size1;
        ssid_printable = print2;
        flags_printable = print1;
      })
  scan_fields-IsScan _ s h = absurd cc

  scan_loop-IsScan :
      (lines : List String)
      → (length (scan_loop u lines) ≤ length lines) × All (IsScan u) (scan_loop u lines)
  unfolding scan_loop
  scan_loop-IsScan [] = (omega arith, tt)
  scan_loop-IsScan (line ∷ rest) =
      let (size, more) = scan_loop-IsScan rest in
      elim (Option-cases (scan_fields u (split_max b'\t' 4 line))) [
        | inl none_here ↦ rw (none_here, scan_loop) (omega (arith, size), more)
        | inr (s, here) ↦
            rw (here, scan_loop) (omega (arith, size), (scan_fields-IsScan _ s here, more))
      ]

  scan_lines-IsScan :
      (lines : List String) (scans : List Scan)
      → scan_lines u lines ≡ ok scans
      → (length scans ≤ 20) × All (IsScan u) scans
  unfolding scan_lines
  scan_lines-IsScan [] scans h = absurd cc
  scan_lines-IsScan (header ∷ rest) scans h =
      let (one, e1, h1) = >>=-eq-ok (require (starts_with header "bssid /") _) _ h in
      let same : scan_loop u (take 20 rest) ≡ scans = cc in
      let (size, every) = scan_loop-IsScan (take 20 rest) in
      subst (λ ss. (length ss ≤ 20) × All (IsScan u) ss) same
        (omega (arith, size, length-take-le 20 rest), every)

  -- Whatever is answered to `SCAN_RESULTS`, at most 20 cells are read from it, with texts within their
  -- bounds and printable.
  pub parse_scan_results-IsScan :
      (response : String) (scans : List Scan)
      → parse_scan_results u response ≡ ok scans
      → (length scans ≤ 20) × All (IsScan u) scans
  unfolding parse_scan_results
  parse_scan_results-IsScan response scans h = scan_lines-IsScan (split_lines response) scans h
