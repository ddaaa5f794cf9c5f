-- ===== src/Radios/Network/Degraded.antt =====
-- `get_state` of `NetworkBackend` over `WpaSupplicantControl`, both of radios.py, while the supplicant
-- fails.
use msys_hal.Prelude.{
  String, List, [], ◌∷◌, Bool, true, false, ◌&&◌, starts_with, before, after, ◌≡◌, refl, ◌==◌,
  string_eq, if◌then◌else◌, Bool-cases, Option-cases, &&-split, inl, inr,
}
use mathlib.Core.Path.{subst}
use msys_hal.Json.{Value, Fields, end}
use msys_hal.Errors.{Exception, Result, ok, err, require, provider_error, ◌>>◌}
use msys_hal.Action.{Raises, Raises-bind, Raises-quiet, lift}
use msys_hal.Linux.{Sysfs, entry_re}
use msys_hal.Radios.{Unicode, device_name_of}
use msys_hal.Radios.Lines.{split_lines}
use msys_hal.Radios.Responses.{
  parse_status, scan_lines, parse_scan_results, network_lines, parse_networks,
}
use msys_hal.Radios.Control.Sockets.{
  Sockets, is_command, request, available, wpa_supplicant_control,
}
use msys_hal.Radios.Control.Sockets.Raised.{OnlyOs, IsDegrading, request-Raises}
use msys_hal.Radios.Network.{Surroundings, configured}
use msys_hal.Radios.Network.Requests.{entry_at, kind_of, values_at, reported, Report, is_degrading}
use msys_hal.Radios.Network.Backend.{read_report, wifi_state, state_by_kind, get_state}
use msys_hal.Radios.Network.Queries.{entry_at-name}

-- The backend over sockets.
unfoldable pub over_sockets :
    {S : Type 0} → Sockets S → Unicode → (S → Sysfs) → String → Surroundings S
over_sockets k u sysfs root = record {
  unicode = u;
  control = wpa_supplicant_control k u.replacing;
  sysfs = sysfs;
  root = root;
}

device_name_of-entry :
    (identifier domain name : String)
    → device_name_of identifier domain ≡ ok name
    → entry_re name ≡ true
unfolding device_name_of
device_name_of-entry identifier domain name h = elim (Option-cases (after b':' identifier)) [
  | inl missing ↦ absurd (let l = rw (missing, device_name_of) at h in cc)
  | inr (found, there) ↦ elim (Bool-cases (before b':' identifier == domain && entry_re found)) [
    | inl both ↦
        let l : ok found ≡ ok name = rw (there, both, device_name_of) at h in
        let same : found ≡ name = cc in
        subst (λ n. entry_re n ≡ true) same
          (&&-split (before b':' identifier == domain) (entry_re found) both).1
    | inr other ↦ absurd (let l = rw (there, other, device_name_of) at h in cc)
  ]
]

module _ (u : Unicode) where
  require-IsDegrading :
      {A : Type 0} (b : Bool) (message : String) (a : A) (e : Exception)
      → (require b (provider_error message end) >> ok a) ≡ err e
      → IsDegrading e
  unfolding is_degrading
  require-IsDegrading true message a e q = absurd cc
  require-IsDegrading false message a e q =
      let l : provider_error message end ≡ e = cc in subst IsDegrading l refl

  parse_status-IsDegrading :
      (response : String) (e : Exception) → parse_status u response ≡ err e → IsDegrading e
  unfolding parse_status
  parse_status-IsDegrading response e q =
      require-IsDegrading _ "wpa_supplicant status query failed" _ e q

  scan_lines-IsDegrading :
      (lines : List String) (e : Exception) → scan_lines u lines ≡ err e → IsDegrading e
  unfolding scan_lines is_degrading
  scan_lines-IsDegrading [] e q =
      let l : provider_error "wpa_supplicant scan-results query failed" end ≡ e = cc in
      subst IsDegrading l refl
  scan_lines-IsDegrading (header ∷ rest) e q =
      require-IsDegrading (starts_with header "bssid /") "wpa_supplicant scan-results query failed"
        _ e q

  network_lines-IsDegrading :
      (lines : List String) (e : Exception) → network_lines u lines ≡ err e → IsDegrading e
  unfolding network_lines is_degrading
  network_lines-IsDegrading [] e q =
      let l : provider_error "wpa_supplicant configured-network query failed" end ≡ e = cc in
      subst IsDegrading l refl
  network_lines-IsDegrading (header ∷ rest) e q =
      require-IsDegrading (starts_with header "network id /")
        "wpa_supplicant configured-network query failed" _ e q

module _ {S : Type 0} (k : Sockets S) (u : Unicode) (sysfs : S → Sysfs) (root : String)
    (only : OnlyOs k) where
  configured-Raises :
      (name : String)
      → entry_re name ≡ true
      → Raises IsDegrading (configured (over_sockets k u sysfs root) name)
  unfolding configured over_sockets wpa_supplicant_control parse_networks is_command
  configured-Raises name valid =
      Raises-bind (request k u.replacing name "LIST_NETWORKS") _
        (request-Raises k u.replacing only name "LIST_NETWORKS" valid refl)
        λ answer. Raises-quiet _ λ s e q. network_lines-IsDegrading u (split_lines answer) e q

  read_report-Raises :
      (name : String)
      → entry_re name ≡ true
      → Raises IsDegrading (read_report (over_sockets k u sysfs root) name)
  unfolding read_report over_sockets wpa_supplicant_control parse_scan_results is_command
  read_report-Raises name valid =
      Raises-bind (request k u.replacing name "STATUS") _
        (request-Raises k u.replacing only name "STATUS" valid refl)
        λ answer.
          Raises-bind (lift (parse_status u answer)) _
            (Raises-quiet _ λ s e q. parse_status-IsDegrading u answer e q)
            λ status.
              Raises-bind (request k u.replacing name "SCAN_RESULTS") _
                (request-Raises k u.replacing only name "SCAN_RESULTS" valid refl)
                λ scanned.
                  Raises-bind (lift (parse_scan_results u scanned)) _
                    (Raises-quiet _ λ s e q. scan_lines-IsDegrading u (split_lines scanned) e q)
                    λ scans.
                      Raises-bind (configured (over_sockets k u sysfs root) name) _
                        (configured-Raises name valid) λ networks. Raises-quiet _ λ s e q. absurd cc

  -- What is returned.
  IsReturned : Result Value × S → Type 0
  IsReturned x = (v : Value) × (x.0 ≡ ok v)

  reported-IsReturned :
      (name : String) (values : Fields) (r : Result Report)
      → ((e : Exception) → r ≡ err e → IsDegrading e)
      → (v : Value) × (reported name values r ≡ ok v)
  unfolding reported
  reported-IsReturned name values (ok r) h = (_, refl)
  reported-IsReturned name values (err e) h = rw (h e refl, if◌then◌else◌) (_, refl)

  wifi_state-IsReturned :
      (name : String) (values : Fields) (ready : Bool) (s : S)
      → entry_re name ≡ true
      → IsReturned (wifi_state (over_sockets k u sysfs root) name values ready s)
  unfolding wifi_state IsReturned
  wifi_state-IsReturned name values false s valid = (_, refl)
  wifi_state-IsReturned name values true s valid =
      reported-IsReturned name values _ ((read_report-Raises name valid).raises s)

  state_by_kind-IsReturned :
      (name kind : String) (values : Fields) (s : S)
      → entry_re name ≡ true
      → IsReturned (state_by_kind (over_sockets k u sysfs root) name kind values s)
  unfolding state_by_kind over_sockets wpa_supplicant_control available IsReturned
  state_by_kind-IsReturned name kind values s valid = elim (Bool-cases (kind == "wifi")) [
    | inl wifi ↦
        rw (wifi, if◌then◌else◌, valid, if◌then◌else◌)
          (wifi_state-IsReturned name values (k.is_socket name s) s valid)
    | inr other ↦ rw (other, if◌then◌else◌) (_, refl)
  ]

  -- If the calls on sockets raise nothing but `OSError`, `get_state` returns a state of every listed
  -- interface, whatever its supplicant answers or fails to answer.
  pub get_state-IsReturned :
      (identifier name : String) (s : S)
      → entry_at (over_sockets k u sysfs root) identifier s ≡ ok name
      → (v : Value) × ((get_state (over_sockets k u sysfs root) identifier s).0 ≡ ok v)
  unfolding get_state IsReturned
  get_state-IsReturned identifier name s h =
      let w = over_sockets k u sysfs root in
      let valid =
        device_name_of-entry identifier "network" name (entry_at-name w identifier s name h).0 in
      rw h (state_by_kind-IsReturned name (kind_of w name s) (values_at w name s) s valid)
