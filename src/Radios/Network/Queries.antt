-- ===== src/Radios/Network/Queries.antt =====
-- The queries that `get_state` of `NetworkBackend` in radios.py sends.
use msys_hal.Prelude.{
  String, Bool, true, false, Option, List, [], ◌∷◌, take, ℕ, suc, ◌≡◌, refl, ap, sym, ◌∙◌, inl, inr,
  ◌==◌, string_eq, member, Bool-cases,
}
use mathlib.Core.Path.{subst}
use mathlib.Core.List.{append-nil}
use msys_hal.Json.{Value, Fields}
use msys_hal.Errors.{Result, ok, Result-cases}
use msys_hal.Action.{Action, gets, ◌>>=◌}
use msys_hal.Radios.{device_name_of, class_entries}
use msys_hal.Radios.Responses.{parse_status, parse_scan_results}
use msys_hal.Radios.Network.{Surroundings, configured}
use msys_hal.Radios.Network.Requests.{entry_at, kind_of, values_at, mark}
use msys_hal.Radios.Network.Backend.{
  read_report, wifi_state, state_by_kind, get_state, finish_state,
}
use msys_hal.Radios.Network.Trace.{
  Logged, logged, logged_request, Trace, quiet, ask, read, bind, weaken, if-Trace,
}
use msys_hal.Radios.Network.Dialogue.{configured-Trace}

-- The queries of `get_state`.
abbrev pub queries : List String
queries = "STATUS" ∷ "SCAN_RESULTS" ∷ "LIST_NETWORKS" ∷ []

abbrev pub IsPrefix {ℓ} : {A : Type ℓ} → List String → List String → Result A → Type 0
IsPrefix steps cs r = (count : ℕ) × (cs ≡ take count steps)

module _ {S : Type 0} (w : Surroundings S) where
  query :
      (interface command : String) {A : Type 0} (f : String → Action (Logged S) A)
      {rest : List String} {s : S} {log : List (String × String)}
      → ((answer : String) (s' : S) (log' : List (String × String))
          → Trace interface (f answer) (IsPrefix rest) s' log')
      → Trace interface
          (logged_request w.control interface command >>= f)
          (IsPrefix (command ∷ rest))
          s
          log
  query interface command f more =
      bind (logged_request w.control interface command) f (ask w.control command) (λ cs e h. (1, h))
        λ cs answer s' log' h.
          weaken (more answer s' log') λ ds r p. (suc p.0, rw h (ap (◌∷◌ command) p.1))

  read_report-Trace :
      (name : String) (s : S) (log : List (String × String))
      → Trace name (read_report (logged w) name) (IsPrefix queries) s log
  unfolding read_report logged
  read_report-Trace name s log = query name "STATUS" _ λ answer s1 l1.
      read (λ x. parse_status w.unicode answer) _ (λ e q. (0, refl))
        λ status q. query name "SCAN_RESULTS" _ λ scanned s2 l2.
          read (λ x. parse_scan_results w.unicode scanned) _ (λ e q2. (0, refl))
            λ scans q2.
              bind (configured (logged w) name) _ (configured-Trace w name s2 l2)
                (λ cs e p. (1, p.0)) λ cs networks s3 l3 p. quiet (λ x. ok _) (1, rw p.0 refl)

  wifi_state-Trace :
      (name : String) (values : Fields) (ready : Bool) (s : S) (log : List (String × String))
      → Trace name (wifi_state (logged w) name values ready) (IsPrefix queries) s log
  unfolding wifi_state
  wifi_state-Trace name values false s log = quiet (λ x. ok _) (0, refl)
  wifi_state-Trace name values true s log =
      let t = read_report-Trace name s log in
      record { commands = t.commands; logs = t.logs; holds = t.holds }

  pub entry_at-name :
      (identifier : String) (s : S) (name : String)
      → entry_at w identifier s ≡ ok name
      → (device_name_of identifier "network" ≡ ok name)
        × (member name (class_entries (w.sysfs s) w.root 64) ≡ true)
  unfolding entry_at
  entry_at-name identifier s name h = elim (Result-cases (device_name_of identifier "network")) [
    | inr (e, q) ↦ absurd (let l = rw (q, entry_at) at h in cc)
    | inl (found, q) ↦ elim (Bool-cases (member found (class_entries (w.sysfs s) w.root 64))) [
      | inl there ↦
          let l : ok found ≡ ok name = rw (q, there, entry_at) at h in
          let same : found ≡ name = cc in
          (q ∙ l, subst (λ n. member n (class_entries (w.sysfs s) w.root 64) ≡ true) same there)
      | inr missing ↦ absurd (let l = rw (q, missing, entry_at) at h in cc)
    ]
  ]

  state_by_kind-Trace :
      (name kind : String) (values : Fields) (s : S) (log : List (String × String))
      → Trace name (state_by_kind (logged w) name kind values) (IsPrefix queries) s log
  unfolding state_by_kind logged
  state_by_kind-Trace name kind values s log =
      if-Trace (kind == "wifi")
        (λ wifi.
          read (λ x. w.control.available name x.0) _ (λ e q3. (0, refl))
            λ ready q3. wifi_state-Trace name values ready s log)
        λ other. quiet (λ x. ok _) (0, refl)

  -- `get_state` behind `_entry`.
  abbrev after_entry : String → Action (Logged S) Value
  after_entry name = gets (kind_of (logged w) name) >>= λ kind.
      gets (values_at (logged w) name) >>= λ values. state_by_kind (logged w) name kind values

  after_entry-Trace :
      (name : String) (s : S) (log : List (String × String))
      → Trace name (after_entry name) (IsPrefix queries) s log
  unfolding logged
  after_entry-Trace name s log =
      let t = state_by_kind-Trace name (kind_of w name s) (values_at w name s) s log in
      record { commands = t.commands; logs = t.logs; holds = t.holds }

  get_state-Trace :
      (identifier name : String) (s : S) (log : List (String × String))
      → device_name_of identifier "network" ≡ ok name
      → Trace name (get_state (logged w) identifier) (IsPrefix queries) s log
  unfolding get_state logged entry_at
  get_state-Trace identifier name s log named =
      read (λ x. entry_at w identifier x.0) _ (λ e q. (0, refl))
        λ found q.
          let same : found ≡ name =
            (let l : ok found ≡ ok name = sym (entry_at-name identifier s found q).0 ∙ named in
              cc) in
          subst (λ n. Trace n (after_entry found) (IsPrefix queries) s log) same
            (after_entry-Trace found s log)

  pub finish_state-Trace :
      (identifier name : String) (persisted : Option Bool) (s : S) (log : List (String × String))
      → device_name_of identifier "network" ≡ ok name
      → Trace name (finish_state (logged w) identifier persisted) (IsPrefix queries) s log
  unfolding finish_state
  finish_state-Trace identifier name persisted s log named =
      bind (get_state (logged w) identifier) _ (get_state-Trace identifier name s log named)
        (λ cs e p. p)
        λ cs state s1 l1 p. quiet (λ x. ok (mark persisted state)) (p.0, append-nil cs ∙ p.1)
