-- ===== src/Manager/Inventory.antt =====
-- `inventory` of manager.py: for each domain the first provider that serves it, its devices, and the
-- routes from devices to providers.
pub mod Guarantee
pub mod Routes
pub mod Fallback
use msys_hal.Prelude.{
  ℕ, String, Bool, true, false, not, ◌&&◌, ◌||◌, Option, none, some, is_some, List, [], ◌∷◌, ◌++◌,
  if◌then◌else◌, ◌==◌, string_eq, prefix, sort_texts, unique,
}
use msys_hal.Prelude.Dict.{Dict, get, put, update}
use msys_hal.Errors.{error_text, Result, ok, err}
use msys_hal.Manager.State.{Candidate, Shared}
use msys_hal.Manager.Exec.{Exec, pure, raise, attempt, gets, modify, acquire, ◌>>=◌, ◌>>◌}
use msys_hal.Manager.Responses.{Device, Inventory}
use msys_hal.Manager.Probe.{probe_candidate}
use msys_hal.Manager.Catalog.{SelectionMode, manual, stale, automatic, refresh_catalog, ordered_for}

abbrev pub known_domains : List String
known_domains =
    "power" ∷ "thermal" ∷ "backlight" ∷ "display" ∷ "display-output" ∷ "input" ∷ "network"
    ∷ "bluetooth" ∷ []

-- A row of `domains` in the answer.
pub record InventoryRow : Type 0 where
  pub domain : String
  pub status : String
  pub reason : Option String
  pub selection : SelectionMode
  pub provider : Option String
  pub error : Option String

pub record ListedDevice : Type 0 where
  pub device : Device
  pub provider : String

pub record InventoryAnswer : Type 0 where
  pub revision : ℕ
  pub domains : List InventoryRow
  pub devices : List ListedDevice

-- What the loop over the domains builds up.
pub record Collected : Type 0 where
  pub rows : List InventoryRow
  pub devices : List ListedDevice
  pub routes : Dict String Candidate
  pub active : Dict String (Option String)

abbrev pub nothing_collected : Collected
nothing_collected = record { rows = []; devices = []; routes = []; active = [] }

abbrev pub is_manual : SelectionMode → Bool
is_manual manual = true
is_manual stale = false
is_manual automatic = false

-- What the loop over the candidates ends with: an inventory and its provider, or the errors.
pub data Choice : Type 0 where
  chosen : Inventory → Candidate → Choice
  nobody : List String → Choice

-- Behind the loop, the first inventory that was unavailable stands in.
abbrev pub settle_choice : Option (Inventory × Candidate) → List String → Choice
settle_choice none errors = nobody errors
settle_choice (some (inventory, candidate)) errors = chosen inventory candidate

abbrev first_of_two :
    Option (Inventory × Candidate) → Inventory → Candidate → Option (Inventory × Candidate)
first_of_two none inventory candidate = some (inventory, candidate)
first_of_two (some first) inventory candidate = some first

-- What the loop makes of one probe; `next` goes on with the next candidate.
judge_probe :
    SelectionMode
    → Option (Inventory × Candidate)
    → List String
    → Candidate
    → (Option (Inventory × Candidate) → List String → Exec Choice)
    → Result Inventory
    → Exec Choice
judge_probe mode unavailable errors candidate next (ok inventory) =
    if inventory.row.status == "unavailable" && not (is_manual mode)
    then next (first_of_two unavailable inventory candidate) errors
    else pure (chosen inventory candidate)
judge_probe mode unavailable errors candidate next (err e) =
    let errors' = errors ++ prefix 160 (error_text e) ∷ [] in
    if is_manual mode then pure (settle_choice unavailable errors') else next unavailable errors'

-- The loop over the candidates of a domain.
unfoldable pub try_candidates :
    SelectionMode
    → String
    → Option (Inventory × Candidate)
    → List String
    → List Candidate
    → Exec Choice
unfolding judge_probe
try_candidates mode domain unavailable errors [] = pure (settle_choice unavailable errors)
try_candidates mode domain unavailable errors (candidate ∷ rest) = do
  outcome ← attempt (probe_candidate candidate domain 5000)
  judge_probe mode unavailable errors candidate (λ u es. try_candidates mode domain u es rest)
      outcome

-- A device whose id has a route already is passed over.
unfoldable pub add_devices : Candidate → List Device → Collected → Collected
add_devices provider [] c = c
add_devices provider (d ∷ ds) c = add_devices provider ds (
    if is_some (get d.id c.routes) then c else record c {
      devices = c.devices ++ record { device = d; provider = provider.component } ∷ [];
      routes = put d.id provider c.routes;
    })

unfoldable pub collect_domain : String → SelectionMode → Candidate → Choice → Collected → Collected
unfolding add_devices
collect_domain domain mode first (chosen inventory provider) c =
    let row : InventoryRow = record {
      domain = inventory.row.domain;
      status = inventory.row.status;
      reason = inventory.row.reason;
      selection = mode;
      provider = some provider.component;
      error = none;
    } in
    add_devices provider inventory.devices (record c {
      rows = c.rows ++ row ∷ [];
      active = put domain (some provider.component) c.active;
    })
collect_domain domain mode first (nobody errors) c = record c {
  rows =
      c.rows
      ++ record {
        domain = domain;
        status = "unavailable";
        reason = some "provider-failed";
        selection = mode;
        provider = some first.component;
        error = some (elim errors [ [] ↦ "provider failed" | e ∷ es ↦ e ]);
      }
        ∷ [];
  active = put domain none c.active;
}

abbrev pub no_provider : String → SelectionMode → Collected → Collected
no_provider domain mode c = record c {
  rows =
      c.rows
      ++ record {
        domain = domain;
        status = "unavailable";
        reason = some "no-provider";
        selection = mode;
        provider = none;
        error = none;
      }
        ∷ [];
  active = put domain none c.active;
}

-- One round of the loop over the domains.
unfoldable pub collect_ordered :
    String → List Candidate → SelectionMode → Collected → Exec Collected
unfolding try_candidates collect_domain
collect_ordered domain [] mode c = pure (no_provider domain mode c)
collect_ordered domain (first ∷ rest) mode c = do
  choice ← try_candidates mode domain none [] (first ∷ rest)
  pure (collect_domain domain mode first choice c)

unfoldable pub collect_domains : List String → Collected → Exec Collected
unfolding collect_ordered
collect_domains [] c = pure c
collect_domains (domain ∷ rest) c = do
  (ordered, mode) ← ordered_for domain false
  c' ← collect_ordered domain ordered mode c
  collect_domains rest c'

abbrev pub all_domains : List Candidate → List String
all_domains [] = []
all_domains (c ∷ cs) = c.domains ++ all_domains cs

-- `sorted(set(KNOWN_DOMAINS) | {...})`
abbrev pub available_domains : List Candidate → List String
available_domains candidates = sort_texts (unique (known_domains ++ all_domains candidates))

abbrev or_all : Option (List String) → List Candidate → List String
or_all none candidates = available_domains candidates
or_all (some domains) candidates = domains

abbrev pub set_routes : Collected → Shared → Shared
set_routes c s = record s {
  device_routes = c.routes;
  active_providers = update c.active s.active_providers;
}

-- `inventory`
unfoldable pub inventory : Option (List String) → Bool → Exec InventoryAnswer
unfolding collect_domains
inventory domains refresh = do
  candidates ← refresh_catalog refresh
  c ← collect_domains (or_all domains candidates) nothing_collected
  acquire
  modify (set_routes c)
  revision ← gets (λ s. s.revision)
  pure (record { revision = revision; domains = c.rows; devices = c.devices })
