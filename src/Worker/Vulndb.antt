-- ===== src/Worker/Vulndb.antt =====
-- internal/worker/vulndb.go: handleVulnDB, which adds the entries of the vulnerability database that
-- were modified to their table, and handleComputeRequests. Cloud Storage, JSON and BigQuery are fields of `Sources`.
pub mod Again
mod Tests
use pkgsite_metrics.Prelude.{
  ℕ, Bool, true, false, not, ◌&&◌, ◌||◌, List, [], ◌∷◌, ◌++◌, Option, none, some, Text, text,
  text_eq, has_suffix, ◌==◌, if◌then◌else◌,
}
use pkgsite_metrics.Derrors.{Err, Result, ok, err, wrap, ◌>>=◌, in_context}
use pkgsite_metrics.Osv
use pkgsite_metrics.Osv.{Time}
use pkgsite_metrics.Requests
use pkgsite_metrics.Vulndb.{Entry, convert}

pub record Sources : Type 0 where
  pub dataset : Option Err
  pub storage_client : Option Err
  pub create_table : Option Err
  -- the rows that the query for the most recent row of each ID gives for a table
  pub most_recent : List Entry → Result (List Entry)
  -- what the iterator over the objects of the bucket gives, and the entry of an object
  pub object_names : List (Result Text)
  pub read_entry : Text → Result Osv.Entry
  pub upload : Entry → Option Err

abbrev pub is_entry : Text → Bool
is_entry name = not (not (has_suffix name (text ".json")) || has_suffix name (text "index.json"))

pub all_vulnerabilities : Sources → List (Result Text) → Result (List Osv.Entry)
all_vulnerabilities s [] = ok []
all_vulnerabilities s (err e ∷ names) = err e
all_vulnerabilities s (ok name ∷ names) =
    let rest = all_vulnerabilities s names in
    if not (is_entry name) then rest else s.read_entry name >>= λ e. (rest >>= λ es. ok (e ∷ es))

abbrev converted : List Osv.Entry → List Entry
converted [] = []
converted (oe ∷ oes) = convert oe ∷ converted oes

pub vulndb_entries : Sources → Result (List Entry)
vulndb_entries s = all_vulnerabilities s s.object_names >>= λ oes. ok (converted oes)

abbrev pub after_error {ℓ} : {A : Type ℓ} → Option Err → Result A → Result A
after_error none r = r
after_error (some e) r = err e

pub read_most_recent_db : Sources → List Entry → Result (List Entry)
read_most_recent_db s table =
    in_context (text "ReadMostRecentDB") (after_error s.create_table (s.most_recent table))

-- The map of lastModified: the last row of an ID counts.
unfoldable pub last_modified_of : Text → List Entry → Option Time
last_modified_of id [] = none
last_modified_of id (e ∷ es) = elim (last_modified_of id es) [
  | some t ↦ some t
  | none ↦ if text_eq e.id id then some e.modified_time else none
]

abbrev pub is_at : Option Time → Time → Bool
is_at none t = false
is_at (some u) t = t == u

-- The loop of handleVulnDB, with the rows of the table behind it.
pub store_entries : Sources → List Entry → List Entry → List Entry → List Entry × Option Err
store_entries s recent [] table = (table, none)
store_entries s recent (e ∷ es) table =
    let skipped = store_entries s recent es table in
    let stored = store_entries s recent es (e ∷ table) in
    if is_at (last_modified_of e.id recent) e.modified_time
    then skipped
    else elim (s.upload e) [ some x ↦ (table, some x) | none ↦ stored ]

abbrev with_entries :
    Sources → List Entry → Result (List Entry) → Result (List Entry) → List Entry × Option Err
with_entries s table (err e) entries = (table, some e)
with_entries s table (ok recent) (err e) = (table, some e)
with_entries s table (ok recent) (ok entries) = store_entries s recent entries table

abbrev pub with_clients : Sources → List Entry → Option Err → Option Err → List Entry × Option Err
with_clients s table (some e) storage = (table, some e)
with_clients s table none (some e) = (table, some e)
with_clients s table none none =
    with_entries s table (read_most_recent_db s table) (vulndb_entries s)

pub handle_vuln_db : Sources → List Entry → List Entry × Option Err
handle_vuln_db s table =
    let (next, e) = with_clients s table s.dataset s.storage_client in
    (next, wrap (text "handleVulnDB") e)

-- handleComputeRequests, with the error of its client and the key of the secret manager.
pub handle_compute_requests :
    Option Err
    → Result Text
    → Requests.Sources
    → (Requests.Date → Requests.Answers)
    → Option Err
    → Requests.Date
    → Requests.Db
    → Requests.Db × Option Err
handle_compute_requests (some e) key s a read today db =
    (db, wrap (text "handleComputeRequests") (some e))
handle_compute_requests none (err e) s a read today db =
    (db, wrap (text "handleComputeRequests") (some e))
handle_compute_requests none (ok key) s a read today db =
    let (next, e) = Requests.compute_and_store s a read key today db in
    (next, wrap (text "handleComputeRequests") e)
