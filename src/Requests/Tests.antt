-- ===== src/Requests/Tests.antt =====
-- Tests of the request counts, and the theorems about them at concrete inputs.
use pkgsite_metrics.Prelude.{
  text_eq, ◌==◌, if◌then◌else◌, subst, sym, ◌≡◌, ◌≤◌, ◌<◌, refl, true, false, List, [], ◌∷◌, Option,
  none, some, Text, text, map, length, arith,
}
use pkgsite_metrics.Derrors.{Err, ok, plain, wrap}
use pkgsite_metrics.Requests.{
  Date, start_date, gcs_start_date, LogEntry, Event, entry, resource_exhausted, Sources, Answers,
  Db, IpRequestCount, compute, compute_from_logs, compute_from_storage, compute_and_store,
  compute_and_store_date, compute_day, have, obfuscate, increment, count_entries,
  map_to_count_slice, read_objects, read_json_log_entries, update, count_logs_for_objects, present,
  compute_days, write_to_big_query, sum_counts,
}
use pkgsite_metrics.Requests.Counting.{Counts}
use pkgsite_metrics.Requests.Storage.{stored, IsOn, compute_from_storage-Counts}
use pkgsite_metrics.Requests.Days.{IsFine, compute_and_store_complete, compute_and_store_date_lost}

abbrev key : Text
key = text "0123456789abcdef"

abbrev events : List Event
events =
    entry (some (text "a"))
    ∷ resource_exhausted
    ∷ entry (some (text "b"))
    ∷ entry (some (text "a"))
    ∷ []

abbrev log_entry : Date → Text → LogEntry
log_entry d ip = record { date = d; remote_ip = ip }

abbrev sources : Sources
sources = record {
  hmac = λ k ip. ip;
  log_client = none;
  log_events = λ d. events;
  storage_client = none;
  object_names = λ d. ok (text "o" ∷ []);
  context_done = λ n. false;
  object = λ n.
      ok (log_entry gcs_start_date (text "a") ∷ log_entry gcs_start_date (text "a") ∷ [], none);
}

abbrev fine : Answers
fine = record {
  create_requests = none;
  put_requests = none;
  create_ip_requests = none;
  put_ip_requests = none;
}

abbrev refusal : Err
refusal = plain (text "no")

abbrev no_db : Db
no_db = record { requests = []; ip_requests = [] }

abbrev logged : List IpRequestCount
logged =
    record { date = start_date; ip = text "a"; count = 2 }
    ∷ record { date = start_date; ip = text "b"; count = 1 }
    ∷ []

logged_counts : compute_from_logs sources start_date key 0 ≡ ok logged
unfolding compute_from_logs count_entries increment obfuscate map_to_count_slice text_eq
logged_counts = refl

abbrev in_storage : List IpRequestCount
in_storage = record { date = gcs_start_date; ip = text "a"; count = 2 } ∷ []

storage_counts : compute_from_storage sources gcs_start_date key 0 ≡ ok in_storage
unfolding compute_from_storage count_logs_for_objects read_objects read_json_log_entries update
    increment obfuscate map_to_count_slice present text_eq
storage_counts = refl

compute_from_storage-Counts_example :
    (names : List Text) × (ok (text "o" ∷ []) ≡ ok names)
    × (1 ≤ length (stored sources names))
    × IsOn gcs_start_date (stored sources names)
    × Counts in_storage (map (λ e. obfuscate sources e.remote_ip key) (stored sources names))
compute_from_storage-Counts_example =
    compute_from_storage-Counts sources gcs_start_date key storage_counts

two_days : (compute_and_store sources (λ d. fine) none key 19360 no_db).1 ≡ none
unfolding compute_and_store compute_days compute_day compute_and_store_date compute
    compute_from_logs count_entries increment obfuscate map_to_count_slice text_eq
    write_to_big_query wrap have sum_counts
two_days = refl

compute_and_store_complete_example :
    have (compute_and_store sources (λ d. fine) none key 19360 no_db).0.requests 19359 ≡ true
compute_and_store_complete_example =
    compute_and_store_complete sources (λ d. fine) none key 19360 no_db two_days 19359
      (ground arith) (ground arith)

-- The second day fails.
abbrev first_only : Date → Answers
first_only d = if d == start_date then fine else record fine { put_requests = some refusal }

first_day : compute sources start_date key ≡ ok logged
unfolding compute
first_day = logged_counts

first-IsFine : (d : Date) → start_date ≤ d → d < 19359 → IsFine sources (first_only d) key d
first-IsFine d l u =
    subst (λ d. IsFine sources (first_only d) key d) (sym (omega arith))
      (logged, first_day, refl, refl, refl, refl)

abbrev ips_refused : Answers
ips_refused = record fine { put_ip_requests = some refusal }

abbrev lost : Db × Option Err
lost = compute_and_store_date sources ips_refused key start_date no_db

compute_and_store_date_lost_example :
    (lost.1 ≡ wrap (text "vulndbreqs.writeToBigQuery") (some refusal))
    × (lost.0.ip_requests ≡ [])
    × (compute_day sources (λ d. fine) key lost.0.requests start_date lost.0 ≡ (lost.0, none))
compute_and_store_date_lost_example =
    compute_and_store_date_lost sources sources ips_refused (λ d. fine) key start_date no_db lost.0
      first_day refl refl refl refl
