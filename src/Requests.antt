-- ===== src/Requests.antt =====
-- internal/vulndbreqs: the daily counts of the requests to the vulnerability database. Cloud
-- Logging, Cloud Storage, JSON, HMAC and BigQuery are fields of `Sources` and `Answers`. A date of
-- civil.Date is the number of its day, counted from 1970-01-01: AddDays(1) adds 1, and Before is <.
pub mod Counting
pub mod Storage
pub mod Days
mod Tests
use pkgsite_metrics.Prelude.{
  ℕ, zero, suc, ◌+◌, ◌-◌, Bool, true, false, ◌&&◌, ◌||◌, not, List, [], ◌∷◌, ◌++◌, map, Option,
  none, some, Text, text, text_eq, length, take, ltb, ◌==◌, if◌then◌else◌,
}
use pkgsite_metrics.Derrors.{Err, Result, ok, err, ◌>>=◌, plain, in_context, wrap}

abbrev pub Date : Type 0
Date = ℕ

-- 2023-01-01
abbrev pub start_date : Date
start_date = 19358

-- 2023-05-31
abbrev pub gcs_start_date : Date
gcs_start_date = 19508

pub record RequestCount : Type 0 where
  pub date : Date
  pub count : ℕ

pub record IpRequestCount : Type 0 where
  pub date : Date
  pub ip : Text
  pub count : ℕ

-- A logEntry: civil.DateOf of its time stamp, and the IP.
pub record LogEntry : Type 0 where
  pub date : Date
  pub remote_ip : Text

-- What the log iterators give one after the other: an entry, with the IP of its HTTP request if it
-- has one, the end of the quota, after which a new iterator goes on at the remembered token, or an
-- error. The end of the list is iterator.Done.
pub data Event : Type 0 where
  entry : Option Text → Event
  resource_exhausted : Event
  failed : Err → Event

pub record Sources : Type 0 where
  -- the hexadecimal HMAC of a text under a key
  pub hmac : Text → Text → Text
  pub log_client : Option Err
  pub log_events : Date → List Event
  pub storage_client : Option Err
  -- the names of the log objects of a date
  pub object_names : Date → Result (List Text)
  -- whether the goroutine of an object finds the context of ComputeAndStore ended, when it starts
  pub context_done : Text → Bool
  -- an object: an error to open it, or the entries that are decoded until its end or an error
  pub object : Text → Result (List LogEntry × Option Err)

pub obfuscate : Sources → Text → Text → Text
obfuscate s ip hmac_key = s.hmac hmac_key ip

-- A map from a key to a count, and `m[k]++`.
pub increment {ℓ} : {K : Type ℓ} → (K → K → Bool) → K → List (K × ℕ) → List (K × ℕ)
increment same k [] = (k, 1) ∷ []
increment same k ((l, n) ∷ m) =
    let rest = increment same k m in if same l k then (l, suc n) ∷ m else (l, n) ∷ rest

abbrev pub logged_ip : Sources → Text → Option Text → Text
logged_ip s hmac_key none = text "NONE"
logged_ip s hmac_key (some ip) = obfuscate s ip hmac_key

-- The loop of computeFromLogs, with `n` as it stands before the next entry. An event is one or more
-- rounds of Next: the loop reads on after each of them.
pub count_entries : Sources → Text → ℕ → ℕ → List Event → List (Text × ℕ) → Result (List (Text × ℕ))
count_entries s hmac_key limit n [] counts = ok counts
count_entries s hmac_key limit n (resource_exhausted ∷ events) counts =
    count_entries s hmac_key limit n events counts
count_entries s hmac_key limit n (failed e ∷ events) counts = err e
count_entries s hmac_key limit n (entry r ∷ events) counts =
    let counted = increment text_eq (logged_ip s hmac_key r) counts in
    let rest = count_entries s hmac_key limit (suc n) events counted in
    if ltb 0 limit && ltb limit (suc n) then ok counted else rest

pub map_to_count_slice : List (Text × ℕ) → Date → List IpRequestCount
map_to_count_slice [] date = []
map_to_count_slice ((ip, n) ∷ m) date =
    record { date = date; ip = ip; count = n } ∷ map_to_count_slice m date

pub compute_from_logs : Sources → Date → Text → ℕ → Result (List IpRequestCount)
compute_from_logs s date hmac_key limit =
    if ltb (length hmac_key) 16
    then err (plain (text "HMAC secret must be at least 16 bytes"))
    else elim s.log_client [
      | some e ↦ err e
      | none ↦ count_entries s hmac_key limit 1 (s.log_events date) [] >>= λ counts.
          ok (map_to_count_slice counts date)
    ]

-- The two maps that countLogsForObjects fills.
pub record Tally : Type 0 where
  pub by_date : List (Date × ℕ)
  pub by_ip : List (Text × ℕ)

-- The function `update`, on an entry whose IP is obfuscated.
pub update : Sources → Text → LogEntry → Tally → Tally
update s hmac_key e t = record {
  by_date = increment ◌==◌ e.date t.by_date;
  by_ip = increment text_eq (obfuscate s e.remote_ip hmac_key) t.by_ip;
}

pub read_json_log_entries : Sources → Text → List LogEntry → Tally → Tally
read_json_log_entries s hmac_key [] t = t
read_json_log_entries s hmac_key (e ∷ es) t =
    read_json_log_entries s hmac_key es (update s hmac_key e t)

abbrev read_object : Sources → Text → Result (List LogEntry × Option Err) → Tally → Result Tally
read_object s hmac_key (err e) t = err e
read_object s hmac_key (ok (es, none)) t = ok (read_json_log_entries s hmac_key es t)
read_object s hmac_key (ok (es, some e)) t = in_context (text "readJSONLogEntries") (err e)

-- The goroutines of countLogsForObjects. They add to the same maps under a lock, in an order that
-- changes no count; after an error, of any of them, the maps are not used. A goroutine that finds the
-- context ended leaves its object out, without an error.
pub read_objects : Sources → Text → List Text → Tally → Result Tally
read_objects s hmac_key [] t = ok t
read_objects s hmac_key (name ∷ names) t =
    (if s.context_done name then ok t else read_object s hmac_key (s.object name) t)
    >>= read_objects s hmac_key names

abbrev pub empty_tally : Tally
empty_tally = record { by_date = []; by_ip = [] }

pub count_logs_for_objects : Sources → Text → List Text → Result Tally
count_logs_for_objects s hmac_key [] = ok empty_tally
count_logs_for_objects s hmac_key (name ∷ names) =
    in_context (text "countLogsForObjects") (read_objects s hmac_key (name ∷ names) empty_tally)

pub present : Date → List (Date × ℕ) → Bool
present date [] = false
present date ((d, n) ∷ m) = d == date || present date m

abbrev first_files : ℕ → List Text → List Text
first_files max_files names =
    if ltb 0 max_files && ltb max_files (length names) then take max_files names else names

abbrev check_dates : Date → Tally → Result (List IpRequestCount)
check_dates date t =
    if not (length t.by_date == 1)
    then err (plain (text "got dates, want 1"))
    else if not (present date t.by_date)
    then err (plain (text "no data"))
    else ok (map_to_count_slice t.by_ip date)

pub compute_from_storage : Sources → Date → Text → ℕ → Result (List IpRequestCount)
compute_from_storage s date hmac_key max_files =
    in_context (text "computeFromStorage") (elim s.storage_client [
      | some e ↦ err e
      | none ↦ (do
        names ← in_context (text "objectNamesForDate") (s.object_names date)
        t ← count_logs_for_objects s hmac_key (first_files max_files names)
        check_dates date t)
    ])

pub compute : Sources → Date → Text → Result (List IpRequestCount)
compute s date hmac_key =
    if ltb date gcs_start_date
    then compute_from_logs s date hmac_key 0
    else compute_from_storage s date hmac_key 0

-- The two tables, the newest rows first.
pub record Db : Type 0 where
  pub requests : List RequestCount
  pub ip_requests : List IpRequestCount

-- The errors of creating each table and of the one Put that UploadMany makes with a chunk size of 0.
pub record Answers : Type 0 where
  pub create_requests : Option Err
  pub put_requests : Option Err
  pub create_ip_requests : Option Err
  pub put_ip_requests : Option Err

abbrev pub put_rows {ℓ} : {A : Type ℓ} → Option Err → List A → List A → List A
put_rows none new table = new ++ table
put_rows (some e) new table = table

-- writeToBigQuery: a step that fails is the last one.
abbrev put_ip_counts : Answers → List IpRequestCount → Db → Db × Option Err
put_ip_counts a ircs db = elim a.create_ip_requests [
  | some e ↦ (db, some e)
  | none ↦ (
    record db { ip_requests = put_rows a.put_ip_requests ircs db.ip_requests },
    a.put_ip_requests,
  )
]

abbrev put_counts : Answers → List RequestCount → List IpRequestCount → Db → Db × Option Err
put_counts a rcs ircs db = elim a.put_requests [
  | some e ↦ (db, some e)
  | none ↦ put_ip_counts a ircs (record db { requests = rcs ++ db.requests })
]

abbrev write_tables : Answers → List RequestCount → List IpRequestCount → Db → Db × Option Err
write_tables a rcs ircs db = elim a.create_requests [
  | some e ↦ (db, some e)
  | none ↦ put_counts a rcs ircs db
]

pub write_to_big_query : Answers → List RequestCount → List IpRequestCount → Db → Db × Option Err
write_to_big_query a rcs ircs db =
    let (db', e) = write_tables a rcs ircs db in (db', wrap (text "vulndbreqs.writeToBigQuery") e)

pub sum_counts : List IpRequestCount → ℕ
sum_counts [] = 0
sum_counts (rc ∷ rcs) = rc.count + sum_counts rcs

abbrev pub none_if_empty : Date → List IpRequestCount → List IpRequestCount
none_if_empty date [] = record { date = date; ip = text "NONE"; count = 0 } ∷ []
none_if_empty date (rc ∷ rcs) = rc ∷ rcs

abbrev pub store_counts : Answers → Date → List IpRequestCount → Db → Db × Option Err
store_counts a date ircs db =
    write_to_big_query a (record { date = date; count = sum_counts ircs } ∷ []) ircs db

abbrev pub store_computed : Answers → Date → Result (List IpRequestCount) → Db → Db × Option Err
store_computed a date (err e) db = (db, some e)
store_computed a date (ok ircs) db = store_counts a date (none_if_empty date ircs) db

pub compute_and_store_date : Sources → Answers → Text → Date → Db → Db × Option Err
compute_and_store_date s a hmac_key date db = store_computed a date (compute s date hmac_key) db

-- The map `have`: the query of ReadRequestCountsFromBigQuery gives a row for each date that has one.
pub have : List RequestCount → Date → Bool
have [] d = false
have (rc ∷ rcs) d = rc.date == d || have rcs d

-- The round of ComputeAndStore for a date; `rcs` are the rows that were read at its start.
pub compute_day :
    Sources → (Date → Answers) → Text → List RequestCount → Date → Db → Db × Option Err
compute_day s a hmac_key rcs d db =
    if have rcs d then (db, none) else compute_and_store_date s (a d) hmac_key d db

-- The loop from the date `d` on, which stands `days` days before today.
pub compute_days :
    Sources → (Date → Answers) → Text → List RequestCount → ℕ → Date → Db → Db × Option Err
compute_days s a hmac_key rcs zero d db = (db, none)
compute_days s a hmac_key rcs (suc days) d db =
    let (db', e) = compute_day s a hmac_key rcs d db in
    elim e [ some x ↦ (db', some x) | none ↦ compute_days s a hmac_key rcs days (suc d) db' ]

-- ComputeAndStore, with the error of ReadRequestCountsFromBigQuery.
pub compute_and_store : Sources → (Date → Answers) → Option Err → Text → Date → Db → Db × Option Err
compute_and_store s a (some e) hmac_key today db = (db, some e)
compute_and_store s a none hmac_key today db =
    compute_days s a hmac_key db.requests (today - start_date) start_date db
