-- ===== src/Requests/Storage.antt =====
-- internal/vulndbreqs/compute.go: what the counts of a date from the storage bucket add up to.
use pkgsite_metrics.Prelude.{
  ℕ, ◌≤◌, ◌≡◌, refl, sym, subst, ◌∙◌, true, ◌||◌, if◌then◌else◌, List, [], ◌∷◌, ◌++◌, map, none,
  some, Text, text, length, replicate, ◌==◌, arith, Bool-cases, Option-cases, inl, inr,
}
use pkgsite_metrics.Derrors.{
  Result-cases, ok, err, ◌>>=◌, in_context, ok-value, bind-ok, in_context-ok,
}
use pkgsite_metrics.Requests.{
  Date, LogEntry, Sources, obfuscate, increment, map_to_count_slice, IpRequestCount,
  compute_from_storage, Tally, update, read_json_log_entries, read_objects, count_logs_for_objects,
  empty_tally, present, check_dates,
}
use pkgsite_metrics.Requests.Counting.{Counts, Adds, Adds-cons, Adds-Counts, occurrences}

-- The entries of the objects that can be opened, less those left out since the context had ended.
pub stored : Sources → List Text → List LogEntry
stored s [] = []
stored s (name ∷ names) =
    let rest = stored s names in
    if s.context_done name
    then rest
    else elim (s.object name) [ ok (es, e) ↦ es ++ rest | err e ↦ rest ]

read_json_log_entries_append :
    (s : Sources) (key : Text) (es fs : List LogEntry) (t : Tally)
    → read_json_log_entries s key (es ++ fs) t
      ≡ read_json_log_entries s key fs (read_json_log_entries s key es t)
unfolding read_json_log_entries
read_json_log_entries_append s key [] fs t = refl
read_json_log_entries_append s key (e ∷ es) fs t =
    read_json_log_entries_append s key es fs (update s key e t)

read_objects-stored :
    (s : Sources) (key : Text) (names : List Text) (t t' : Tally)
    → read_objects s key names t ≡ ok t'
    → t' ≡ read_json_log_entries s key (stored s names) t
unfolding read_objects stored read_json_log_entries
read_objects-stored s key [] t t' h = sym (ok-value h)
read_objects-stored s key (name ∷ names) t t' h = elim (Bool-cases (s.context_done name)) [
  | inl done ↦ rw (done, stored) (read_objects-stored s key names t t' (rw done at h))
  | inr going ↦ elim (Result-cases (s.object name)) [
    | inl ((es, none), e) ↦
        let ih : t'
            ≡ read_json_log_entries s key (stored s names) (read_json_log_entries s key es t) =
          read_objects-stored s key names (read_json_log_entries s key es t) t'
            (rw (going, e) at h) in
        rw (going, e, stored) (ih ∙ sym (read_json_log_entries_append s key es (stored s names) t))
    | inl ((es, some x), e) ↦ ground (arith, rw (going, e) at h)
    | inr (x, e) ↦ ground (arith, rw (going, e) at h)
  ]
]

read_json_log_entries-Adds :
    (s : Sources) (key : Text) (date : Date) (es : List LogEntry) (t : Tally)
    → Adds t.by_ip
        (read_json_log_entries s key es t).by_ip
        date
        (map (λ e. obfuscate s e.remote_ip key) es)
unfolding read_json_log_entries occurrences update
read_json_log_entries-Adds s key date [] t = ((λ ip. omega arith), omega arith)
read_json_log_entries-Adds s key date (e ∷ es) t =
    Adds-cons t.by_ip _ date _ _ (read_json_log_entries-Adds s key date es (update s key e t))

present-increment :
    (d k : Date) (m : List (Date × ℕ)) → present d (increment ◌==◌ k m) ≡ (k == d || present d m)
unfolding present increment
present-increment d k [] = refl
present-increment d k ((l, n) ∷ m) = ground (arith, present-increment d k m)

-- Every date that was present, and the date of every entry, is present at the end.
still_present :
    (s : Sources) (key : Text) (d : Date) (es : List LogEntry) (t : Tally)
    → present d t.by_date ≡ true
    → present d (read_json_log_entries s key es t).by_date ≡ true
unfolding read_json_log_entries update
still_present s key d [] t h = h
still_present s key d (e ∷ es) t h =
    still_present s key d es (update s key e t)
      (ground (arith, present-increment d e.date t.by_date, h))

-- All entries are of one date.
abbrev pub IsOn : Date → List LogEntry → Type 0
IsOn date es = map (λ e. e.date) es ≡ replicate (length es) date

only_one :
    (m : List (Date × ℕ)) (a b : Date)
    → length m ≡ 1
    → present a m ≡ true
    → present b m ≡ true
    → a ≡ b
unfolding present
only_one ((l, n) ∷ []) a b h p q = ground arith
only_one [] a b h p q = ground arith
only_one (x ∷ (y ∷ m)) a b h p q = ground arith

entries-IsOn :
    (s : Sources) (key : Text) (date : Date) (es : List LogEntry) (t : Tally)
    → length (read_json_log_entries s key es t).by_date ≡ 1
    → present date (read_json_log_entries s key es t).by_date ≡ true
    → IsOn date es
unfolding read_json_log_entries update
entries-IsOn s key date [] t h p = refl
entries-IsOn s key date (e ∷ es) t h p =
    let own =
      still_present s key e.date es (update s key e t)
        (ground (arith, present-increment e.date e.date t.by_date)) in
    let e1 = only_one _ e.date date h own p in
    let rest = entries-IsOn s key date es (update s key e t) h p in cc (e1, rest)

check_dates-Tallied :
    (date : Date) (t : Tally) {rcs : List IpRequestCount}
    → check_dates date t ≡ ok rcs
    → (length t.by_date ≡ 1)
      × (present date t.by_date ≡ true)
      × (map_to_count_slice t.by_ip date ≡ rcs)
check_dates-Tallied date t h = elim (Bool-cases (length t.by_date == 1)) [
  | inr n ↦ ground (arith, rw n at h)
  | inl one ↦ elim (Bool-cases (present date t.by_date)) [
    | inr n ↦ ground (arith, rw (one, n) at h)
    | inl p ↦ (ground arith, p, ok-value (rw (one, p) at h))
  ]
]

Tallied-Counts :
    (s : Sources) (key : Text) (date : Date) (es : List LogEntry) {rcs : List IpRequestCount}
    → check_dates date (read_json_log_entries s key es empty_tally) ≡ ok rcs
    → (1 ≤ length es) × IsOn date es × Counts rcs (map (λ e. obfuscate s e.remote_ip key) es)
unfolding read_json_log_entries
Tallied-Counts s key date [] h = ground (arith, check_dates-Tallied date empty_tally h)
Tallied-Counts s key date (e ∷ es) h =
    let (one, p, same) = check_dates-Tallied date _ h in
    (
      ground arith,
      entries-IsOn s key date (e ∷ es) empty_tally one p,
      rw (sym same)
          (Adds-Counts _ date _ (read_json_log_entries-Adds s key date (e ∷ es) empty_tally)),
    )

count_logs_for_objects-stored :
    (s : Sources) (key : Text) (names : List Text) {t : Tally}
    → count_logs_for_objects s key names ≡ ok t
    → t ≡ read_json_log_entries s key (stored s names) empty_tally
unfolding count_logs_for_objects stored read_json_log_entries
count_logs_for_objects-stored s key [] h = sym (ok-value h)
count_logs_for_objects-stored s key (name ∷ names) {t} h =
    read_objects-stored s key (name ∷ names) empty_tally t
      (in_context-ok (text "countLogsForObjects") _ h)

-- When computeFromStorage succeeds for a date, take the entries of the objects of the date, without
-- the objects whose goroutines found the context ended, which are left out although no error is
-- returned. There is at least one such entry and each is of the date; each is counted once for its
-- obfuscated IP, and the counts add up to the number of the entries.
pub compute_from_storage-Counts :
    (s : Sources) (date : Date) (key : Text) {rcs : List IpRequestCount}
    → compute_from_storage s date key 0 ≡ ok rcs
    → (names : List Text) × (s.object_names date ≡ ok names)
      × (1 ≤ length (stored s names))
      × IsOn date (stored s names)
      × Counts rcs (map (λ e. obfuscate s e.remote_ip key) (stored s names))
unfolding compute_from_storage
compute_from_storage-Counts s date key {rcs} h = elim (Option-cases s.storage_client) [
  | inr (e, c) ↦ ground (arith, rw c at h)
  | inl c ↦
      let (names, e, g) =
        bind-ok (in_context (text "objectNamesForDate") (s.object_names date))
          (λ names. count_logs_for_objects s key names >>= check_dates date)
          (in_context-ok (text "computeFromStorage") _ (rw c at h)) in
      let (t, a, b) = bind-ok (count_logs_for_objects s key names) (check_dates date) g in
      let (some_entry, same_date, counts) = Tallied-Counts s key date (stored s names) (
        subst (λ t. check_dates date t ≡ ok rcs) (count_logs_for_objects-stored s key names a) b) in
      (names, in_context-ok (text "objectNamesForDate") _ e, some_entry, same_date, counts)
]
