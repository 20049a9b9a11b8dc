-- ===== src/Requests/Days.antt =====
-- internal/vulndbreqs/compute.go: the days that ComputeAndStore stores, and the rows of a day.
use pkgsite_metrics.Prelude.{
  ℕ, zero, suc, ◌+◌, ◌-◌, ◌≤◌, ◌<◌, ◌≡◌, refl, sym, subst, ◌∙◌, ap, true, List, Option, none, some,
  Text, text, ◌==◌, ==_iff, arith, Bool-cases, Option-cases, inl, inr,
}
use pkgsite_metrics.Derrors.{Err, Result, ok, err, wrap}
use pkgsite_metrics.Requests.{
  Date, start_date, Sources, Answers, Db, RequestCount, IpRequestCount, compute, compute_and_store,
  compute_and_store_date, compute_day, compute_days, have, write_to_big_query, store_counts,
  store_computed, none_if_empty,
}

module _ (s : Sources) (a : Date → Answers) (key : Text) where
  -- The rows that writing leaves: those that were there, and the new one if there is no error.
  store_counts-have :
      (x : Answers) (date : Date) (ircs : List IpRequestCount) (db : Db) (d : Date)
      → have db.requests d ≡ true
      → have (store_counts x date ircs db).0.requests d ≡ true
  unfolding write_to_big_query have
  store_counts-have x date ircs db d h = ground (arith, h)

  store_counts-new :
      (x : Answers) (date : Date) (ircs : List IpRequestCount) (db : Db)
      → (store_counts x date ircs db).1 ≡ none
      → have (store_counts x date ircs db).0.requests date ≡ true
  unfolding write_to_big_query have wrap
  store_counts-new x date ircs db h = ground (arith, h)

  store_computed-have :
      (x : Answers) (date : Date) (r : Result (List IpRequestCount)) (db : Db) (d : Date)
      → have db.requests d ≡ true
      → have (store_computed x date r db).0.requests d ≡ true
  store_computed-have x date (ok r) db d h = store_counts-have x date (none_if_empty date r) db d h
  store_computed-have x date (err e) db d h = h

  store_computed-new :
      (x : Answers) (date : Date) (r : Result (List IpRequestCount)) (db : Db)
      → (store_computed x date r db).1 ≡ none
      → have (store_computed x date r db).0.requests date ≡ true
  store_computed-new x date (ok r) db h = store_counts-new x date (none_if_empty date r) db h
  store_computed-new x date (err e) db h = ground (arith, h)

  -- What was there stays there, in a day and in the loop.
  compute_day-have :
      (rcs : List RequestCount) (date : Date) (db : Db) (d : Date)
      → have db.requests d ≡ true
      → have (compute_day s a key rcs date db).0.requests d ≡ true
  unfolding compute_day compute_and_store_date
  compute_day-have rcs date db d h = elim (Bool-cases (have rcs date)) [
    | inl old ↦ rw old h
    | inr new ↦ rw new (store_computed-have (a date) date (compute s date key) db d h)
  ]

  compute_day-new :
      (rcs : List RequestCount) (date : Date) (db : Db)
      → (have rcs date ≡ true → have db.requests date ≡ true)
      → (compute_day s a key rcs date db).1 ≡ none
      → have (compute_day s a key rcs date db).0.requests date ≡ true
  unfolding compute_day compute_and_store_date
  compute_day-new rcs date db old h = elim (Bool-cases (have rcs date)) [
    | inl o ↦ rw o (old o)
    | inr n ↦ rw n (store_computed-new (a date) date (compute s date key) db (rw n at h))
  ]

  -- How a round goes on.
  compute_days_fails :
      (rcs : List RequestCount) (days : ℕ) (d : Date) (db : Db) {x : Err}
      → (compute_day s a key rcs d db).1 ≡ some x
      → compute_days s a key rcs (suc days) d db ≡ ((compute_day s a key rcs d db).0, some x)
  unfolding compute_days
  compute_days_fails rcs days d db e = rw (e, compute_days) refl

  compute_days_on :
      (rcs : List RequestCount) (days : ℕ) (d : Date) (db : Db)
      → (compute_day s a key rcs d db).1 ≡ none
      → compute_days s a key rcs (suc days) d db
        ≡ compute_days s a key rcs days (suc d) (compute_day s a key rcs d db).0
  unfolding compute_days
  compute_days_on rcs days d db e = rw (e, compute_days) refl

  compute_days-have :
      (rcs : List RequestCount) (days : ℕ) (from : Date) (db : Db) (d : Date)
      → have db.requests d ≡ true
      → have (compute_days s a key rcs days from db).0.requests d ≡ true
  unfolding compute_days
  compute_days-have rcs zero from db d h = h
  compute_days-have rcs (suc days) from db d h =
      elim (Option-cases (compute_day s a key rcs from db).1) [
        | inl e ↦
            rw (compute_days_on rcs days from db e)
              (compute_days-have rcs days (suc from) _ d (compute_day-have rcs from db d h))
        | inr (x, e) ↦ rw (compute_days_fails rcs days from db e) (compute_day-have rcs from db d h)
      ]

  -- A date from `from` on is stored by the round of `from`, or by a later one.
  round-have :
      (rcs : List RequestCount) (days : ℕ) (from : Date) (db : Db)
      → (have rcs from ≡ true → have db.requests from ≡ true)
      → (compute_day s a key rcs from db).1 ≡ none
      → (d : Date) → from ≤ d
      → (suc from ≤ d
          → have
              (compute_days s a key rcs days
                (suc from)
                (compute_day s a key rcs from db).0).0.requests
              d
            ≡ true)
      → have (compute_days s a key rcs (suc days) from db).0.requests d ≡ true
  round-have rcs days from db old e d l later =
      rw (compute_days_on rcs days from db e) (elim (Bool-cases (from == d)) [
        | inl same ↦
            subst
              (λ y.
                have
                  (compute_days s a key rcs days (suc from)
                    (compute_day s a key rcs from db).0).0.requests
                  y
                ≡ true)
              ((==_iff from d).0 same)
              (compute_days-have rcs days (suc from) (compute_day s a key rcs from db).0 from
                (compute_day-new rcs from db old e))
        | inr other ↦ later (ground arith)
      ])

  -- The days before `t` are stored, if each of them is without an error.
  compute_days-new :
      (rcs : List RequestCount) (days : ℕ) (from t : Date) (db : Db)
      → ((d : Date) → have rcs d ≡ true → have db.requests d ≡ true)
      → ((d : Date) (db : Db) → from ≤ d → d < t → (compute_day s a key rcs d db).1 ≡ none)
      → (d : Date) → from ≤ d
      → d < from + days
      → d < t
      → have (compute_days s a key rcs days from db).0.requests d ≡ true
  unfolding compute_days
  compute_days-new rcs zero from t db old fine d l u v = ground arith
  compute_days-new rcs (suc days) from t db old fine d l u v =
      round-have rcs days from db (old from) (fine from db (omega arith) (omega arith)) d l
        (λ after.
          compute_days-new rcs days (suc from) t (compute_day s a key rcs from db).0
            (λ d h. compute_day-have rcs from db d (old d h))
            (λ d now l. fine d now (omega (arith, l))) d after (omega arith) v)

  compute_days_complete :
      (rcs : List RequestCount) (days : ℕ) (from : Date) (db : Db)
      → ((d : Date) → have rcs d ≡ true → have db.requests d ≡ true)
      → (compute_days s a key rcs days from db).1 ≡ none
      → (d : Date) → from ≤ d
      → d < from + days
      → have (compute_days s a key rcs days from db).0.requests d ≡ true
  unfolding compute_days
  compute_days_complete rcs zero from db old h d l u = ground arith
  compute_days_complete rcs (suc days) from db old h d l u =
      elim (Option-cases (compute_day s a key rcs from db).1) [
        | inr (x, e) ↦ ground (arith, h, ap (λ p. p.1) (compute_days_fails rcs days from db e))
        | inl e ↦ round-have rcs days from db (old from) e d l (λ after.
            compute_days_complete rcs days (suc from) (compute_day s a key rcs from db).0
              (λ d h. compute_day-have rcs from db d (old d h))
              (sym (ap (λ p. p.1) (compute_days_on rcs days from db e)) ∙ h) d after (omega arith))
      ]

-- When ComputeAndStore returns without an error, the table of requests has a row for every date
-- from the first one on that is before today.
pub compute_and_store_complete :
    (s : Sources) (a : Date → Answers) (read : Option Err) (key : Text) (today : Date) (db : Db)
    → (compute_and_store s a read key today db).1 ≡ none
    → (d : Date) → start_date ≤ d
    → d < today
    → have (compute_and_store s a read key today db).0.requests d ≡ true
unfolding compute_and_store
compute_and_store_complete s a (some e) key today db h d l u = ground (arith, h)
compute_and_store_complete s a none key today db h d l u =
    compute_days_complete s a key db.requests (today - start_date) start_date db (λ d h. h) h d l
      (omega arith)

-- What a day needs to be stored: its counts can be computed and no call of BigQuery fails.
abbrev pub IsFine : Sources → Answers → Text → Date → Type 0
IsFine s x key d =
    (ircs : List IpRequestCount) × (compute s d key ≡ ok ircs)
    × (x.create_requests ≡ none)
    × (x.put_requests ≡ none)
    × (x.create_ip_requests ≡ none)
    × (x.put_ip_requests ≡ none)

fine_day :
    (s : Sources) (a : Date → Answers) (key : Text) (rcs : List RequestCount) (d : Date) (db : Db)
    → IsFine s (a d) key d
    → (compute_day s a key rcs d db).1 ≡ none
unfolding compute_day compute_and_store_date write_to_big_query wrap
fine_day s a key rcs d db (ircs, e, x, y, z, w) = elim (Bool-cases (have rcs d)) [
  | inl old ↦ rw old refl
  | inr new ↦ rw (new, e, x, y, z, w) refl
]

-- ComputeAndStore makes progress: when the table can be read and nothing fails for the dates from
-- the first one on that are before `t`, every one of them that is before today has a row when it returns, even if a later day fails.
pub compute_and_store_progress :
    (s : Sources) (a : Date → Answers) (key : Text) (today t : Date) (db : Db)
    → ((d : Date) → start_date ≤ d → d < t → IsFine s (a d) key d)
    → (d : Date) → start_date ≤ d
    → d < today
    → d < t
    → have (compute_and_store s a none key today db).0.requests d ≡ true
unfolding compute_and_store
compute_and_store_progress s a key today t db fine d l u v =
    compute_days-new s a key db.requests (today - start_date) start_date t db (λ d h. h)
      (λ d now l b. fine_day s a key db.requests d now (fine d l b)) d l (omega arith) v

-- When only the rows of the IPs of a day cannot be put, the day fails with its error, none of the
-- rows of its IPs is stored, and yet the day counts as stored: a later run, with whatever sources
-- and answers, does nothing for it.
pub compute_and_store_date_lost :
    (s later : Sources) (x : Answers) (a : Date → Answers) (key : Text) (d : Date) (db db' : Db)
    {ircs : List IpRequestCount} {e : Err}
    → compute s d key ≡ ok ircs
    → x.create_requests ≡ none
    → x.put_requests ≡ none
    → x.create_ip_requests ≡ none
    → x.put_ip_requests ≡ some e
    → ((compute_and_store_date s x key d db).1 ≡ wrap (text "vulndbreqs.writeToBigQuery") (some e))
      × ((compute_and_store_date s x key d db).0.ip_requests ≡ db.ip_requests)
      × (compute_day later a key (compute_and_store_date s x key d db).0.requests d db'
          ≡ (db', none))
unfolding compute_and_store_date compute_day write_to_big_query have
compute_and_store_date_lost s later x a key d db db' c p q r w =
    (rw (c, p, q, r, w) refl, rw (c, p, q, r, w) refl, rw (c, p, q, r) (ground arith))
