-- ===== src/Requests/Counting.antt =====
-- internal/vulndbreqs/compute.go: what the counts of a date add up to.
use pkgsite_metrics.Prelude.{
  ℕ, suc, ◌+◌, ◌≡◌, refl, sym, List, [], ◌∷◌, map, Option, Text, text_eq, text_eq_iff, length, ltb,
  if◌then◌else◌, arith, Bool-cases, Option-cases, inl, inr,
}
use pkgsite_metrics.Derrors.{ok, ok-value, bind-ok}
use pkgsite_metrics.Requests.{
  Date, Event, entry, resource_exhausted, failed, Sources, increment, count_entries, logged_ip,
  map_to_count_slice, IpRequestCount, sum_counts, compute_from_logs,
}

-- The number of log entries before the end of the log.
pub entries : List Event → List (Option Text)
entries [] = []
entries (entry r ∷ es) = r ∷ entries es
entries (_ ∷ es) = entries es

-- How often an IP occurs in a list, and what a list of counts has for an IP.
unfoldable pub occurrences : Text → List Text → ℕ
occurrences ip [] = 0
occurrences ip (x ∷ xs) = (if text_eq x ip then 1 else 0) + occurrences ip xs

unfoldable pub counted : Text → List IpRequestCount → ℕ
counted ip [] = 0
counted ip (rc ∷ rcs) = (if text_eq rc.ip ip then rc.count else 0) + counted ip rcs

increment-counted :
    (date : Date) (ip k : Text) (m : List (Text × ℕ))
    → counted ip (map_to_count_slice (increment text_eq k m) date)
      ≡ (if text_eq k ip then 1 else 0) + counted ip (map_to_count_slice m date)
unfolding counted increment map_to_count_slice
increment-counted date ip k [] = refl
increment-counted date ip k ((l, n) ∷ m) = elim (Bool-cases (text_eq l k)) [
  | inl same ↦ rw (same, (text_eq_iff l k).0 same, if◌then◌else◌) (ground arith)
  | inr other ↦ rw (other, if◌then◌else◌) (ground (arith, increment-counted date ip k m))
]

increment-sum :
    (date : Date) (k : Text) (m : List (Text × ℕ))
    → sum_counts (map_to_count_slice (increment text_eq k m) date)
      ≡ suc (sum_counts (map_to_count_slice m date))
unfolding sum_counts increment map_to_count_slice
increment-sum date k [] = refl
increment-sum date k ((l, n) ∷ m) = ground (arith, increment-sum date k m)

-- What a list of counts says of a list of IPs, each with one request.
abbrev pub Counts : List IpRequestCount → List Text → Type 0
Counts rcs ips = ((ip : Text) → counted ip rcs ≡ occurrences ip ips) × (sum_counts rcs ≡ length ips)

-- The same for a map that had counts before.
abbrev pub Adds : List (Text × ℕ) → List (Text × ℕ) → Date → List Text → Type 0
Adds m m' date ips =
    ((ip : Text)
      → counted ip (map_to_count_slice m' date)
        ≡ occurrences ip ips + counted ip (map_to_count_slice m date))
    × (sum_counts (map_to_count_slice m' date)
        ≡ length ips + sum_counts (map_to_count_slice m date))

pub Adds-cons :
    (m m' : List (Text × ℕ)) (date : Date) (k : Text) (ips : List Text)
    → Adds (increment text_eq k m) m' date ips
    → Adds m m' date (k ∷ ips)
unfolding occurrences
Adds-cons m m' date k ips (f, s) = (
  (λ ip. ground (arith, f ip, increment-counted date ip k m)),
  ground (arith, s, increment-sum date k m),
)

count_entries-Adds :
    (s : Sources) (key : Text) (n : ℕ) (es : List Event) (date : Date) (m m' : List (Text × ℕ))
    → count_entries s key 0 n es m ≡ ok m'
    → Adds m m' date (map (logged_ip s key) (entries es))
unfolding count_entries entries occurrences
count_entries-Adds s key n [] date m m' h = rw (sym (ok-value h)) ((λ ip. omega arith), omega arith)
count_entries-Adds s key n (resource_exhausted ∷ es) date m m' h =
    count_entries-Adds s key n es date m m' h
count_entries-Adds s key n (failed e ∷ es) date m m' h = ground (arith, h)
count_entries-Adds s key n (entry r ∷ es) date m m' h =
    Adds-cons m m' date (logged_ip s key r) (map (logged_ip s key) (entries es))
      (count_entries-Adds s key (suc n) es date (increment text_eq (logged_ip s key r) m) m' h)

pub Adds-Counts :
    (m : List (Text × ℕ)) (date : Date) (ips : List Text)
    → Adds [] m date ips
    → Counts (map_to_count_slice m date) ips
unfolding counted sum_counts map_to_count_slice
Adds-Counts m date ips (f, s) = ((λ ip. ground (arith, f ip)), ground (arith, s))

-- When computeFromLogs succeeds, each entry of the log of the date is counted once, for the
-- obfuscated IP of its request or for NONE: the count of every IP is the number of its entries, and
-- the counts add up to the number of entries, however often the quota ran out in between.
pub compute_from_logs-Counts :
    (s : Sources) (date : Date) (key : Text) {rcs : List IpRequestCount}
    → compute_from_logs s date key 0 ≡ ok rcs
    → Counts rcs (map (logged_ip s key) (entries (s.log_events date)))
unfolding compute_from_logs
compute_from_logs-Counts s date key h = elim (Bool-cases (ltb (length key) 16)) [
  | inl short ↦ ground (arith, rw short at h)
  | inr long ↦ elim (Option-cases s.log_client) [
    | inr (e, c) ↦ ground (arith, rw (long, c) at h)
    | inl c ↦
        let (m, e, g) =
          bind-ok (count_entries s key 0 1 (s.log_events date) [])
            (λ m. ok (map_to_count_slice m date)) (rw (long, c) at h) in
        rw (sym (ok-value g))
          (Adds-Counts m date _ (count_entries-Adds s key 1 (s.log_events date) date [] m e))
  ]
]
