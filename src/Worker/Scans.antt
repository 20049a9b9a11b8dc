-- ===== src/Worker/Scans.antt =====
-- internal/worker/scan.go: the calls of doScan that run at once, the counter of active scans that
-- they share, and the cleaning of the Go caches. A step is one call's next operation on what the
-- calls share.
pub mod Counting
mod Tests
use pkgsite_metrics.Prelude.{
  ℕ, ◌+◌, ◌^◌, ◌%◌, ◌≡◌, ◌≢◌, Bool, true, false, length, not, ◌&&◌, List, [], ◌∷◌, ◌++◌, replicate,
  ◌-◌, if◌then◌else◌,
}

-- Where a call of doScan is: before `activeScans.Add(1)`, in `f`, in cleanGoCaches, or past its
-- deferred function. A panic of `f` runs the deferred function too.
pub data Phase : Type 0 where
  waiting scanning cleaning over : Phase

-- How many calls are in a phase: 1 for each one in `f`.
abbrev pub scans : Phase → ℕ
scans scanning = 1
scans waiting = 0
scans cleaning = 0
scans over = 0

abbrev pub cleans : Phase → ℕ
cleans cleaning = 1
cleans waiting = 0
cleans scanning = 0
cleans over = 0

abbrev pub sum : (Phase → ℕ) → List Phase → ℕ
sum w [] = 0
sum w (p ∷ ps) = w p + sum w ps

-- activeScans is an atomic.Int32: its bits, as a number below 2 ^ 32.
abbrev pub add_one : ℕ → ℕ
add_one n = (n + 1) % 2 ^ 32

abbrev pub subtract_one : ℕ → ℕ
subtract_one n = (n + (2 ^ 32 - 1)) % 2 ^ 32

-- The Go caches in their default places, which insecure scans fill, and those in the root of the
-- sandbox: how many scans began since they were last cleaned, whose files may be there.
pub record Caches : Type 0 where
  pub own : ℕ
  pub sandboxed : ℕ

abbrev pub scans_in : Bool → Caches → ℕ
scans_in true c = c.own
scans_in false c = c.sandboxed

abbrev pub after_scan : Bool → Caches → Caches
after_scan true c = record c { own = c.own + 1 }
after_scan false c = record c { sandboxed = c.sandboxed + 1 }

-- `clean_failures` counts the runs of `go clean` that failed.
pub record Scans : Type 0 where
  pub calls : List Phase
  pub active_scans : ℕ
  pub caches : Caches
  pub clean_failures : ℕ

abbrev pub clean_caches : Caches
clean_caches = record { own = 0; sandboxed = 0 }

unfoldable pub start : List Phase → Scans
start calls = record { calls = calls; active_scans = 0; caches = clean_caches; clean_failures = 0 }

-- cleanGoCaches runs `go clean`, unless the developer's own caches would be cleaned.
unfoldable pub cleans_caches : Bool → Bool → Bool
cleans_caches insecure on_cloud_run = not (insecure && not on_cloud_run)

-- A run of `go clean` that succeeds.
abbrev pub after_clean : Bool → Caches → Caches
after_clean true c = record c { own = 0 }
after_clean false c = record c { sandboxed = 0 }

abbrev pub after_cleaning : Bool → Bool → Caches → Caches
after_cleaning insecure on_cloud_run c =
    if cleans_caches insecure on_cloud_run then after_clean insecure c else c

-- `insecure` is the argument of each call, by its place in the list of the calls.
module _ (insecure : ℕ → Bool) (on_cloud_run : Bool) where
  pub data Step (s : Scans) : Scans → Type 0 where
    begins :
        (xs ys : List Phase)
        → s.calls ≡ xs ++ (waiting ∷ ys)
        → Step s (record s {
          calls = xs ++ (scanning ∷ ys);
          active_scans = add_one s.active_scans;
          caches = after_scan (insecure (length xs)) s.caches;
        })
    ends :
        (xs ys : List Phase)
        → s.calls ≡ xs ++ (scanning ∷ ys)
        → subtract_one s.active_scans ≢ 0
        → Step s
            (record s { calls = xs ++ (over ∷ ys); active_scans = subtract_one s.active_scans })
    ends_last :
        (xs ys : List Phase)
        → s.calls ≡ xs ++ (scanning ∷ ys)
        → subtract_one s.active_scans ≡ 0
        → Step s
            (record s { calls = xs ++ (cleaning ∷ ys); active_scans = subtract_one s.active_scans })
    cleaned :
        (xs ys : List Phase)
        → s.calls ≡ xs ++ (cleaning ∷ ys)
        → Step s (record s {
          calls = xs ++ (over ∷ ys);
          caches = after_cleaning (insecure (length xs)) on_cloud_run s.caches;
        })
    -- the error of `go clean` is only logged; it may have removed some files before it
    clean_fails :
        (xs ys : List Phase)
        → s.calls ≡ xs ++ (cleaning ∷ ys)
        → cleans_caches (insecure (length xs)) on_cloud_run ≡ true
        → Step s (record s { calls = xs ++ (over ∷ ys); clean_failures = s.clean_failures + 1 })

  pub data Reach (n : ℕ) : Scans → Type 0 where
    here : Reach n (start (replicate n waiting))
    next : {s t : Scans} → Reach n s → Step s t → Reach n t
