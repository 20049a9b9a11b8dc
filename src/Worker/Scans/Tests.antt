-- ===== src/Worker/Scans/Tests.antt =====
-- internal/worker/scan.go: runs of two scans at once.
use pkgsite_metrics.Prelude.{ℕ, ◌≡◌, ◌↔◌, refl, Bool, true, false, zero, suc, List, [], ◌∷◌, arith}
use pkgsite_metrics.Worker.Scans.{
  Phase, waiting, scanning, cleaning, over, scans, sum, subtract_one, Scans, begins, ends,
  ends_last, cleaned, Reach, here, next, start, cleans_caches,
}
use pkgsite_metrics.Worker.Scans.Counting.{last_scan_cleans, caches_end_clean}

abbrev after : List Phase → ℕ → ℕ → Scans
after calls active left = record {
  calls = calls;
  active_scans = active;
  caches = record { own = left; sandboxed = 0 };
  clean_failures = 0;
}

-- All calls are insecure.
abbrev all : ℕ → Bool
all i = true

-- Only the first one is.
abbrev first_only : ℕ → Bool
first_only zero = true
first_only (suc i) = false

-- Both calls have begun, and the first has ended.
two_scans : Reach all true 2 (after (over ∷ scanning ∷ []) 1 2)
unfolding start
two_scans =
    next (next (next here (begins [] (waiting ∷ []) refl)) (begins (scanning ∷ []) [] refl))
      (ends [] (scanning ∷ []) refl (omega arith))

last_scan_cleans_example :
    ((after (over ∷ scanning ∷ []) 1 2).active_scans ≡ sum scans (over ∷ scanning ∷ []))
    × ((subtract_one 1 ≡ 0) ↔ (sum scans (over ∷ []) ≡ 0))
last_scan_cleans_example = last_scan_cleans all true (omega arith) two_scans (over ∷ []) [] refl

all_over : Reach all true 2 (after (over ∷ over ∷ []) 0 0)
unfolding cleans_caches
all_over = next (next two_scans (ends_last (over ∷ []) [] refl refl)) (cleaned (over ∷ []) [] refl)

caches_end_clean_example :
    ((after (over ∷ over ∷ []) 0 0).caches.own ≡ 0)
    × ((after (over ∷ over ∷ []) 0 0).caches.sandboxed ≡ 0)
unfolding cleans_caches
caches_end_clean_example =
    caches_end_clean true all true (omega arith) (λ i. refl) refl all_over refl refl

-- A call that begins after the counter dropped to 0 scans while the caches are cleaned.
cleaned_under_a_scan : Reach all true 2 (after (over ∷ scanning ∷ []) 1 0)
unfolding start cleans_caches
cleaned_under_a_scan =
    next
      (next
        (next (next here (begins [] (waiting ∷ []) refl)) (ends_last [] (waiting ∷ []) refl refl))
        (begins (cleaning ∷ []) [] refl))
      (cleaned [] (scanning ∷ []) refl)

-- The last call cleans the caches of the sandbox, and the files of the first one stay in its own.
own_caches_kept : Reach first_only true 2 (after (over ∷ over ∷ []) 0 1)
unfolding start cleans_caches
own_caches_kept =
    next
      (next
        (next (next (next here (begins [] (waiting ∷ []) refl)) (begins (scanning ∷ []) [] refl))
          (ends [] (scanning ∷ []) refl (omega arith)))
        (ends_last (over ∷ []) [] refl refl))
      (cleaned (over ∷ []) [] refl)
