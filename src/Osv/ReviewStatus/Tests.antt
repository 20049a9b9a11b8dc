-- ===== src/Osv/ReviewStatus/Tests.antt =====
-- Runs of the review status functions.
use pkgsite_metrics.Prelude.{◌≡◌, refl, some, none, text, text_eq, if◌then◌else◌}
use pkgsite_metrics.Osv.ReviewStatus.{
  is_valid, string, find_status, to_review_status, to_review_status-string,
}

to_review_status-string_example :
    to_review_status (string (λ n. text "3") 3) ≡ (if is_valid 3 then some 3 else none)
to_review_status-string_example = to_review_status-string (λ n. text "3") 3

reviewed : to_review_status (text "REVIEWED") ≡ some 2
unfolding to_review_status text_eq find_status
reviewed = refl
