-- ===== src/Version/Sorting/Tests.antt =====
-- The examples of TestForSorting (internal/version/version_test.go), and witnesses.
use pkgsite_metrics.Prelude.{text_lt, ◌≡◌, refl, some, text, true, false, ltb, if◌then◌else◌, arith}
use pkgsite_metrics.Version.Sorting.Order.{encoded, value, encoded_order}
use pkgsite_metrics.Version.Sorting.{for_sorting}

for_sorting_release : for_sorting (text "v1.2.3") ≡ some (text "1,2,3~")
unfolding for_sorting
for_sorting_release = refl

for_sorting_numbers : for_sorting (text "v12.48.301") ≡ some (text "a12,a48,b301~")
unfolding for_sorting
for_sorting_numbers = refl

for_sorting_dates : for_sorting (text "v1.2.3-rc.20150901.-") ≡ some (text "1,2,3,~rc,g20150901,~-")
unfolding for_sorting
for_sorting_dates = refl

for_sorting_build : for_sorting (text "v1.2.3-alpha.789+build") ≡ some (text "1,2,3,~alpha,b789")
unfolding for_sorting
for_sorting_build = refl

encoded_order_example : text_lt (encoded (text "9") (text "~")) (encoded (text "10") (text "~")) ≡ (
    if ltb (value (text "9")) (value (text "10"))
    then true
    else if ltb (value (text "10")) (value (text "9"))
    then false
    else text_lt (text "~") (text "~"))
encoded_order_example =
    encoded_order (text "9") (text "10") (text "~") (text "~") (omega arith, omega arith)
      (omega arith, omega arith, ((omega arith, omega arith), tt))
