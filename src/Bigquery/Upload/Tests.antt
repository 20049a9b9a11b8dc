-- ===== src/Bigquery/Upload/Tests.antt =====
-- A table that takes two rows in a request at most.
use pkgsite_metrics.Prelude.{
  ℕ, ◌+◌, ◌≡◌, refl, List, [], ◌∷◌, Option, none, some, length, ltb, if◌then◌else◌, Bool, true,
  text,
}
use mathlib.Core.List.{cons-ne-nil}
use pkgsite_metrics.Derrors.{Err, plain}
use pkgsite_metrics.Bigquery.Upload.{Call, finished, upload_chunk, upload_from, upload_many}
use pkgsite_metrics.Bigquery.Upload.Delivery.{Delivers, upload_many-Delivers}

abbrev put_two : List (Call ℕ) → List ℕ → Option Err
put_two calls rows = if ltb 2 (length rows) then some (plain (text "413")) else none

abbrev too_large : Err → Bool
too_large e = true

abbrev rows : List ℕ
rows = 1 ∷ 2 ∷ 3 ∷ 4 ∷ 5 ∷ 6 ∷ 7 ∷ []

upload_in_halves : (upload_many put_two too_large (λ r. r + 10) rows 5).1 ≡ finished
unfolding upload_many upload_from upload_chunk
upload_in_halves = refl

upload_many-Delivers_example :
    Delivers put_two too_large 5
      (11 ∷ 12 ∷ 13 ∷ 14 ∷ 15 ∷ 16 ∷ 17 ∷ [])
      []
      (upload_many put_two too_large (λ r. r + 10) rows 5)
upload_many-Delivers_example =
    upload_many-Delivers put_two too_large (λ r. r + 10) rows 5 (cons-ne-nil 1 _)
