-- ===== src/Bigquery/Upload.antt =====
-- internal/bigquery/bigquery.go: UploadMany. `put` is the Put of the table's Inserter: its error, if
-- any, may depend on all calls before it. `too_large` is hasCode(err, 413).
pub mod Delivery
mod Tests
use Prim.Native.Nat.{min}
use pkgsite_metrics.Prelude.{
  ℕ, zero, suc, ◌/◌, Bool, true, false, ◌&&◌, List, [], ◌∷◌, ◌++◌, map, Option, none, some, length,
  take, drop, ltb,
}
use pkgsite_metrics.Derrors.{Err}

-- A call of Put, with its result.
pub record Call (A : Type 0) : Type 0 where
  pub rows : List A
  pub error : Option Err

pub data Status : Type 0 where
  finished : Status
  failed : Err → Status
  out_of_fuel : Status

-- How the inner loop ends: the chunk of that many rows was put, or there was an error.
pub data ChunkStatus : Type 0 where
  sent : ℕ → ChunkStatus
  refused : Err → ChunkStatus
  stuck : ChunkStatus

module _ {A : Type 0} (put : List (Call A) → List A → Option Err) (too_large : Err → Bool) where
  -- The inner loop. `rest` is rows[start:], and `size` is end - start.
  pub upload_chunk : ℕ → List A → ℕ → List (Call A) → List (Call A) × ChunkStatus
  upload_chunk zero rest size calls = (calls, stuck)
  upload_chunk (suc fuel) rest size calls =
      let chunk = take size rest in
      let made = calls ++ (record { rows = chunk; error = put calls chunk } ∷ []) in
      elim (put calls chunk) [
        | none ↦ (made, sent size)
        | some e ↦ elim (too_large e && ltb 1 size) [
          | true ↦ upload_chunk fuel rest (size / 2) made
          | false ↦ (made, refused e)
        ]
      ]

  -- The outer loop, on the rows that are left.
  pub upload_from : ℕ → ℕ → List A → List (Call A) → List (Call A) × Status
  upload_from fuel chunk_size [] calls = (calls, finished)
  upload_from zero chunk_size (row ∷ rest) calls = (calls, out_of_fuel)
  upload_from (suc fuel) chunk_size (row ∷ rest) calls =
      let rows = row ∷ rest in
      let size = min chunk_size (length rows) in
      let (made, status) = upload_chunk size rows size calls in
      elim status [
        | sent n ↦ upload_from fuel chunk_size (drop n rows) made
        | refused e ↦ (made, failed e)
        | stuck ↦ (made, out_of_fuel)
      ]

  abbrev put_all : List A → List (Call A) × Status
  put_all rows = (
    record { rows = rows; error = put [] rows } ∷ [],
    elim (put [] rows) [ none ↦ finished | some e ↦ failed e ],
  )

  -- UploadMany. A chunk size of 0 stands for every one that is not positive; `stamp` is
  -- SetUploadTime with the current time.
  pub upload_many : (A → A) → List A → ℕ → List (Call A) × Status
  upload_many stamp rows chunk_size =
      let stamped = map stamp rows in
      elim chunk_size [
        | zero ↦ put_all stamped
        | suc n ↦ upload_from (length stamped) (suc n) stamped []
      ]
