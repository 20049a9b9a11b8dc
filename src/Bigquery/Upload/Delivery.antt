-- ===== src/Bigquery/Upload/Delivery.antt =====
-- internal/bigquery/bigquery.go: what UploadMany has put into the table when it returns.
use Prim.Native.Nat.{min}
use mathlib.Core.List.{cons-ne-nil}
use pkgsite_metrics.Prelude.{
  ℕ, zero, suc, ◌/◌, ◌≤◌, ◌≡◌, ◌≢◌, ◌⊎◌, refl, sym, ◌∙◌, ap, inl, inr, Bool, true, false, ◌&&◌,
  List, [], ◌∷◌, ◌++◌, map, Option, none, some, length, take, drop, ltb, arith, append-nil,
  append_assoc, take-append-drop, length-drop, Bool-cases, Option-cases,
}
use pkgsite_metrics.Derrors.{Err}
use pkgsite_metrics.Bigquery.Upload.{
  Call, Status, finished, failed, out_of_fuel, ChunkStatus, sent, refused, stuck, upload_chunk,
  upload_from, upload_many,
}

-- The rows that a call with this result has put into the table.
abbrev taken : {A : Type 0} → Option Err → List A → List A
taken none rows = rows
taken (some e) rows = []

-- The rows of the calls that succeeded, in order.
pub delivered : {A : Type 0} → List (Call A) → List A
delivered [] = []
delivered (call ∷ calls) = taken call.error call.rows ++ delivered calls

delivered-concat :
    {A : Type 0} (calls : List (Call A)) (call : Call A)
    → delivered (calls ++ (call ∷ [])) ≡ delivered calls ++ taken call.error call.rows
unfolding delivered
delivered-concat [] call = append-nil _
delivered-concat (c ∷ calls) call =
    rw (delivered-concat calls call)
      (sym (append_assoc (taken c.error c.rows) (delivered calls) (taken call.error call.rows)))

module _ {A : Type 0} (put : List (Call A) → List A → Option Err) (too_large : Err → Bool) where
  -- An error is that of the last call, and with a positive chunk size either not that of a request
  -- that is too large, or the call has one row at most.
  abbrev pub GaveUp : ℕ → List (Call A) → Err → Type 0
  GaveUp chunk_size made e =
      (before : List (Call A)) × (call : Call A) × (made ≡ before ++ (call ∷ []))
      × (call.error ≡ some e)
      × ((chunk_size ≡ 0) ⊎ ((too_large e ≡ false) ⊎ (length call.rows ≤ 1)))

  -- What the inner loop has done, from `calls` on, with the rows `rest` and a first `size`.
  abbrev ChunkDelivers : List A → ℕ → List (Call A) → List (Call A) × ChunkStatus → Type 0
  ChunkDelivers rest size calls (made, sent n) =
      (delivered made ≡ delivered calls ++ take n rest) × (1 ≤ n) × (n ≤ size)
  ChunkDelivers rest size calls (made, refused e) =
      (delivered made ≡ delivered calls) × ((k : ℕ) → GaveUp k made e)
  ChunkDelivers rest size calls (made, stuck) = ⊥

  -- The three ways a round of the inner loop goes on.
  upload_chunk_ok :
      (fuel : ℕ) (rest : List A) (size : ℕ) (calls : List (Call A))
      → put calls (take size rest) ≡ none
      → upload_chunk put too_large (suc fuel) rest size calls
        ≡ (calls ++ (record { rows = take size rest; error = none } ∷ []), sent size)
  unfolding upload_chunk
  upload_chunk_ok fuel rest size calls e = rw (e, upload_chunk) (rw e)

  upload_chunk_again :
      (fuel : ℕ) (rest : List A) (size : ℕ) (calls : List (Call A)) (x : Err)
      → put calls (take size rest) ≡ some x
      → (too_large x && ltb 1 size) ≡ true
      → upload_chunk put too_large (suc fuel) rest size calls
        ≡ upload_chunk put too_large fuel rest
            (size / 2)
            (calls ++ (record { rows = take size rest; error = some x } ∷ []))
  unfolding upload_chunk
  upload_chunk_again fuel rest size calls x e again = rw (e, again, upload_chunk) (rw e)

  upload_chunk_refused :
      (fuel : ℕ) (rest : List A) (size : ℕ) (calls : List (Call A)) (x : Err)
      → put calls (take size rest) ≡ some x
      → (too_large x && ltb 1 size) ≡ false
      → upload_chunk put too_large (suc fuel) rest size calls
        ≡ (calls ++ (record { rows = take size rest; error = some x } ∷ []), refused x)
  unfolding upload_chunk
  upload_chunk_refused fuel rest size calls x e last = rw (e, last, upload_chunk) (rw e)

  -- From a half of the size to the size, when the call between has put nothing.
  widen :
      (rest : List A) (size : ℕ) (calls made : List (Call A))
      → delivered made ≡ delivered calls
      → (r : List (Call A) × ChunkStatus) → ChunkDelivers rest (size / 2) made r
      → ChunkDelivers rest size calls r
  widen rest size calls made same (after, sent n) (h, lo, hi) =
      (h ∙ ap (λ d. d ++ take n rest) same, lo, omega arith)
  widen rest size calls made same (after, refused e) (h, gave_up) = (h ∙ same, gave_up)
  widen rest size calls made same (after, stuck) h = h

  length-take_le : (n : ℕ) (rows : List A) → length (take n rows) ≤ n
  length-take_le zero rows = omega arith
  length-take_le (suc n) [] = omega arith
  length-take_le (suc n) (row ∷ rows) = omega (arith, length-take_le n rows)

  last_resort :
      (e : Err) (size : ℕ) (rest : List A)
      → (too_large e && ltb 1 size) ≡ false
      → (too_large e ≡ false) ⊎ (length (take size rest) ≤ 1)
  last_resort e size rest h = elim (Bool-cases (too_large e)) [
    | inl large ↦ inr (ground (arith, large, h, length-take_le size rest))
    | inr other ↦ inl other
  ]

  upload_chunk-delivers :
      (fuel : ℕ) (rest : List A) (size : ℕ) (calls : List (Call A))
      → 1 ≤ size
      → size ≤ fuel
      → ChunkDelivers rest size calls (upload_chunk put too_large fuel rest size calls)
  upload_chunk-delivers zero rest size calls h k = absurd (omega arith)
  upload_chunk-delivers (suc fuel) rest size calls h k =
      elim (Option-cases (put calls (take size rest))) [
        | inl e ↦
            rw (upload_chunk_ok fuel rest size calls e) (delivered-concat calls _, h, omega arith)
        | inr (x, e) ↦
            let made = calls ++ (record { rows = take size rest; error = some x } ∷ []) in
            let unchanged : delivered made ≡ delivered calls =
              delivered-concat calls _ ∙ append-nil _ in
            elim (Bool-cases (too_large x && ltb 1 size)) [
              | inl again ↦ rw (upload_chunk_again fuel rest size calls x e again) (
                  widen rest size calls made unchanged _
                    (upload_chunk-delivers fuel rest (size / 2) made (ground arith) (ground arith)))
              | inr last ↦ rw (upload_chunk_refused fuel rest size calls x e last) (
                unchanged,
                λ k. (
                  calls,
                  record { rows = take size rest; error = some x },
                  refl,
                  refl,
                  inr (last_resort x size rest last),
                ),
              )
            ]
      ]

  -- What UploadMany has done with the rows `rows` in chunks of size `k`, when those of `before` were delivered.
  abbrev pub Delivers : ℕ → List A → List A → List (Call A) × Status → Type 0
  Delivers k rows before (made, finished) = delivered made ≡ before ++ rows
  Delivers k rows before (made, failed e) =
      (left : List A) × (delivered made ++ left ≡ before ++ rows) × (left ≢ []) × GaveUp k made e
  Delivers k rows before (made, out_of_fuel) = ⊥

  -- What was left after a chunk is what is left of the rows.
  extend :
      (k : ℕ) (rows : List A) (n : ℕ) (calls made : List (Call A))
      → delivered made ≡ delivered calls ++ take n rows
      → (r : List (Call A) × Status) → Delivers k (drop n rows) (delivered made) r
      → Delivers k rows (delivered calls) r
  extend k rows n calls made h (after, finished) e =
      e
      ∙ ap (λ d. d ++ drop n rows) h
      ∙ append_assoc (delivered calls) (take n rows) (drop n rows)
      ∙ ap (λ r. delivered calls ++ r) (take-append-drop n rows)
  extend k rows n calls made h (after, failed x) (left, e, ne, gave_up) = (
    left,
    e
        ∙ ap (λ d. d ++ drop n rows) h
        ∙ append_assoc (delivered calls) (take n rows) (drop n rows)
        ∙ ap (λ r. delivered calls ++ r) (take-append-drop n rows),
    ne,
    gave_up,
  )
  extend k rows n calls made h (after, out_of_fuel) e = e

  after_chunk :
      (fuel k : ℕ) (row : A) (rest : List A) (size : ℕ) (calls : List (Call A))
      → ((n : ℕ) (made : List (Call A))
          → 1 ≤ n
          → Delivers k
              (drop n (row ∷ rest))
              (delivered made)
              (upload_from put too_large fuel k (drop n (row ∷ rest)) made))
      → (r : List (Call A) × ChunkStatus) → ChunkDelivers (row ∷ rest) size calls r
      → Delivers k (row ∷ rest) (delivered calls) (elim r.1 [
        | sent n ↦ upload_from put too_large fuel k (drop n (row ∷ rest)) r.0
        | refused e ↦ (r.0, failed e)
        | stuck ↦ (r.0, out_of_fuel)
      ])
  after_chunk fuel k row rest size calls ih (made, sent n) (h, lo, hi) =
      extend k (row ∷ rest) n calls made h _ (ih n made lo)
  after_chunk fuel k row rest size calls ih (made, refused e) (h, gave_up) =
      (row ∷ rest, ap (λ d. d ++ (row ∷ rest)) h, cons-ne-nil row rest, gave_up k)
  after_chunk fuel k row rest size calls ih (made, stuck) h = h

  upload_from-Delivers :
      (fuel k : ℕ) (rows : List A) (calls : List (Call A))
      → 1 ≤ k
      → length rows ≤ fuel
      → Delivers k rows (delivered calls) (upload_from put too_large fuel k rows calls)
  unfolding upload_from
  upload_from-Delivers fuel k [] calls hk h = sym (append-nil (delivered calls))
  upload_from-Delivers zero k (row ∷ rest) calls hk h = absurd (omega arith)
  upload_from-Delivers (suc fuel) k (row ∷ rest) calls hk h =
      let size = min k (length (row ∷ rest)) in
      after_chunk fuel k row rest size calls
        (λ n made lo.
          upload_from-Delivers fuel k (drop n (row ∷ rest)) made hk
            (rw (length-drop n (row ∷ rest)) (omega arith)))
        (upload_chunk put too_large size (row ∷ rest) size calls)
        (upload_chunk-delivers size (row ∷ rest) size calls (omega arith) (omega arith))

  map-ne-nil : (f : A → A) (rows : List A) → rows ≢ [] → map f rows ≢ []
  map-ne-nil f [] h = λ _. h refl
  map-ne-nil f (row ∷ rows) h = cons-ne-nil (f row) (map f rows)

  whole-GaveUp :
      (rows : List A) (x : Err) → GaveUp 0 (record { rows = rows; error = some x } ∷ []) x
  whole-GaveUp rows x = ([], record { rows = rows; error = some x }, refl, refl, inl refl)

  -- UploadMany of at least one row always returns. When it returns no error, the calls of Put that
  -- succeeded hold all the rows, with the upload time set, each once and in order. When it returns
  -- an error, they hold the rows but for some at the end, at least one, and the error is that of
  -- the last call; with a positive chunk size it is not that of a request that is too large, unless
  -- that request has one row at most.
  pub upload_many-Delivers :
      (stamp : A → A) (rows : List A) (chunk_size : ℕ)
      → rows ≢ []
      → Delivers chunk_size (map stamp rows) [] (upload_many put too_large stamp rows chunk_size)
  unfolding upload_many delivered
  upload_many-Delivers stamp rows zero h = elim (Option-cases (put [] (map stamp rows))) [
    | inl e ↦ rw e (rw e (append-nil (map stamp rows)))
    | inr (x, e) ↦
        rw e (map stamp rows, rw e, map-ne-nil stamp rows h, rw e (whole-GaveUp (map stamp rows) x))
  ]
  upload_many-Delivers stamp rows (suc k) h =
      upload_from-Delivers (length (map stamp rows)) (suc k) (map stamp rows) [] (omega arith)
        (omega arith)
