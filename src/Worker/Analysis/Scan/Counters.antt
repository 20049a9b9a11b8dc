-- ===== src/Worker/Analysis/Scan/Counters.antt =====
-- internal/worker/analysis.go and internal/jobs/job.go: what a scan request adds to the counters
-- of its job.
use pkgsite_metrics.Prelude.{
  ◌≡◌, refl, subst, sym, ◌∙◌, Bool, true, false, not, ◌&&◌, List, [], ◌∷◌, Option, none, some, Text,
  text, arith, is_empty, if◌then◌else◌, text_eq,
}
use pkgsite_metrics.Derrors.{Err, Result, ok, err, wrap, cleanup, of_kind, invalid_argument}
use pkgsite_metrics.Worker.Prepare.{Ran, returned, panicked, Output}
use pkgsite_metrics.Worker.Analysis.{ScanRequest, Row, WorkVersion, WorkVersionKey}
use pkgsite_metrics.Worker.Analysis.Running.{World, Store, read_work_version, scan}
use pkgsite_metrics.Worker.Analysis.Scan.{
  Counter, num_started, num_skipped, num_failed, num_errored, num_succeeded, Handled, scanned,
  hashed, hash_matches, hash_mismatch, key_of, work_version_of, bad_request, base, result_counter,
  skips, fails, count_failure, after_read, with_binary, copied, run_request, has_job, is_canceled,
  handle_parsed, handle_scan, seen_error, removed, with_context,
}

-- The counter that belongs to how a request ends.
abbrev pub reports : Counter → Option Err → Bool
reports num_failed (some e) = true
reports num_skipped none = true
reports num_errored none = true
reports num_succeeded none = true
reports _ _ = false

-- Before the deferred functions: a counter for a result without an error, and no counter else.
data Counted : List Counter → Ran (Option Err) → Type 0 where
  succeeded : (c : Counter) → reports c none ≡ true → Counted (c ∷ []) (returned none)
  failed : (e : Err) → Counted [] (returned (some e))
  stopped : (t : Text) → Counted [] (panicked t)

abbrev IsCounted : Handled → Type 0
IsCounted h = Counted h.counters h.result

if-IsCounted :
    (b : Bool) (h k : Handled) → IsCounted h → IsCounted k → IsCounted (if b then h else k)
if-IsCounted true h k p q = p
if-IsCounted false h k p q = q

result_counter-Counted : (row : Row) (e : Option Err) → Counted (result_counter row e) (returned e)
result_counter-Counted row (some e) = failed e
result_counter-Counted row none =
    elim (is_empty row.error)
      as (λ b. Counted (if not b then num_errored ∷ [] else num_succeeded ∷ []) (returned none)) [
        | true ↦ succeeded num_succeeded refl
        | false ↦ succeeded num_errored refl
      ]

scanned-IsCounted :
    (world : World) (req : ScanRequest) (store : Store) (o : Option Row)
    → IsCounted (scanned world req store o)
scanned-IsCounted world req store none = stopped _
scanned-IsCounted world req store (some row) = result_counter-Counted row _

after_read-IsCounted :
    (world : World) (req : ScanRequest) (wv : WorkVersion) (key : WorkVersionKey)
    (read : Store × Option Err)
    → IsCounted (after_read world req wv key read)
after_read-IsCounted world req wv key (store, some e) = failed e
after_read-IsCounted world req wv key (store, none) =
    if-IsCounted _ (skips store) (scanned world req store (scan world req wv))
      (succeeded num_skipped refl) (scanned-IsCounted world req store _)

hashed-IsCounted :
    (world : World) (req : ScanRequest) (store : Store) (hash : Result Text)
    → IsCounted (hashed world req store hash)
unfolding hashed
hashed-IsCounted world req store (err e) = failed e
hashed-IsCounted world req store (ok hash) =
    if-IsCounted (not (text_eq hash req.params.binary_version)) (fails store hash_mismatch)
      (hash_matches world req store hash) (failed hash_mismatch)
      (after_read-IsCounted world req (work_version_of world req hash) (key_of req)
        (read_work_version world.stored_work_version store (key_of req)))

-- Behind the deferred functions, when the removal of the binary has no error.
data Reported : List Counter → Ran (Option Err) → Type 0 where
  one : (c : Counter) (e : Option Err) → reports c e ≡ true → Reported (c ∷ []) (returned e)
  stops : (t : Text) → Reported [] (panicked t)

abbrev IsReported : Handled → Type 0
IsReported h = Reported h.counters h.result

if-IsReported :
    (b : Bool) (h k : Handled) → IsReported h → IsReported k → IsReported (if b then h else k)
if-IsReported true h k p q = p
if-IsReported false h k p q = q

abbrev deferred : Option Err → Handled → Handled
deferred e h = count_failure (seen_error e h) (removed e h)

Counted-IsReported :
    {cs : List Counter} {r : Ran (Option Err)} (output : Output Row) (store : Store)
    → Counted cs r
    → IsReported
        (deferred none (record { counters = cs; output = output; store = store; result = r }))
unfolding cleanup
Counted-IsReported output store (succeeded c h) = one c none h
Counted-IsReported output store (failed e) = one num_failed (some e) refl
Counted-IsReported output store (stopped t) = stops t

bad_request-IsReported : (t : Text) (store : Store) → IsReported (bad_request t store)
bad_request-IsReported t store = one num_failed (some (of_kind invalid_argument t)) refl

copied-IsReported :
    (world : World) (req : ScanRequest) (store : Store) (copy : Option Err)
    → world.remove_binary ≡ none
    → IsReported (copied world req store copy)
unfolding with_binary
copied-IsReported world req store (some e) h = one num_failed (some e) refl
copied-IsReported world req store none h =
    let p : IsReported (deferred none (hashed world req store world.hash_binary)) =
      Counted-IsReported (hashed world req store world.hash_binary).output
        (hashed world req store world.hash_binary).store
        (hashed-IsCounted world req store world.hash_binary) in
    subst (λ e. IsReported (deferred e (hashed world req store world.hash_binary))) (sym h) p

run_request-IsReported :
    (world : World) (req : ScanRequest) (store : Store)
    → world.remove_binary ≡ none
    → IsReported (run_request world req store)
unfolding run_request
run_request-IsReported world req store h =
    if-IsReported (not (is_empty req.suffix)) _ _ (bad_request-IsReported _ store) (
      if-IsReported (is_empty req.params.binary) _ _ (bad_request-IsReported _ store) (
        if-IsReported (not (text_eq req.params.binary (base req.params.binary))) _ _
          (bad_request-IsReported _ store) (copied-IsReported world req store world.copy_binary h)))

reports-wrap :
    (c : Counter) (context : Text) (e : Option Err) → reports c (wrap context e) ≡ reports c e
unfolding wrap
reports-wrap c context none = refl
reports-wrap num_failed context (some e) = refl
reports-wrap _ context (some e) = refl

one_counter :
    {cs : List Counter} {r : Ran (Option Err)} {e : Option Err}
    → Reported cs r
    → with_context r ≡ returned e
    → (c : Counter) × (cs ≡ c ∷ []) × (reports c e ≡ true)
one_counter {e = e} (one c o p) h =
    let q : wrap (text "analysisServer.handleScan") o ≡ e = cc in
    (c, refl, subst (λ x. reports c x ≡ true) q (reports-wrap c _ o ∙ p))
one_counter (stops t) h = ground (arith, h)

-- A scan of a job that is not canceled, whose binary can be removed and which does not panic,
-- increments NumStarted and then exactly one more counter: NumFailed if the request has an error,
-- and NumSkipped, NumErrored or NumSucceeded if it has none.
pub handle_scan-counters :
    (world : World) (req : ScanRequest) (store : Store) {e : Option Err}
    → has_job world req ≡ true
    → is_canceled world req ≡ false
    → world.remove_binary ≡ none
    → (handle_scan world (ok req) store).result ≡ returned e
    → (c : Counter) × ((handle_scan world (ok req) store).counters ≡ num_started ∷ c ∷ [])
      × (reports c e ≡ true)
unfolding handle_scan handle_parsed
handle_scan-counters world req store {e} job canceled remove h =
    let (c, counters, reported) =
      one_counter (run_request-IsReported world req store remove)
        (rw (canceled, if◌then◌else◌) at h) in
    (c, rw (canceled, if◌then◌else◌, job, if◌then◌else◌, counters) refl, reported)

abbrev is_none : Option Err → Bool
is_none none = true
is_none (some e) = false

-- Whether the request passes the checks before the hash of the binary, and has a copy of it.
abbrev pub is_accepted : World → ScanRequest → Bool
is_accepted world req =
    is_empty req.suffix
    && not (is_empty req.params.binary)
    && text_eq req.params.binary (base req.params.binary)
    && is_none world.copy_binary

Counted-twice :
    {cs : List Counter} {r : Ran (Option Err)} (output : Output Row) (store : Store) (e : Err)
    → Counted cs r
    → r ≡ returned none
    → (c : Counter) × (reports c none ≡ true)
      × ((deferred
            (some e)
            (record { counters = cs; output = output; store = store; result = r })).counters
          ≡ c ∷ num_failed ∷ [])
unfolding cleanup
Counted-twice output store e (succeeded c p) h = (c, p, refl)
Counted-twice output store e (failed _) h = ground (arith, h)
Counted-twice output store e (stopped _) h = ground (arith, h)

accepted_run :
    (world : World) (req : ScanRequest) (store : Store) {e : Err}
    → is_accepted world req ≡ true
    → world.remove_binary ≡ some e
    → run_request world req store ≡ deferred (some e) (hashed world req store world.hash_binary)
unfolding run_request with_binary
accepted_run world req store h r =
    let no_suffix : is_empty req.suffix ≡ true = ground (arith, h) in
    let has_binary : is_empty req.params.binary ≡ false = ground (arith, h) in
    let is_base : text_eq req.params.binary (base req.params.binary) ≡ true = ground (arith, h) in
    let copied : world.copy_binary ≡ none = ground (arith, h) in
    rw (no_suffix, has_binary, is_base, copied, r, not, if◌then◌else◌) refl

-- When an accepted scan ends without an error, and the removal of the binary then fails, the job
-- counts the scan twice: by the counter of its outcome, and by NumFailed.
pub handle_scan-removal_fails :
    (world : World) (req : ScanRequest) (store : Store) {e : Err}
    → has_job world req ≡ true
    → is_canceled world req ≡ false
    → is_accepted world req ≡ true
    → (hashed world req store world.hash_binary).result ≡ returned none
    → world.remove_binary ≡ some e
    → (c : Counter) × (reports c none ≡ true)
      × ((handle_scan world (ok req) store).counters ≡ num_started ∷ c ∷ num_failed ∷ [])
unfolding handle_scan handle_parsed
handle_scan-removal_fails world req store {e} job canceled accepted h remove =
    let done : Handled = hashed world req store world.hash_binary in
    let (c, reported, counters) =
      Counted-twice done.output done.store e (hashed-IsCounted world req store world.hash_binary)
        h in
    (
      c,
      reported,
      rw
          (
            canceled,
            if◌then◌else◌,
            job,
            if◌then◌else◌,
            accepted_run world req store accepted remove,
            counters,
          )
          refl,
    )
