-- ===== src/Worker/Enqueue/Jobs.antt =====
-- internal/worker/analysis.go with internal/jobs/firestore.go: the job of an enqueue request.
use pkgsite_metrics.Prelude.{
  ℕ, ◌+◌, ◌≡◌, refl, Bool, true, false, not, ◌&&◌, List, [], ◌∷◌, ◌++◌, Option, none, some, Text,
  text, text_eq, is_empty, length, if◌then◌else◌, arith,
}
use pkgsite_metrics.Prelude.Int.{pos}
use pkgsite_metrics.Derrors.{Err, ok, wrap}
use pkgsite_metrics.Osv.{Time}
use pkgsite_metrics.Fstore.{Firestore, get, decode}
use pkgsite_metrics.Jobs.{Job, new_job, id, get_job, create_job, increment}
use pkgsite_metrics.Worker.Prepare.{returned}
use pkgsite_metrics.Worker.Analysis.{
  ModuleSpec, EnqueueParams, ScanRequest, create_analysis_queue_tasks,
}
use pkgsite_metrics.Worker.Analysis.Scan.{base}
use pkgsite_metrics.Worker.Enqueue.{
  Counts, count_enqueued, enqueue_tasks, counted_tasks, handle_enqueue,
}

length-create_analysis_queue_tasks :
    (params : EnqueueParams) (job_id binary_version : Text) (mods : List ModuleSpec)
    → length (create_analysis_queue_tasks params job_id binary_version mods) ≡ length mods
unfolding create_analysis_queue_tasks
length-create_analysis_queue_tasks params job_id binary_version [] = refl
length-create_analysis_queue_tasks params job_id binary_version (m ∷ mods) =
    omega (arith, length-create_analysis_queue_tasks params job_id binary_version mods)

-- Whether the binary of an enqueue request has a name without slashes.
abbrev pub names_binary : EnqueueParams → Bool
names_binary params = not (is_empty params.binary) && text_eq params.binary (base params.binary)

-- The job of the user of an enqueue request.
abbrev pub job_of : EnqueueParams → Time → Text → Text → Job
job_of params now url binary_hash =
    new_job params.user now url params.binary binary_hash params.args

zero_plus : (n : ℕ) → 0 + n ≡ n
zero_plus n = omega arith

id_not_empty : (format : Time → Text) (j : Job) → is_empty (id format j) ≡ false
id_not_empty format j = tail_not_empty j.user (format j.started_at)
  where
    tail_not_empty : (u t : Text) → is_empty (u ++ (b'-' ∷ t)) ≡ false
    tail_not_empty [] t = refl
    tail_not_empty (c ∷ u) t = refl

counted_job :
    {D S : Type 0} (fs : Firestore Job D S) (format : Time → Text)
    (enqueue_scan : ScanRequest → Bool × Option Err) (s : S) (job_id : Text) (n : ℕ)
    (counts : Counts)
    → is_empty job_id ≡ false
    → counted_tasks fs format enqueue_scan (some s) job_id n counts ≡ record {
      counts = some counts;
      job_db = some (increment fs s job_id (text "NumEnqueued") (pos n)).0;
      result = returned none;
    }
counted_job fs format enqueue_scan s [] n counts h = absurd (ground (arith, h))
counted_job fs format enqueue_scan s (c ∷ job_id) n counts h = refl

-- Suppose that in Firestore a created document is got until it changes, that an increment of
-- NumEnqueued that succeeds adds to that field of a job, and that a document holds its job. An enqueue
-- request of a user whose binary has a name without slashes and is hashed, whose modules are read and
-- whose job is created and then incremented without an error, succeeds, and its job is then stored
-- with the number of the modules as NumEnqueued: also when the queue refuses some of the tasks, or
-- all of them.
pub handle_enqueue-counts :
    {D S : Type 0} (fs : Firestore Job D S) (format : Time → Text)
    (enqueue_scan : ScanRequest → Bool × Option Err) (s created counted : S) (now : Time)
    (url binary_hash : Text) (mods : List ModuleSpec) (params : EnqueueParams)
    → ((s s' : S) (id : Text) (d : D) → fs.create s id d ≡ (s', none) → fs.get s' id ≡ ok d)
    → ((s s' : S) (id : Text) (j : Job) (n : ℕ)
        → fs.get s id ≡ ok (fs.document j)
        → fs.increment s id (text "NumEnqueued") (pos n) ≡ (s', none)
        → fs.get s' id ≡ ok (fs.document (record j { num_enqueued = j.num_enqueued + n })))
    → ((j : Job) → fs.data_to (fs.document j) ≡ ok j)
    → names_binary params ≡ true
    → is_empty params.user ≡ false
    → fs.create s
        (id format (job_of params now url binary_hash))
        (fs.document (job_of params now url binary_hash))
      ≡ (created, none)
    → fs.increment created
        (id format (job_of params now url binary_hash))
        (text "NumEnqueued")
        (pos (length mods))
      ≡ (counted, none)
    → let h =
        handle_enqueue fs format enqueue_scan
          (some s)
          now
          url
          (ok mods)
          (ok binary_hash)
          (ok params) in
      (h.result ≡ returned none)
      × (h.job_db ≡ some counted)
      × (get_job fs counted (id format (job_of params now url binary_hash))
          ≡ ok (record (job_of params now url binary_hash) { num_enqueued = length mods }))
unfolding handle_enqueue enqueue_tasks wrap create_job increment get_job get decode
handle_enqueue-counts {D} {S} fs format enqueue_scan s created counted now url binary_hash mods
      params create_law increment_law doc_law named user made added =
    let job = job_of params now url binary_hash in
    let has_binary : is_empty params.binary ≡ false = ground (arith, named) in
    let is_base : text_eq params.binary (base params.binary) ≡ true = ground (arith, named) in
    let tasks = create_analysis_queue_tasks params (id format job) binary_hash mods in
    let done =
      counted_job fs format enqueue_scan created (id format job) (length tasks)
        (count_enqueued enqueue_scan tasks) (id_not_empty format job) in
    let total = length-create_analysis_queue_tasks params (id format job) binary_hash mods in
    let stored =
      increment_law created counted (id format job) job (length mods)
        (create_law s created (id format job) (fs.document job) made) added in
    (
      rw (has_binary, is_base, user, if◌then◌else◌, made, done) refl,
      rw (has_binary, is_base, user, if◌then◌else◌, made, done, total, added) refl,
      rw (stored, zero_plus (length mods), doc_law (record job { num_enqueued = length mods }))
          refl,
    )
