-- ===== src/Jobs.antt =====
-- internal/jobs/job.go and internal/jobs/firestore.go: jobs, and their database in Firestore.
use pkgsite_metrics.Prelude.{ℕ, ◌+◌, Bool, false, Option, some, List, [], ◌∷◌, ◌++◌, Text, text}
use pkgsite_metrics.Prelude.Int.{ℤ}
use pkgsite_metrics.Derrors.{Err, Result, ok, err, wrap, in_context, ◌>>=◌}
use pkgsite_metrics.Osv.{Time}
use pkgsite_metrics.Fstore.{Firestore, decode, get}

pub record Job : Type 0 where
  pub user : Text
  pub started_at : Time
  pub url : Text
  pub binary : Text
  pub binary_version : Text
  pub binary_args : Text
  pub canceled : Bool
  pub num_enqueued : ℕ
  pub num_started : ℕ
  pub num_skipped : ℕ
  pub num_failed : ℕ
  pub num_errored : ℕ
  pub num_succeeded : ℕ

abbrev pub new_job : Text → Time → Text → Text → Text → Text → Job
new_job user start url binary_name binary_version binary_args = record {
  user = user;
  started_at = start;
  url = url;
  binary = binary_name;
  binary_version = binary_version;
  binary_args = binary_args;
  canceled = false;
  num_enqueued = 0;
  num_started = 0;
  num_skipped = 0;
  num_failed = 0;
  num_errored = 0;
  num_succeeded = 0;
}

-- `format` is the formatting of a time in UTC by startTimeFormat.
abbrev pub id : (Time → Text) → Job → Text
id format j = j.user ++ (b'-' ∷ format j.started_at)

abbrev pub num_finished : Job → ℕ
num_finished j = j.num_skipped + j.num_failed + j.num_errored + j.num_succeeded

module _ {D S : Type 0} (fs : Firestore Job D S) where
  unfoldable pub create_job : (Time → Text) → S → Job → S × Option Err
  create_job format s j =
      let (next, e) = fs.create s (id format j) (fs.document j) in
      (next, wrap (text "job.DB.CreateJob") e)

  unfoldable pub delete_job : S → Text → S × Option Err
  delete_job s id = let (next, e) = fs.delete s id in (next, wrap (text "job.DB.DeleteJob") e)

  unfoldable pub get_job : S → Text → Result Job
  get_job s id = in_context (text "job.DB.GetJob") (get fs s id)

  abbrev pub written : S → Text → Result Job → S × Option Err
  written s id (err e) = (s, some e)
  written s id (ok j) = fs.set s id (fs.document j)

  -- UpdateJob, as the transaction that takes effect: `set` stands for Set and the commit.
  unfoldable pub update_job : S → Text → (Job → Result Job) → S × Option Err
  update_job s id f =
      let (next, e) = written s id ((fs.get s id >>= decode fs) >>= f) in
      (next, wrap (text "job.DB.UpdateJob") e)

  unfoldable pub increment : S → Text → Text → ℤ → S × Option Err
  increment s id name n =
      let (next, e) = fs.increment s id name n in (next, wrap (text "job.DB.Increment") e)

  -- The loop of ListJobs, with a function that keeps what it has seen.
  unfoldable pub list_documents :
      {A : Type 0} → (A → Job → Result A) → A → List (Result D) → Result A
  list_documents f a [] = ok a
  list_documents f a (err e ∷ ds) = err e
  list_documents f a (ok d ∷ ds) = decode fs d >>= λ j. (f a j >>= λ b. list_documents f b ds)

  unfoldable pub list_jobs : {A : Type 0} → (A → Job → Result A) → A → S → Result A
  list_jobs f a s = in_context (text "job.DB.ListJobs()") (list_documents f a (fs.documents s))
