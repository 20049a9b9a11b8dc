-- ===== src/Ejobs.antt =====
-- cmd/ejobs/main.go: what the commands share: their actions, and requests to the worker. Flags, the
-- environment, HTTP, JSON, Google Cloud and the local files are not part of the repository: they
-- are fields of `Env`.
pub mod Wait
pub mod Upload
pub mod Start
pub mod Show
pub mod Commands
pub mod Ends
pub mod Waiting
pub mod Arguments
pub mod Quiet
pub mod DryRun
pub mod Gcs
pub mod Uploaded
mod Tests
use pkgsite_metrics.Prelude.{
  ℕ, suc, ◌≡◌, Bool, List, [], ◌∷◌, ◌++◌, Option, none, some, Text, text, ◌==◌, if◌then◌else◌,
}
use pkgsite_metrics.Prelude.Int.{ℤ}
use pkgsite_metrics.Derrors.{Err, Result, ok, err, plain, message}
use pkgsite_metrics.Osv.{Time}
use pkgsite_metrics.Jobs.{Job}

-- What a command does outside of itself, in order.
pub data Event : Type 0 where
  printed : Text → Event
  requested : Text → Event
  slept : ℕ → Event
  uploaded : Text → Text → Event
  labelled : Text → Text → Event
  created : Text → Event
  wrote : Text → Event

-- How an action ends: with a value, with an error, with a panic, or not yet when the fuel of its
-- loop is used up.
pub data Outcome (A : Type 0) : Type 0 where
  gave : A → Outcome A
  failed : Err → Outcome A
  crashed : Text → Outcome A
  running : Outcome A

-- `sent` counts the requests so far: the answer to a request depends on its number.
pub record Ran (A : Type 0) : Type 0 where
  pub events : List Event
  pub sent : ℕ
  pub outcome : Outcome A

abbrev pub Act : Type 0 → Type 0
Act A = ℕ → Ran A

abbrev pub after : {A : Type 0} → List Event → Ran A → Ran A
after es r = record { events = es ++ r.events; sent = r.sent; outcome = r.outcome }

abbrev pub follow : {A B : Type 0} → List Event → ℕ → Outcome A → (A → Act B) → Ran B
follow es n (gave a) f = after es (f a n)
follow es n (failed e) f = record { events = es; sent = n; outcome = failed e }
follow es n (crashed t) f = record { events = es; sent = n; outcome = crashed t }
follow es n running f = record { events = es; sent = n; outcome = running }

infixl 5 ◌>>=◌ ◌>>◌
unfoldable pub ◌>>=◌ : {A B : Type 0} → Act A → (A → Act B) → Act B
(m >>= f) n = follow (m n).events (m n).sent (m n).outcome f

unfoldable pub ◌>>◌ : {A B : Type 0} → Act A → Act B → Act B
m >> k = m >>= λ _. k

unfoldable pub give : {A : Type 0} → A → Act A
give a n = record { events = []; sent = n; outcome = gave a }

unfoldable pub fail : {A : Type 0} → Err → Act A
fail e n = record { events = []; sent = n; outcome = failed e }

unfoldable pub emit : Event → Act Unit
emit e n = record { events = e ∷ []; sent = n; outcome = gave tt }

unfoldable pub print : Text → Act Unit
print t = emit (printed t)

unfoldable pub done : Act Unit
done = give tt

-- The error of a call, if it has one, ends the command.
unfoldable pub check : Option Err → Act Unit
check none = done
check (some e) = fail e

unfoldable pub lift : {A : Type 0} → Result A → Act A
lift (ok a) = give a
lift (err e) = fail e

abbrev pub nil_dereference : Text
nil_dereference = text "invalid memory address or nil pointer dereference"

-- The dereference of a pointer that may be nil.
unfoldable pub dereference : {A : Type 0} → Option A → Act A
dereference (some a) = give a
dereference none = λ n. record { events = []; sent = n; outcome = crashed nil_dereference }

pub record Response : Type 0 where
  pub status_code : ℕ
  pub status : Text
  pub body : Result Text

-- The result of os.Stat on a file.
pub data Stat : Type 0 where
  missing directory file : Stat
  stat_failed : Err → Stat

-- The result of object.Attrs on an object of the bucket: its MD5, its uploader and when it was
-- updated.
pub record Attrs : Type 0 where
  pub md5 : Text
  pub uploader : Text
  pub updated : Text

pub data Object : Type 0 where
  absent : Object
  attrs_failed : Err → Object
  present : Attrs → Object

pub record Env : Type 0 where
  pub worker_url : Text
  pub user : Text
  pub dry_run : Bool
  -- the flags of start, wait and results
  pub min_importers : ℤ
  pub wait_interval : ℕ
  pub force : Bool
  pub outfile : Text
  -- the errors of making the sources of tokens, and of http.NewRequestWithContext and Token
  pub identity_tokens : Option Err
  pub access_tokens : Option Err
  pub new_request : Text → Option Err
  pub token : Option Err
  -- the answer to a request, by its number
  pub exchange : ℕ → Text → Result Response
  pub decode_job : Text → Result Job
  pub decode_jobs : Text → Result (List Job)
  pub decode_results : Text → Result Text
  -- %d of numbers, %v of a field, url.QueryEscape and the time of the call of `list`
  pub decimal : ℕ → Text
  pub fields_of : Job → List (Text × Text)
  pub job_id : Job → Text
  pub row_of : Job → Text
  pub query_escape : Text → Text
  pub now : Time
  -- the local files: os.Stat, buildinfo.Read, and opening a file and then reading it
  pub stat : Text → Stat
  pub build_info : Text → Result (List (Text × Text))
  pub open_file : Text → Result (Result Text)
  pub create_file : Text → Option Err
  pub encode : Text → Result Text
  pub close_file : Option Err
  -- Cloud Storage, MD5 and what the user answers
  pub new_client : Option Err
  pub object : Text → Object
  pub md5_sum : Text → Text
  pub write_object : Option Err
  pub close_object : Option Err
  pub response : Text

abbrev body_of : Response → Result Text → Result Text
body_of res (err e) =
    err (plain (text "reading body (" ++ (res.status ++ (text "): " ++ message e))))
body_of res (ok body) =
    if res.status_code == 200 then ok body else err (plain (res.status ++ (text ": " ++ body)))

-- client.Do, and the body of its answer.
abbrev answer_of : Result Response → Result Text
answer_of (err e) = err e
answer_of (ok res) = body_of res res.body

unfoldable pub send : Env → Text → Act Text
send env url n = after (requested url ∷ []) (lift (answer_of (env.exchange n url)) (suc n))

-- httpGet
unfoldable pub http_get : Env → Text → Act Text
unfolding send
http_get env url = do check (env.new_request url); check env.token; send env url

abbrev pub worker_path : Env → Text → Text
worker_path env path = env.worker_url ++ (b'/' ∷ path)

-- requestJSON: the nil pointer of a dry run is `none`.
unfoldable pub request_json : {A : Type 0} → (Text → Result A) → Env → Text → Act (Option A)
request_json decode env path =
    if env.dry_run then (do print (text "GET " ++ worker_path env path); give none) else (do
      body ← http_get env (worker_path env path)
      value ← lift (decode body)
      give (some value))

abbrev pub describe_path : Text → Text
describe_path job_id = text "jobs/describe?jobid=" ++ job_id
