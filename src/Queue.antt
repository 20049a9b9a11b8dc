-- ===== src/Queue.antt =====
-- internal/queue/queue.go: the tasks that are put on a Cloud Tasks queue. Cloud Tasks and the hash
-- of a task are parameters; a text is a list of code points here, each below 16^6.
pub mod Names
pub mod InMemory
mod Tests
use pkgsite_metrics.Prelude.{
  ℕ, zero, suc, ◌+◌, ◌-◌, ◌/◌, ◌%◌, Bool, true, false, ◌&&◌, ◌||◌, [], ◌∷◌, ◌++◌, Option, none,
  some, Text, text, is_empty, length, take, ltb, leb, ◌==◌, if◌then◌else◌, replicate,
}
use pkgsite_metrics.Derrors.{Err, Result, ok, err, plain, message, wrap_stack}

-- The methods of a Task.
pub record Task : Type 0 where
  pub name : Text
  pub path : Text
  pub params : Text

pub record Options : Type 0 where
  pub namespace : Text
  pub disable_proxy_fetch : Bool
  pub task_name_suffix : Text

-- The fields of config.Config that the queue reads.
pub record QueueConfig : Type 0 where
  pub project_id : Text
  pub location_id : Text
  pub queue_url : Text
  pub service_account : Text

-- GCP, without its client.
pub record Gcp : Type 0 where
  pub queue_name : Text
  pub queue_url : Text
  pub service_account : Text

abbrev required : Text → Text → Result Gcp → Result Gcp
required value problem next = if is_empty value then err (plain problem) else next

abbrev queue_path : Text → Text → Text → Text
queue_path project location queue_id =
    text "projects/"
    ++ (project ++ (text "/locations/" ++ (location ++ (text "/queues/" ++ queue_id))))

-- newGCP, below the deferred derrors.Wrap.
pub new_gcp : QueueConfig → Text → Result Gcp
new_gcp cfg queue_id = required queue_id (text "empty queueID") (
    required cfg.project_id (text "empty ProjectID") (
      required cfg.location_id (text "empty LocationID") (
        required cfg.queue_url (text "empty QueueURL") (
          required cfg.service_account (text "empty ServiceAccount") (
            ok (record {
              queue_name = queue_path cfg.project_id cfg.location_id queue_id;
              queue_url = cfg.queue_url;
              service_account = cfg.service_account;
            }))))))

-- %04x: the digits of a number, at least four of them.
pub hex_digit : ℕ → ℕ
hex_digit n = if ltb n 10 then b'0' + n else b'a' + (n - 10)

pub hex_digits : ℕ → ℕ → Text
hex_digits zero n = []
hex_digits (suc fuel) n =
    let rest = hex_digits fuel (n / 16) in
    (if ltb n 16 then [] else rest) ++ (hex_digit (n % 16) ∷ [])

abbrev hex4 : ℕ → Text
hex4 n = let digits = hex_digits 6 n in replicate (4 - length digits) b'0' ++ digits

pub is_plain : ℕ → Bool
is_plain r =
    (leb b'A' r && leb r b'Z')
    || (leb b'a' r && leb r b'z')
    || (leb b'0' r && leb r b'9')
    || r == b'-'

-- The switch of escapeTaskID.
pub escape_rune : ℕ → Text
escape_rune r =
    if is_plain r
    then r ∷ []
    else if r == b'_'
    then text "__"
    else if r == b'/'
    then text "_-"
    else if r == b'@'
    then text "_"
    else if r == b'.'
    then text "_"
    else b'_' ∷ hex4 r

pub escape_task_id : Text → Text
escape_task_id [] = []
escape_task_id (r ∷ s) = escape_rune r ++ escape_task_id s

-- newTaskID; `hash` is the hex-encoded hash of the path and the params.
pub new_task_id : (Text → Text) → Text → Task → Text
new_task_id hash namespace task =
    escape_task_id
      (task.name ++ (b'-' ∷ (namespace ++ (b'-' ∷ take 8 (hash (task.path ++ task.params))))))

-- What the code sets of a CreateTaskRequest.
pub record TaskRequest : Type 0 where
  pub parent : Text
  pub task_name : Text
  pub url : Text
  pub service_account : Text

abbrev disable_proxy_fetch_param : Text
disable_proxy_fetch_param = text "proxyfetch=off"

pub task_params : Task → Options → Text
task_params task opts =
    if opts.disable_proxy_fetch
    then (if is_empty task.params
        then disable_proxy_fetch_param
        else task.params ++ (b'&' ∷ disable_proxy_fetch_param))
    else task.params

pub relative_uri : Task → Options → Text
relative_uri task opts =
    let uri = b'/' ∷ (opts.namespace ++ (text "/scan/" ++ task.path)) in
    let params = task_params task opts in if is_empty params then uri else uri ++ (b'?' ∷ params)

abbrev pub request : (Text → Text) → Gcp → Task → Options → TaskRequest
request hash q task opts =
    let name = q.queue_name ++ (text "/tasks/" ++ new_task_id hash opts.namespace task) in
    record {
      parent = q.queue_name;
      task_name =
          if is_empty opts.task_name_suffix then name else name ++ (b'-' ∷ opts.task_name_suffix);
      url = q.queue_url ++ relative_uri task opts;
      service_account = q.service_account;
    }

pub new_task_request : (Text → Text) → Gcp → Task → Options → Result TaskRequest
new_task_request hash q task opts =
    if is_empty opts.namespace
    then err (plain (text "Options.Namespace cannot be empty"))
    else ok (request hash q task opts)

-- What CreateTask answers: a task, an error with the code AlreadyExists, or another error.
pub data Created : Type 0 where
  created already_exists : Created
  refused : Err → Created

-- EnqueueScan: whether the task was added, and the error. `context` is that of the deferred
-- derrors.WrapStack.
abbrev enqueued : Text → Created → Bool × Option Err
enqueued context created = (true, none)
enqueued context already_exists = (false, none)
enqueued context (refused e) =
    (false, wrap_stack context (some (plain (text "q.client.CreateTask(ctx, req): " ++ message e))))

abbrev sent : Text → (TaskRequest → Created) → Result TaskRequest → Bool × Option Err
sent context create (ok req) = enqueued context (create req)
sent context create (err e) =
    (false, wrap_stack context (some (plain (text "newTaskRequest: " ++ message e))))

pub enqueue_scan :
    (Text → Text) → (TaskRequest → Created) → Gcp → Text → Task → Options → Bool × Option Err
enqueue_scan hash create q context task opts =
    sent context create (new_task_request hash q task opts)
