-- ===== src/Queue/Tests.antt =====
-- The tasks of a queue with a name of its own; the hash is a constant.
use pkgsite_metrics.Prelude.{◌≡◌, ◌↔◌, refl, false, true, none, Text, text}
use pkgsite_metrics.Derrors.{ok}
use pkgsite_metrics.Queue.{
  Task, Options, Gcp, TaskRequest, created, already_exists, is_plain, escape_rune, escape_task_id,
  request, new_task_request, enqueue_scan,
}
use pkgsite_metrics.Queue.Names.{IsNamed, new_task_request-IsNamed, enqueue_scan-added}

abbrev hash : Text → Text
hash s = text "0123456789abcdef"

abbrev queue : Gcp
queue = record {
  queue_name = text "projects/p/locations/l/queues/q";
  queue_url = text "https://worker";
  service_account = text "a@b";
}

abbrev task : Task
task = record {
  name = text "github.com/pkg/errors@v0.9.1";
  path = text "github.com/pkg/errors@v0.9.1";
  params = text "mode=GOVULNCHECK";
}

abbrev options : Options
options = record {
  namespace = text "govulncheck";
  disable_proxy_fetch = false;
  task_name_suffix = text "again-2";
}

-- A run of escapeTaskID.
escaped_path : escape_task_id (text "m@v1.2.3/a_b") ≡ text "m_v1_2_3_-a__b"
unfolding escape_task_id escape_rune is_plain
escaped_path = refl

new_task_request-IsNamed_example : IsNamed queue (request hash queue task options)
unfolding is_plain new_task_request
new_task_request-IsNamed_example =
    new_task_request-IsNamed hash queue task options {req = request hash queue task options} refl
      refl

enqueue_scan-added_example :
    (enqueue_scan hash (λ r. already_exists) queue (text "") task options ≡ (true, none)) ↔ (
      (req : TaskRequest) × (new_task_request hash queue task options ≡ ok req)
      × (already_exists ≡ created))
enqueue_scan-added_example =
    enqueue_scan-added hash (λ r. already_exists) queue (text "") task options
