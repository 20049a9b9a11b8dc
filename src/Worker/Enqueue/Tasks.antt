-- ===== src/Worker/Enqueue/Tasks.antt =====
-- internal/worker/govulncheck_enqueue.go: which tasks an enqueue request makes.
use mathlib.Core.List.{Memᴰ}
use mathlib.Core.List.Memᴰ
use pkgsite_metrics.Prelude.{
  ℕ, suc, ◌+◌, ◌*◌, ◌∙◌, length, length-append, arith, ◌≡◌, refl, sym, subst, ap, ◌↔◌, false, not,
  List, [], ◌∷◌, Text, text, text_eq, if◌then◌else◌, Bool-cases, inl, inr,
}
use pkgsite_metrics.Derrors.{ok}
use pkgsite_metrics.Govulncheck.{Request}
use pkgsite_metrics.Worker.Analysis.{ModuleSpec}
use pkgsite_metrics.Worker.Enqueue.{
  govulncheck_request, mode_tasks, tasks_of, create_govulncheck_queue_tasks,
}

-- The request for a module in a mode, neither insecure nor serving its results.
abbrev pub IsRequestFor : Text → ModuleSpec → Request → Type 0
IsRequestFor mode ms r =
    (r.url_path.module_path ≡ ms.module_path)
    × (r.url_path.version ≡ ms.version)
    × (r.url_path.suffix ≡ [])
    × (r.params.imported_by ≡ ms.imported_by)
    × (r.params.mode ≡ mode)
    × (r.params.insecure ≡ false)
    × (r.params.serve ≡ false)

govulncheck_request-IsRequestFor :
    (mode : Text) (ms : ModuleSpec) → IsRequestFor mode ms (govulncheck_request mode ms)
govulncheck_request-IsRequestFor mode ms = (refl, refl, refl, refl, refl, refl, refl)

govulncheck_request_unique :
    (mode : Text) (ms : ModuleSpec) (r : Request)
    → IsRequestFor mode ms r
    → r ≡ govulncheck_request mode ms
govulncheck_request_unique mode ms r (p, v, s, i, m, n, o) = cc (p, v, s, i, m, n, o)

-- A request for a module other than the standard library, in a mode.
abbrev IsModeTask : Text → List ModuleSpec → Request → Type 0
IsModeTask mode modspecs r =
    (ms : ModuleSpec) × Memᴰ ms modspecs
    × (text_eq ms.module_path (text "std") ≡ false)
    × IsRequestFor mode ms r

later_task :
    (mode : Text) (s : ModuleSpec) (modspecs : List ModuleSpec) (r : Request)
    → IsModeTask mode modspecs r
    → IsModeTask mode (s ∷ modspecs) r
later_task mode s modspecs r (ms, m, other, e) = (ms, Memᴰ.tail m, other, e)

first_task :
    (mode : Text) (s : ModuleSpec) (modspecs : List ModuleSpec) (r : Request)
    → text_eq s.module_path (text "std") ≡ false
    → Memᴰ r (govulncheck_request mode s ∷ mode_tasks mode modspecs)
    → (Memᴰ r (mode_tasks mode modspecs) → IsModeTask mode modspecs r)
    → IsModeTask mode (s ∷ modspecs) r
first_task mode s modspecs r other (Memᴰ.head e) later = (
  s,
  Memᴰ.head refl,
  other,
  subst (IsRequestFor mode s) (sym e) (govulncheck_request-IsRequestFor mode s),
)
first_task mode s modspecs r other (Memᴰ.tail m) later = later_task mode s modspecs r (later m)

mode_tasks-of :
    (mode : Text) (modspecs : List ModuleSpec) (r : Request)
    → Memᴰ r (mode_tasks mode modspecs)
    → IsModeTask mode modspecs r
unfolding mode_tasks
mode_tasks-of mode [] r m = elim m [ ]
mode_tasks-of mode (s ∷ modspecs) r m = elim (Bool-cases (text_eq s.module_path (text "std"))) [
  | inl std ↦
      later_task mode s modspecs r
        (mode_tasks-of mode modspecs r (rw (std, not, if◌then◌else◌) at m))
  | inr other ↦
      first_task mode s modspecs r other (rw (other, not, if◌then◌else◌) at m)
        (mode_tasks-of mode modspecs r)
]

of-mode_tasks :
    (mode : Text) (modspecs : List ModuleSpec) (ms : ModuleSpec)
    → Memᴰ ms modspecs
    → text_eq ms.module_path (text "std") ≡ false
    → Memᴰ (govulncheck_request mode ms) (mode_tasks mode modspecs)
unfolding mode_tasks
of-mode_tasks mode [] ms m other = elim m [ ]
of-mode_tasks mode (s ∷ modspecs) ms (Memᴰ.head e) other =
    let other' : text_eq s.module_path (text "std") ≡ false = rw (← e) other in
    rw (other', not, if◌then◌else◌) (Memᴰ.head (ap (govulncheck_request mode) e))
of-mode_tasks mode (s ∷ modspecs) ms (Memᴰ.tail m) other =
    elim (Bool-cases (text_eq s.module_path (text "std"))) [
      | inl std ↦ rw (std, not, if◌then◌else◌) (of-mode_tasks mode modspecs ms m other)
      | inr first ↦
          rw (first, not, if◌then◌else◌) (Memᴰ.tail (of-mode_tasks mode modspecs ms m other))
    ]

-- A request for a module of the list other than the standard library, in one of the modes.
abbrev pub IsTask : List Text → List ModuleSpec → Request → Type 0
IsTask modes modspecs r = (mode : Text) × Memᴰ mode modes × IsModeTask mode modspecs r

tasks_of-of :
    (modes : List Text) (modspecs : List ModuleSpec) (r : Request)
    → Memᴰ r (tasks_of modes modspecs)
    → IsTask modes modspecs r
unfolding tasks_of
tasks_of-of [] modspecs r m = elim m [ ]
tasks_of-of (mode ∷ modes) modspecs r m = elim (Memᴰ.append_cases (mode_tasks mode modspecs) m) [
  | inl here ↦ (mode, Memᴰ.head refl, mode_tasks-of mode modspecs r here)
  | inr there ↦ let (n, k, task) = tasks_of-of modes modspecs r there in (n, Memᴰ.tail k, task)
]

of-tasks_of :
    (modes : List Text) (modspecs : List ModuleSpec) (mode : Text) (ms : ModuleSpec)
    → Memᴰ mode modes
    → Memᴰ ms modspecs
    → text_eq ms.module_path (text "std") ≡ false
    → Memᴰ (govulncheck_request mode ms) (tasks_of modes modspecs)
unfolding tasks_of
of-tasks_of [] modspecs mode ms k m other = elim k [ ]
of-tasks_of (n ∷ modes) modspecs mode ms (Memᴰ.head e) m other =
    rw e (Memᴰ.append_left (tasks_of modes modspecs) (of-mode_tasks n modspecs ms m other))
of-tasks_of (n ∷ modes) modspecs mode ms (Memᴰ.tail k) m other =
    Memᴰ.append_right (mode_tasks n modspecs) (of-tasks_of modes modspecs mode ms k m other)

made :
    (modspecs : List ModuleSpec) (modes : List Text) {tasks : List Request}
    → create_govulncheck_queue_tasks (ok modspecs) modes ≡ ok tasks
    → tasks_of modes modspecs ≡ tasks
unfolding create_govulncheck_queue_tasks tasks_of
made modspecs [] h = cc
made modspecs (mode ∷ modes) h = cc

-- How many modules of a list are not the standard library.
abbrev pub other_modules : List ModuleSpec → ℕ
other_modules [] = 0
other_modules (ms ∷ modspecs) =
    (if text_eq ms.module_path (text "std") then 0 else 1) + other_modules modspecs

length-mode_tasks :
    (mode : Text) (modspecs : List ModuleSpec)
    → length (mode_tasks mode modspecs) ≡ other_modules modspecs
unfolding mode_tasks
length-mode_tasks mode [] = refl
length-mode_tasks mode (s ∷ modspecs) = elim (Bool-cases (text_eq s.module_path (text "std"))) [
  | inl std ↦ rw (std, not, if◌then◌else◌) (omega (arith, length-mode_tasks mode modspecs))
  | inr other ↦ rw (other, not, if◌then◌else◌) (omega (arith, length-mode_tasks mode modspecs))
]

length-tasks_of :
    (modes : List Text) (modspecs : List ModuleSpec)
    → length (tasks_of modes modspecs) ≡ length modes * other_modules modspecs
unfolding tasks_of
length-tasks_of [] modspecs = omega arith
length-tasks_of (mode ∷ modes) modspecs =
    length-append (mode_tasks mode modspecs) (tasks_of modes modspecs)
    ∙ ap (λ n. n + length (tasks_of modes modspecs)) (length-mode_tasks mode modspecs)
    ∙ ap (λ n. other_modules modspecs + n) (length-tasks_of modes modspecs)
    ∙ suc_times (length modes) (other_modules modspecs)
  where
    suc_times : (n m : ℕ) → m + n * m ≡ suc n * m
    suc_times n m = ground arith

-- When createGovulncheckQueueTasks succeeds, its tasks are exactly the requests with the path, the
-- version and the number of importers of a module of the list other than the standard library, in
-- one of the modes, with no suffix, and neither insecure nor one that serves its results; there are
-- as many tasks as there are pairs of a mode and such a module.
pub create_govulncheck_queue_tasks-IsTask :
    (modspecs : List ModuleSpec) (modes : List Text) (r : Request) {tasks : List Request}
    → create_govulncheck_queue_tasks (ok modspecs) modes ≡ ok tasks
    → (length tasks ≡ length modes * other_modules modspecs)
      × (Memᴰ r tasks ↔ IsTask modes modspecs r)
create_govulncheck_queue_tasks-IsTask modspecs modes r {tasks} h =
    let same : tasks_of modes modspecs ≡ tasks = made modspecs modes h in
    rw (← same) (
      length-tasks_of modes modspecs,
      (
        λ m. tasks_of-of modes modspecs r m,
        λ p.
            rw (govulncheck_request_unique p.0 p.2.0 r p.2.3)
              (of-tasks_of modes modspecs p.0 p.2.0 p.1 p.2.1 p.2.2),
      ),
    )
