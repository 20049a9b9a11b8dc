-- ===== src/Queue/Names.antt =====
-- internal/queue/queue.go: the names of tasks.
use pkgsite_metrics.Prelude.{
  ℕ, ◌↔◌, none, zero, suc, ◌-◌, ◌/◌, ◌%◌, ◌<◌, ◌≡◌, refl, Bool, true, false, ◌&&◌, ◌||◌, [], ◌∷◌,
  ◌++◌, Text, text, is_empty, length, ltb, ◌==◌, if◌then◌else◌, arith, replicate, Bool-cases, subst,
  inl, inr, append_assoc,
}
use pkgsite_metrics.Derrors.{Result, ok, err}
use pkgsite_metrics.Queue.{
  Task, Options, Gcp, TaskRequest, is_plain, hex_digit, hex_digits, hex4, escape_rune,
  escape_task_id, new_task_id, new_task_request, request, Created, created, sent, enqueue_scan,
}

-- The characters of a Cloud Tasks name.
abbrev pub is_valid_byte : ℕ → Bool
is_valid_byte r = is_plain r || r == b'_'

abbrev pub is_valid_id : Text → Bool
is_valid_id [] = true
is_valid_id (r ∷ s) = is_valid_byte r && is_valid_id s

valid-append :
    (s t : Text) → is_valid_id s ≡ true → is_valid_id t ≡ true → is_valid_id (s ++ t) ≡ true
valid-append [] t h k = k
valid-append (r ∷ s) t h k = ground (arith, valid-append s t)

if-valid :
    (b : Bool) (s t : Text)
    → is_valid_id s ≡ true
    → is_valid_id t ≡ true
    → is_valid_id (if b then s else t) ≡ true
if-valid true s t h k = h
if-valid false s t h k = k

hex_digit-valid : (n : ℕ) → n < 16 → is_valid_byte (hex_digit n) ≡ true
unfolding hex_digit is_plain
hex_digit-valid n h = ground arith

hex_digits-valid : (fuel n : ℕ) → is_valid_id (hex_digits fuel n) ≡ true
unfolding hex_digits
hex_digits-valid zero n = refl
hex_digits-valid (suc fuel) n =
    let last : is_valid_byte (hex_digit (n % 16)) ≡ true = hex_digit-valid (n % 16) (omega arith) in
    valid-append (if ltb n 16 then [] else hex_digits fuel (n / 16)) (hex_digit (n % 16) ∷ [])
      (if-valid (ltb n 16) [] (hex_digits fuel (n / 16)) refl (hex_digits-valid fuel (n / 16)))
      (rw last refl)

zeros-valid : (n : ℕ) → is_valid_id (replicate n b'0') ≡ true
unfolding is_plain
zeros-valid zero = refl
zeros-valid (suc n) = zeros-valid n

hex4-valid : (n : ℕ) → is_valid_id (b'_' ∷ hex4 n) ≡ true
unfolding is_plain
hex4-valid n =
    valid-append (replicate (4 - length (hex_digits 6 n)) b'0') (hex_digits 6 n)
      (zeros-valid (4 - length (hex_digits 6 n))) (hex_digits-valid 6 n)

escape_rune-valid : (r : ℕ) → is_valid_id (escape_rune r) ≡ true
unfolding escape_rune is_plain
escape_rune-valid r = elim (Bool-cases (is_plain r)) [
  | inl plain ↦ rw (plain, if◌then◌else◌) (rw plain refl)
  | inr not_plain ↦
      rw (not_plain, if◌then◌else◌)
        (if-valid (r == b'_') (text "__") _ refl (
          if-valid (r == b'/') (text "_-") _ refl (
            if-valid (r == b'@') (text "_") _ refl
              (if-valid (r == b'.') (text "_") _ refl (hex4-valid r)))))
]

escape_task_id-valid : (s : Text) → is_valid_id (escape_task_id s) ≡ true
unfolding escape_task_id
escape_task_id-valid [] = refl
escape_task_id-valid (r ∷ s) =
    valid-append (escape_rune r) (escape_task_id s) (escape_rune-valid r) (escape_task_id-valid s)

-- The parts of a made request that its options and its task decide.
pub record IsNamed (q : Gcp) (req : TaskRequest) : Type 0 where
  pub id : Text
  pub named : req.task_name ≡ q.queue_name ++ (text "/tasks/" ++ id)
  pub valid : is_valid_id id ≡ true
  pub in_queue : req.parent ≡ q.queue_name

request-IsNamed :
    (hash : Text → Text) (q : Gcp) (task : Task) (opts : Options)
    → is_valid_id opts.task_name_suffix ≡ true
    → IsNamed q (request hash q task opts)
unfolding new_task_id is_plain
request-IsNamed hash q task opts h =
    let id : Text = new_task_id hash opts.namespace task in
    let valid : is_valid_id id ≡ true = escape_task_id-valid _ in
    elim (Bool-cases (is_empty opts.task_name_suffix)) [
      | inl empty ↦ record {
        id = id;
        named = rw (empty, if◌then◌else◌) refl;
        valid = valid;
        in_queue = refl;
      }
      | inr more ↦ record {
        id = id ++ (b'-' ∷ opts.task_name_suffix);
        named = rw (more, if◌then◌else◌) (append_assoc q.queue_name (text "/tasks/" ++ id) _);
        valid = valid-append id (b'-' ∷ opts.task_name_suffix) valid h;
        in_queue = refl;
      }
    ]

-- When newTaskRequest makes a request, for a suffix of letters, digits, hyphens and underscores,
-- the name of its task is that of the queue, "/tasks/" and an ID of these characters alone, and the
-- request is for the queue, whatever the task, the namespace and the hash are. The suffix is
-- not escaped, so its characters are a condition.
pub new_task_request-IsNamed :
    (hash : Text → Text) (q : Gcp) (task : Task) (opts : Options) {req : TaskRequest}
    → is_valid_id opts.task_name_suffix ≡ true
    → new_task_request hash q task opts ≡ ok req
    → IsNamed q req
unfolding new_task_request
new_task_request-IsNamed hash q task opts {req} h made =
    elim (Bool-cases (is_empty opts.namespace)) [
      | inl absent ↦ ground (arith, made)
      | inr present ↦
          let same : request hash q task opts ≡ req = cc in
          subst (λ r. IsNamed q r) same (request-IsNamed hash q task opts h)
    ]

sent-added :
    (context : Text) (create : TaskRequest → Created) (r : Result TaskRequest)
    → (sent context create r ≡ (true, none))
      ↔ ((req : TaskRequest) × (r ≡ ok req) × (create req ≡ created))
sent-added context create (err e) = (λ h. ground (arith, h), λ p. ground (arith, p.1))
sent-added context create (ok req) =
    (λ h. (req, refl, ground (arith, h)), λ p. ground (arith, p.1, p.2))

-- EnqueueScan reports that a task was added exactly when newTaskRequest makes a request, and Cloud
-- Tasks creates its task: a duplicate is reported as not added.
pub enqueue_scan-added :
    (hash : Text → Text) (create : TaskRequest → Created) (q : Gcp) (context : Text) (task : Task)
    (opts : Options)
    → (enqueue_scan hash create q context task opts ≡ (true, none)) ↔ (
        (req : TaskRequest) × (new_task_request hash q task opts ≡ ok req) × (create req ≡ created))
unfolding enqueue_scan
enqueue_scan-added hash create q context task opts =
    sent-added context create (new_task_request hash q task opts)
