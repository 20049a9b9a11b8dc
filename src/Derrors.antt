-- ===== src/Derrors.antt =====
-- internal/derrors/derrors.go: the error kinds, error values with what they wrap, and the
-- category of an error. The stack trace of a StackError is left out: it is never read here.
pub mod Category
use pkgsite_metrics.Prelude.{
  ℕ, ◌≡◌, refl, ◌⊎◌, inl, inr, Bool, true, false, ◌||◌, Option, none, some, ◌++◌, Text, text,
  contains, arith, if◌then◌else◌,
}

-- The values that `errors.New` makes in the `var` block.
pub data Kind : Type 0 where
  not_found not_fetched invalid_argument bad_module proxy_timed_out proxy_error : Kind
  big_query_error scan_module_panic_error scan_module_os_error load_packages_error : Kind
  load_packages_go_version_error load_packages_no_go_mod_error : Kind
  load_packages_no_go_sum_error load_packages_no_required_module_error : Kind
  load_packages_missing_go_sum_entry_error load_vendor_error : Kind
  load_packages_synthetic_error load_packages_imported_local_error : Kind
  scan_module_govulncheck_db_connection_error scan_module_govulncheck_error : Kind
  scan_synthetic_module_error scan_module_sandbox_error : Kind
  scan_module_memory_limit_exceeded scan_module_too_many_open_files : Kind

unfoldable pub kind_text : Kind → Text
kind_text not_found = text "not found"
kind_text not_fetched = text "not fetched by proxy"
kind_text invalid_argument = text "invalid argument"
kind_text bad_module = text "bad module"
kind_text proxy_timed_out = text "proxy timed out"
kind_text proxy_error = text "proxy error"
kind_text big_query_error = text "BigQuery error"
kind_text scan_module_panic_error = text "scan module panic"
kind_text scan_module_os_error = text "scan module OS error"
kind_text load_packages_error = text "scan module load packages error"
kind_text load_packages_go_version_error =
    text "scan module load packages error: Go version mismatch"
kind_text load_packages_no_go_mod_error =
    text "scan module load packages error: does not have go.mod"
kind_text load_packages_no_go_sum_error =
    text "scan module load packages error: does not have go.sum"
kind_text load_packages_no_required_module_error =
    text "scan module load packages error: no required module provided"
kind_text load_packages_missing_go_sum_entry_error =
    text "scan module load packages error: missing go.sum entry"
kind_text load_vendor_error = text "scan module load packages error: -mod=vendor mode"
kind_text load_packages_synthetic_error = text "scan synthetic module error"
kind_text load_packages_imported_local_error =
    text "scan module load packages error: package replaces an import with a local file/directory"
kind_text scan_module_govulncheck_db_connection_error =
    text "scan module govulncheck error: communication with vuln db failed"
kind_text scan_module_govulncheck_error = text "scan module govulncheck error"
kind_text scan_synthetic_module_error = text "scan synthetic module error"
kind_text scan_module_sandbox_error = text "sandbox related issue"
kind_text scan_module_memory_limit_exceeded = text "scan module memory limit exceeded"
kind_text scan_module_too_many_open_files = text "scan module too many open files"

Kind-discrete : Discrete Kind
Kind-discrete = hlevel

-- An error value: one of the kinds, a text alone, a text over the error that it wraps (the `%w`
-- of fmt.Errorf), a StackError, two errors joined, or the worker's serverError, which has no
-- Unwrap method.
pub data Err : Type 0 where
  sentinel : Kind → Err
  plain : Text → Err
  wrapped : Text → Err → Err
  stack_error : Err → Err
  joined : Err → Err → Err
  server_error : ℕ → Err → Err

-- The text of the worker's serverError is not read by the code modelled here, beyond its err.
unfoldable pub message : Err → Text
unfolding kind_text
message (sentinel k) = kind_text k
message (plain t) = t
message (wrapped t e) = t
message (stack_error e) = message e
message (joined e f) = message e ++ (text "\n" ++ message f)
message (server_error status e) = message e

unfoldable pub same_kind : Kind → Kind → Bool
unfolding Kind-discrete
same_kind a b = elim (Kind-discrete a b) [ yes _ ↦ true | no _ ↦ false ]

-- errors.Is against one of the kinds: the error itself, or one that it wraps.
unfoldable pub is : Err → Kind → Bool
is (sentinel k) target = same_kind k target
is (plain t) target = false
is (wrapped t e) target = is e target
is (stack_error e) target = is e target
is (joined e f) target = is e target || is f target
is (server_error status e) target = false

-- `errors.As(err, &se)` for a *StackError.
unfoldable pub as_stack_error : Err → Bool
as_stack_error (sentinel k) = false
as_stack_error (plain t) = false
as_stack_error (wrapped t e) = as_stack_error e
as_stack_error (stack_error e) = true
as_stack_error (joined e f) = as_stack_error e || as_stack_error f
as_stack_error (server_error status e) = false

-- An `error` result is `none` for nil. `context` is the formatted text of the format arguments.
unfoldable pub wrap : Text → Option Err → Option Err
wrap context none = none
wrap context (some e) = some (wrapped (context ++ (text ": " ++ message e)) e)

unfoldable pub new_stack_error : Err → Err
new_stack_error e = stack_error e

pub wrap_stack : Text → Option Err → Option Err
unfolding wrap as_stack_error new_stack_error
wrap_stack context none = none
wrap_stack context (some e) =
    wrap context (some (if as_stack_error e then e else new_stack_error e))

-- `Wrap`, and the error that is handed to `Report`.
pub wrap_and_report : Text → Option Err → Option Err × Option Err
unfolding wrap
wrap_and_report context e = (wrap context e, wrap context e)

-- errors.Join of two results.
abbrev pub join : Option Err → Option Err → Option Err
join none f = f
join (some e) none = some e
join (some e) (some f) = some (joined e f)

-- `Cleanup(&err, f)`, with the result of `f()`. A lone error is joined too: errors.Join returns a
-- joinError around it, with the same text and the same errors inside.
unfoldable pub cleanup : Option Err → Option Err → Option Err
cleanup e f = join e f

-- fmt.Errorf("%v: %w", err, kind): the text of the error is kept and the error itself is not.
unfoldable pub reclassify : Err → Kind → Err
reclassify e k = wrapped (message e ++ (text ": " ++ kind_text k)) (sentinel k)

-- fmt.Errorf("%w: %v", kind, ...).
unfoldable pub of_kind : Kind → Text → Err
of_kind k t = wrapped (kind_text k ++ (text ": " ++ t)) (sentinel k)

pub is_go_version_mismatch_error : Text → Bool
is_go_version_mismatch_error msg = contains msg (text "can't be built on Go")

-- A (value, error) result, and a chain of them.
pub data Result {ℓ} (A : Type ℓ) : Type ℓ where
  ok : A → Result A
  err : Err → Result A

infixl 5 ◌>>=◌
abbrev pub ◌>>=◌ {ℓ κ} : {A : Type ℓ} {B : Type κ} → Result A → (A → Result B) → Result B
ok a >>= f = f a
err e >>= f = err e

-- The deferred `derrors.Wrap(&err, ...)` of a function with a result.
abbrev pub in_context {ℓ} : {A : Type ℓ} → Text → Result A → Result A
in_context context (ok a) = ok a
in_context context (err e) = err (wrapped (context ++ (text ": " ++ message e)) e)

-- The deferred `derrors.WrapStack(&err, ...)`.
abbrev pub in_stack {ℓ} : {A : Type ℓ} → Text → Result A → Result A
in_stack context (ok a) = ok a
in_stack context (err e) = err (
    wrapped (context ++ (text ": " ++ message e))
      (if as_stack_error e then e else new_stack_error e))

pub Result-cases {ℓ} :
    {A : Type ℓ} (r : Result A) → ((a : A) × (r ≡ ok a)) ⊎ ((e : Err) × (r ≡ err e))
Result-cases (ok a) = inl (a, refl)
Result-cases (err e) = inr (e, refl)

pub ok-value {ℓ} : {A : Type ℓ} {a b : A} → ok a ≡ ok b → a ≡ b
ok-value h = cc

-- What succeeded in a chain, or under a deferred function that wraps errors.
pub bind-ok {ℓ κ} :
    {A : Type ℓ} {B : Type κ} (r : Result A) (f : A → Result B) {b : B}
    → (r >>= f) ≡ ok b
    → (a : A) × (r ≡ ok a) × (f a ≡ ok b)
bind-ok (ok a) f h = (a, refl, h)
bind-ok (err e) f h = ground (arith, h)

pub in_context-ok {ℓ} :
    {A : Type ℓ} (t : Text) (r : Result A) {a : A} → in_context t r ≡ ok a → r ≡ ok a
in_context-ok t (ok a) h = h
in_context-ok t (err e) h = ground (arith, h)

pub in_stack-ok {ℓ} :
    {A : Type ℓ} (t : Text) (r : Result A) {a : A} → in_stack t r ≡ ok a → r ≡ ok a
in_stack-ok t (ok a) h = h
in_stack-ok t (err e) h = ground (arith, h)

pub wrap-none : (t : Text) (e : Option Err) → wrap t e ≡ none → e ≡ none
unfolding wrap
wrap-none t none h = refl
wrap-none t (some e) h = ground (arith, h)
