-- ===== src/Ejobs/Commands.antt =====
-- cmd/ejobs/main.go: the table of commands, and run.
use pkgsite_metrics.Prelude.{
  ℕ, Bool, List, [], ◌∷◌, ◌++◌, Text, text, text_eq, is_empty, if◌then◌else◌,
}
use pkgsite_metrics.Prelude.Int.{ℤ}
use pkgsite_metrics.Derrors.{Result, ok, err, plain}
use pkgsite_metrics.Ejobs.{Act, Env, ◌>>=◌, fail, lift}
use pkgsite_metrics.Ejobs.Wait.{do_wait}
use pkgsite_metrics.Ejobs.Start.{do_start}
use pkgsite_metrics.Ejobs.Show.{do_show, do_list, do_cancel, do_results}

-- A command: what its flags make of the arguments and the environment, and its function.
pub record Command : Type 0 where
  pub name : Text
  pub flags : Env → List Text → Result (Env × List Text)
  pub act : Env → List Text → Act Unit

-- Without flags of its own, a command gets all the arguments.
abbrev no_flags : Env → List Text → Result (Env × List Text)
no_flags env args = ok (env, args)

-- What package flag makes of the arguments, for the commands that define flags.
pub record Flags : Type 0 where
  pub start_flags : List Text → Result (ℤ × List Text)
  pub wait_flags : List Text → Result (ℕ × List Text)
  pub results_flags : List Text → Result ((Bool × Text) × List Text)

-- The values of the flags are global variables, which the command reads.
abbrev pub set_flags :
    {A : Type 0} → (Env → A → Env) → Env → Result (A × List Text) → Result (Env × List Text)
set_flags set env (err e) = err e
set_flags set env (ok (value, args)) = ok (set env value, args)

abbrev pub set_min : Env → ℤ → Env
set_min env n = record env { min_importers = n }

abbrev pub set_interval : Env → ℕ → Env
set_interval env d = record env { wait_interval = d }

abbrev pub set_results : Env → Bool × Text → Env
set_results env (force, outfile) = record env { force = force; outfile = outfile }

abbrev start_args : Flags → Env → List Text → Result (Env × List Text)
start_args flags env args = set_flags set_min env (flags.start_flags args)

abbrev wait_args : Flags → Env → List Text → Result (Env × List Text)
wait_args flags env args = set_flags set_interval env (flags.wait_flags args)

abbrev results_args : Flags → Env → List Text → Result (Env × List Text)
results_args flags env args = set_flags set_results env (flags.results_flags args)

abbrev pub do_wait_bounded : ℕ → Env → List Text → Act Unit
do_wait_bounded fuel env args = do_wait env fuel args

-- `fuel` bounds the polls of `wait`.
unfoldable pub commands : Flags → ℕ → List Command
commands flags fuel =
    record { name = text "list"; flags = no_flags; act = do_list }
    ∷ record { name = text "show"; flags = no_flags; act = do_show }
    ∷ record { name = text "cancel"; flags = no_flags; act = do_cancel }
    ∷ record { name = text "start"; flags = start_args flags; act = do_start }
    ∷ record { name = text "wait"; flags = wait_args flags; act = do_wait_bounded fuel }
    ∷ record { name = text "results"; flags = results_args flags; act = do_results }
    ∷ []

unfoldable pub dispatch : Env → List Command → Text → List Text → Act Unit
dispatch env [] name args = fail (plain (text "unknown command " ++ name))
dispatch env (c ∷ cs) name args =
    let others = dispatch env cs name args in
    if text_eq c.name name
    then (lift (c.flags env args) >>= λ parsed. c.act parsed.0 parsed.1)
    else others

abbrev pub at_url : Env → Text → Text → Env
at_url env environment suffix = record env {
  worker_url = text "https://" ++ (environment ++ (b'-' ∷ suffix));
}

-- `suffix` is GO_ECOSYSTEM_WORKER_URL_SUFFIX, `environment` the flag -env.
unfoldable pub run : Env → Flags → ℕ → Text → Text → Text → List Text → Act Unit
run env flags fuel suffix environment name args =
    if is_empty suffix
    then fail (plain (text "need GO_ECOSYSTEM_WORKER_URL_SUFFIX environment variable"))
    else dispatch (at_url env environment suffix) (commands flags fuel) name args
