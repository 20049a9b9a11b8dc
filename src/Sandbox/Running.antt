-- ===== src/Sandbox/Running.antt =====
-- internal/sandbox: what a command that succeeds in the sandbox has done.
use mathlib.Core.List.{Memᴰ}
use pkgsite_metrics.Prelude.{
  ◌≡◌, refl, sym, subst, ap, ◌∙◌, inl, inr, Bool, true, false, List, [], ◌∷◌, ◌++◌, Option, none,
  some, Text, text, text_eq, text_eq_iff, arith, if◌then◌else◌, Bool-cases,
}
use pkgsite_metrics.Derrors.{Err, Result, ok, err, in_context-ok, bind-ok, ok-value, wrap-none}
use pkgsite_metrics.Sandbox.{
  Sandbox, Cmd, Process, has_bind, Mount, OciConfig, Host, Inside, Exit, fatal, succeeded,
  is_bind_mount, check_mounts, checked_source, check_read, unless, write_error, Inside,
  check_config, validate, config_file, want_version, runsc_process, output, runner, environment,
  exit_of, write_out, run_cmd, read_cmd,
}
use pkgsite_metrics.Sandbox.Trimming.{trim_space}

-- The source of each mount with the option "bind" exists.
abbrev pub HaveSources : Host → List Mount → Type 0
HaveSources host [] = Unit
HaveSources host (m ∷ ms) =
    (Memᴰ (text "bind") m.options → host.stat m.source ≡ none) × HaveSources host ms

checked :
    (b : Bool) (o rest : Option Err)
    → (if b then checked_source o rest else rest) ≡ none
    → (b ≡ true → o ≡ none) × (rest ≡ none)
checked true none rest h = (λ e. refl, h)
checked true (some x) rest h = cc
checked false o rest h = (λ e. cc, h)

has_bind-bind : (opts : List Text) → Memᴰ (text "bind") opts → has_bind opts ≡ true
unfolding has_bind
has_bind-bind [] m = elim m [ ]
has_bind-bind (opt ∷ opts) (Memᴰ.head e) =
    rw (← e, (text_eq_iff (text "bind") (text "bind")).1 refl) refl
has_bind-bind (opt ∷ opts) (Memᴰ.tail m) = elim (Bool-cases (text_eq opt (text "bind"))) [
  | inl same ↦ rw same refl
  | inr other ↦ rw other (has_bind-bind opts m)
]

is_bind_mount-bind : (m : Mount) → Memᴰ (text "bind") m.options → is_bind_mount m ≡ true
unfolding is_bind_mount
is_bind_mount-bind m bind = has_bind-bind m.options bind

check_mounts-HaveSources :
    (host : Host) (ms : List Mount) → check_mounts host ms ≡ none → HaveSources host ms
unfolding check_mounts
check_mounts-HaveSources host [] h = tt
check_mounts-HaveSources host (m ∷ ms) h =
    let (found, rest) = checked (is_bind_mount m) (host.stat m.source) (check_mounts host ms) h in
    (λ bind. found (is_bind_mount-bind m bind), check_mounts-HaveSources host ms rest)

-- The configuration of the bundle that was read has the version that is wanted, and the source of
-- each of its bind mounts exists.
abbrev pub IsValid : Host → Sandbox → Type 0
IsValid host sb =
    (config : OciConfig) × (host.read_config (config_file sb) ≡ ok config)
    × (config.oci_version ≡ want_version)
    × HaveSources host config.mounts

check_config-none :
    (host : Host) (config : OciConfig)
    → check_config host config ≡ none
    → (config.oci_version ≡ want_version) × HaveSources host config.mounts
unfolding check_config
check_config-none host config h = elim (Bool-cases (text_eq config.oci_version want_version)) [
  | inl same ↦
      ((text_eq_iff _ _).0 same, check_mounts-HaveSources host config.mounts (rw same at h))
  | inr other ↦ absurd (ground (arith, other, h))
]

check_read-none :
    (host : Host) (r : Result OciConfig)
    → check_read host r ≡ none
    → (config : OciConfig) × (r ≡ ok config)
      × (config.oci_version ≡ want_version)
      × HaveSources host config.mounts
check_read-none host (ok config) h =
    let (version, sources) = check_config-none host config h in (config, refl, version, sources)
check_read-none host (err e) h = cc

pub validate-IsValid : (host : Host) (sb : Sandbox) → validate host sb ≡ none → IsValid host sb
unfolding validate
validate-IsValid host sb h =
    check_read-none host (host.read_config (config_file sb)) (wrap-none _ _ h)

unless-ok :
    {A : Type 0} {a : A} (o : Option Err) (r : Result A)
    → unless o r ≡ ok a
    → (o ≡ none) × (r ≡ ok a)
unless-ok none r h = (refl, h)
unless-ok (some e) r h = cc

-- The result of a process whose program is the runner: a runner that ends by log.Fatal fails.
abbrev pub result_of : Exit → Result Text
result_of (fatal e) = err e
result_of (succeeded out) = ok out

exited : (raw out : Text) (o : Option Err) → result_of (exit_of raw o) ≡ ok out → raw ≡ out
exited raw out none h = ok-value h
exited raw out (some e) h = cc

wrote_out :
    (inside : Inside) (r : Result Text) (out : Text)
    → result_of (write_out inside r) ≡ ok out
    → r ≡ ok out
wrote_out inside (ok raw) out h = ap ok (exited raw out (inside.write_stdout raw) h)
wrote_out inside (err e) out h = cc

ran :
    (inside : Inside) (input : Text) (c : Cmd) (out : Text)
    → inside.stdin ≡ ok input
    → inside.unmarshal input ≡ ok c
    → result_of (runner inside) ≡ ok out
    → inside.execute (environment inside.environ c) ≡ ok out
unfolding runner
ran inside input c out read decoded h = wrote_out inside _ out (
    subst (λ r. result_of (run_cmd inside r) ≡ ok out) decoded
      (subst (λ r. result_of (read_cmd inside r) ≡ ok out) read h))

-- The command that the runner runs for `c`: the same program, arguments and directory, and the
-- environment of `c`, with AppendToEnv behind that of the runner.
abbrev pub IsRunFor : List Text → Cmd → Cmd → Type 0
IsRunFor environ c run =
    (run.path ≡ c.path)
    × (run.args ≡ c.args)
    × (run.dir ≡ c.dir)
    × (run.env ≡ (if c.append_to_env then environ ++ c.env else c.env))

environment-IsRunFor : (environ : List Text) (c : Cmd) → IsRunFor environ c (environment environ c)
environment-IsRunFor environ c = elim (Bool-cases c.append_to_env) [
  | inl appends ↦ rw appends (refl, refl, refl, refl)
  | inr replaces ↦ rw replaces (refl, refl, refl, refl)
]

-- runsc in the directory of the bundle, without a network, with an input.
abbrev pub isolated : Sandbox → Text → Process
isolated sb stdin = record {
  program = sb.runsc;
  arguments =
      text "-ignore-cgroups"
      ∷ text "-network=none"
      ∷ text "-platform=systrap"
      ∷ text "-dcache=500"
      ∷ text "run"
      ∷ text "sandbox"
      ∷ [];
  work_dir = sb.bundle_dir;
  input = stdin;
}

runsc_process-isolated : (sb : Sandbox) (stdin : Text) → runsc_process sb stdin ≡ isolated sb stdin
unfolding runsc_process
runsc_process-isolated sb stdin = refl

-- Suppose that runsc, run in the directory of the bundle without a network, runs the runner on its
-- input, that the runner reads all of it, and that decoding undoes the encoding of a command. If
-- Output then gives a text, the configuration of the bundle has version 1.0.0, the source of each
-- of its mounts with the option "bind" exists, and the text is, without white space around it, what
-- a command has written inside of the sandbox: one with the path, the arguments and the directory
-- of the given command, and with its environment, which with AppendToEnv stands behind that of the
-- runner.
pub output-Runs :
    (host : Host) (sb : Sandbox) (c : Cmd) (out : Text) (inside : Text → Inside)
    → ((stdin : Text) → host.run (isolated sb stdin) ≡ result_of (runner (inside stdin)))
    → ((stdin : Text) → (inside stdin).stdin ≡ ok stdin)
    → ((stdin : Text) → host.marshal c ≡ ok stdin → (inside stdin).unmarshal stdin ≡ ok c)
    → output host sb c ≡ ok out
    → IsValid host sb
      × (stdin : Text) × (run : Cmd) × (written : Text) × IsRunFor (inside stdin).environ c run
      × ((inside stdin).execute run ≡ ok written)
      × (out ≡ trim_space written)
unfolding output
output-Runs host sb c out inside runs reads decodes h =
    let (valid, h1) = unless-ok (validate host sb) _ (in_context-ok (text "Cmd.Output") _ h) in
    let (piped, h2) = unless-ok host.stdin_pipe _ h1 in
    let (stdin, encoded, h3) = bind-ok (host.marshal c) _ h2 in
    let (raw, run_ok, h4) = bind-ok (host.run (runsc_process sb stdin)) _ h3 in
    let (sent, h5) = unless-ok (write_error host.write_stdin) _ h4 in
    (
      validate-IsValid host sb valid,
      stdin,
      environment (inside stdin).environ c,
      raw,
      environment-IsRunFor (inside stdin).environ c,
      ran (inside stdin) stdin c raw (reads stdin) (decodes stdin encoded)
          (sym (runs stdin) ∙ (ap host.run (sym (runsc_process-isolated sb stdin)) ∙ run_ok)),
      sym (ok-value h5),
    )
