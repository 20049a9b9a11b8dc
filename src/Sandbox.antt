-- ===== src/Sandbox.antt =====
-- internal/sandbox/sandbox.go and internal/sandbox/runner.go: running a command in the sandbox, and
-- the program inside that runs it. Files, JSON, pipes and processes are fields of `Host` and `Inside`.
pub mod Trimming
pub mod Running
mod Tests
use pkgsite_metrics.Prelude.{
  Bool, true, false, ◌||◌, List, [], ◌∷◌, ◌++◌, Option, none, some, Text, text, text_eq,
  if◌then◌else◌,
}
use pkgsite_metrics.Derrors.{Err, Result, ok, err, plain, wrapped, message, wrap, in_context, ◌>>=◌}
use pkgsite_metrics.Paths.{join}
use pkgsite_metrics.Sandbox.Trimming.{trim_space}

pub record Sandbox : Type 0 where
  pub bundle_dir : Text
  pub runsc : Text

unfoldable pub new : Text → Sandbox
new bundle_dir = record { bundle_dir = bundle_dir; runsc = text "runsc" }

-- Cmd, without its sandbox.
pub record Cmd : Type 0 where
  pub path : Text
  pub args : List Text
  pub env : List Text
  pub append_to_env : Bool
  pub dir : Text

unfoldable pub command : Text → List Text → Cmd
command path arg = record {
  path = path;
  args = path ∷ arg;
  env = [];
  append_to_env = false;
  dir = [];
}

pub record Mount : Type 0 where
  pub destination : Text
  pub mount_type : Text
  pub source : Text
  pub options : List Text

pub record OciConfig : Type 0 where
  pub oci_version : Text
  pub mounts : List Mount

-- What exec.Command of the host runs: a program with arguments, in a directory, with an input.
pub record Process : Type 0 where
  pub program : Text
  pub arguments : List Text
  pub work_dir : Text
  pub input : Text

-- os.Open with the decoding of the JSON, os.Stat, StdinPipe, json.Marshal, and running a process,
-- with the error of the write to its input.
pub record Host : Type 0 where
  pub read_config : Text → Result OciConfig
  pub stat : Text → Option Err
  pub stdin_pipe : Option Err
  pub marshal : Cmd → Result Text
  pub run : Process → Result Text
  pub write_stdin : Option Err

unfoldable pub has_bind : List Text → Bool
has_bind [] = false
has_bind (opt ∷ opts) = text_eq opt (text "bind") || has_bind opts

unfoldable pub is_bind_mount : Mount → Bool
unfolding has_bind
is_bind_mount m = has_bind m.options

abbrev missing_source : Err → Err
missing_source e = wrapped (text "bind mount source: " ++ message e) e

abbrev pub checked_source : Option Err → Option Err → Option Err
checked_source none rest = rest
checked_source (some e) rest = some (missing_source e)

-- The loop over the mounts.
unfoldable pub check_mounts : Host → List Mount → Option Err
check_mounts host [] = none
check_mounts host (m ∷ ms) =
    let rest = check_mounts host ms in
    if is_bind_mount m then checked_source (host.stat m.source) rest else rest

abbrev pub want_version : Text
want_version = text "1.0.0"

unfoldable pub check_config : Host → OciConfig → Option Err
check_config host config =
    if text_eq config.oci_version want_version
    then check_mounts host config.mounts
    else some (plain (text "ociVersion: got " ++ (config.oci_version ++ text ", want 1.0.0")))

abbrev pub check_read : Host → Result OciConfig → Option Err
check_read host (ok config) = check_config host config
check_read host (err e) = some e

abbrev pub config_file : Sandbox → Text
config_file sb = join sb.bundle_dir (text "config.json")

unfoldable pub validate : Host → Sandbox → Option Err
validate host sb =
    wrap (text "Sandbox.Validate()") (check_read host (host.read_config (config_file sb)))

unfoldable pub runsc_process : Sandbox → Text → Process
runsc_process sb stdin = record {
  program = sb.runsc;
  arguments =
      text "-ignore-cgroups"
      ∷ text "-network=none"
      ∷ text "-platform=systrap"
      ∷ text "-dcache=500"
      ∷ text "run"
      ∷ text "sandbox"
      ∷ [];
  work_dir = sb.bundle_dir;
  input = stdin;
}

abbrev pub write_error : Option Err → Option Err
write_error none = none
write_error (some e) = some (wrapped (text "writing stdin: " ++ message e) e)

-- A step that may fail, and what follows it.
abbrev pub unless : {A : Type 0} → Option Err → Result A → Result A
unless none next = next
unless (some e) next = err e

-- Cmd.Output
unfoldable pub output : Host → Sandbox → Cmd → Result Text
output host sb c = in_context (text "Cmd.Output") (
    unless (validate host sb) (
      unless host.stdin_pipe (
        host.marshal c >>= λ stdin.
        (host.run (runsc_process sb stdin) >>= λ out.
        unless (write_error host.write_stdin) (ok (trim_space out))))))

-- What the runner asks of its process: its input, its environment, decoding JSON, and running an
-- exec.Cmd. An error of a run comes with what the process wrote to its standard error.
pub record Inside : Type 0 where
  pub stdin : Result Text
  pub environ : List Text
  pub unmarshal : Text → Result Cmd
  pub execute : Cmd → Result Text
  pub write_stdout : Text → Option Err

-- How the runner ends: by log.Fatal, or with what it has written to its standard output.
pub data Exit : Type 0 where
  fatal : Err → Exit
  succeeded : Text → Exit

abbrev pub environment : List Text → Cmd → Cmd
environment environ c = if c.append_to_env then record c { env = environ ++ c.env } else c

abbrev pub exit_of : Text → Option Err → Exit
exit_of out none = succeeded out
exit_of out (some e) = fatal e

abbrev pub write_out : Inside → Result Text → Exit
write_out inside (ok out) = exit_of out (inside.write_stdout out)
write_out inside (err e) = fatal e

abbrev pub run_cmd : Inside → Result Cmd → Exit
run_cmd inside (ok c) = write_out inside (inside.execute (environment inside.environ c))
run_cmd inside (err e) = fatal e

abbrev pub read_cmd : Inside → Result Text → Exit
read_cmd inside (ok input) = run_cmd inside (inside.unmarshal input)
read_cmd inside (err e) = fatal e

-- The main function of the runner.
unfoldable pub runner : Inside → Exit
runner inside = read_cmd inside inside.stdin
