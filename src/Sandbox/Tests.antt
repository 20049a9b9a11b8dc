-- ===== src/Sandbox/Tests.antt =====
-- internal/sandbox: the theorems at a command that is run with an environment of its own.
use pkgsite_metrics.Prelude.{◌≡◌, refl, true, [], ◌∷◌, none, Text, text, text_eq}
use pkgsite_metrics.Derrors.{ok, wrap}
use pkgsite_metrics.Sandbox.{
  new, Cmd, command, Mount, Host, Inside, output, runner, validate, check_config, check_mounts,
  is_bind_mount, has_bind,
}
use pkgsite_metrics.Sandbox.Trimming.{trim_space, trim_left, trim_right}
use pkgsite_metrics.Sandbox.Running.{IsValid, IsRunFor, output-Runs}
use pkgsite_metrics.Worker.Analysis.Running.{is_space}

abbrev modules : Mount
modules = record {
  destination = text "/tmp/modules";
  mount_type = text "none";
  source = text "/tmp/modules";
  options = text "rw" ∷ text "bind" ∷ [];
}

abbrev listing : Cmd
listing = record (command (text "ls") (text "-l" ∷ [])) {
  env = text "A=1" ∷ [];
  append_to_env = true;
}

abbrev inside : Text → Inside
inside stdin = record {
  stdin = ok stdin;
  environ = text "HOME=/root" ∷ [];
  unmarshal = λ t. ok listing;
  execute = λ c. ok (text " a b\n");
  write_stdout = λ t. none;
}

abbrev host : Host
host = record {
  read_config = λ f. ok (record { oci_version = text "1.0.0"; mounts = modules ∷ [] });
  stat = λ f. none;
  stdin_pipe = none;
  marshal = λ c. ok (text "{}");
  run = λ p. ok (text " a b\n");
  write_stdin = none;
}

listed : output host (new (text "/bundle")) listing ≡ ok (text "a b")
unfolding output validate check_config check_mounts is_bind_mount has_bind wrap text_eq trim_space
    trim_left trim_right is_space
listed = refl

output-Runs_example :
    IsValid host (new (text "/bundle"))
    × (stdin : Text) × (run : Cmd) × (written : Text) × IsRunFor (inside stdin).environ listing run
    × ((inside stdin).execute run ≡ ok written)
    × (text "a b" ≡ trim_space written)
unfolding runner command
output-Runs_example =
    output-Runs host (new (text "/bundle")) listing (text "a b") inside (λ stdin. refl)
      (λ stdin. refl) (λ stdin e. refl) listed
