-- ===== src/Ejobs/Start.antt =====
-- cmd/ejobs/main.go: doStart and checkIsLinuxAmd64.
use pkgsite_metrics.Prelude.{
  Bool, false, ◌&&◌, ◌||◌, List, [], ◌∷◌, ◌++◌, Text, text, text_eq, if◌then◌else◌,
}
use pkgsite_metrics.Prelude.Int.{ℤ, pos, negsuc}
use pkgsite_metrics.Derrors.{Err, plain}
use pkgsite_metrics.Worker.Analysis.Running.{is_space}
use pkgsite_metrics.Worker.Analysis.Scan.{base}
use pkgsite_metrics.Ejobs.{
  Act, Env, Stat, missing, directory, file, stat_failed, ◌>>=◌, ◌>>◌, fail, print, done, check,
  lift, http_get, worker_path,
}
use pkgsite_metrics.Ejobs.Upload.{upload_analysis_binary}

-- GOOS and GOARCH of the settings: for each, the last one.
unfoldable pub platform : Text × Text → List (Text × Text) → Text × Text
platform (goos, goarch) [] = (goos, goarch)
platform (goos, goarch) ((key, value) ∷ settings) =
    let with_os = platform (value, goarch) settings in
    let with_arch = platform (goos, value) settings in
    let neither = platform (goos, goarch) settings in
    if text_eq key (text "GOOS")
    then with_os
    else if text_eq key (text "GOARCH")
    then with_arch
    else neither

abbrev pub is_linux_amd64 : Text × Text → Bool
is_linux_amd64 (goos, goarch) = text_eq goos (text "linux") && text_eq goarch (text "amd64")

abbrev other_platform : Text × Text → Err
other_platform (goos, goarch) =
    plain (text "binary not built for linux/amd64: GOOS=" ++ (goos ++ (text " GOARCH=" ++ goarch)))

abbrev pub checked_platform : Text × Text → Act Unit
checked_platform p = if is_linux_amd64 p then done else fail (other_platform p)

unfoldable pub check_is_linux_amd64 : Env → Text → Act Unit
check_is_linux_amd64 env binary_file =
    lift (env.build_info binary_file) >>= λ settings. checked_platform (platform ([], []) settings)

abbrev pub check_stat : Env → Text → Stat → Act Unit
check_stat env binary_file missing = fail (plain (binary_file ++ text " does not exist"))
check_stat env binary_file (stat_failed e) = fail e
check_stat env binary_file directory =
    fail (plain (binary_file ++ text " is a directory, not a file"))
check_stat env binary_file file = check_is_linux_amd64 env binary_file

-- strings.IndexFunc with unicode.IsSpace, of ASCII text.
unfoldable pub has_space : Text → Bool
has_space [] = false
has_space (c ∷ s) = is_space c || has_space s

unfoldable pub check_args : List Text → Act Unit
check_args [] = done
check_args (arg ∷ args) =
    let rest = check_args args in
    if has_space arg
    then fail (plain (text "arg " ++ (arg ++ text " contains whitespace: not supported")))
    else rest

-- strings.Join with a space.
unfoldable pub join_spaces : List Text → Text
join_spaces [] = []
join_spaces (a ∷ []) = a
join_spaces (a ∷ b ∷ args) = a ++ (b' ' ∷ join_spaces (b ∷ args))

abbrev args_query : Env → List Text → Text
args_query env [] = []
args_query env (a ∷ args) = text "&args=" ++ env.query_escape (join_spaces (a ∷ args))

abbrev min_query : Env → ℤ → Text
min_query env (pos n) = text "&min=" ++ env.decimal n
min_query env (negsuc n) = []

unfoldable pub enqueue_url : Env → Text → List Text → Text
enqueue_url env binary_file args = worker_path env (
    text "analysis/enqueue?binary="
    ++ (base binary_file
        ++ (text "&user="
            ++ (env.user ++ (args_query env args ++ min_query env env.min_importers)))))

abbrev pub enqueue : Env → Text → Act Unit
enqueue env url =
    if env.dry_run then print (text "dryrun: GET " ++ url) else (http_get env url >>= print)

unfoldable pub do_start : Env → List Text → Act Unit
do_start env [] = fail (plain (text "wrong number of args: want [-min N] BINARY [ARG1 ARG2 ...]"))
do_start env (binary_file ∷ args) = do
  check_stat env binary_file (env.stat binary_file)
  check_args args
  canceled ← upload_analysis_binary env binary_file
  if canceled
      then done
      else (do check env.identity_tokens; enqueue env (enqueue_url env binary_file args))
