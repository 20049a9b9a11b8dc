-- ===== src/Worker/Prepare.antt =====
-- internal/worker/scan.go and internal/modules/modules.go: preparing a module for a scan, running
-- the scan, and writing its rows. The module proxy, the file system, the go command and BigQuery
-- are not part of the repository: the results of their calls are fields of `Tools`.
use pkgsite_metrics.Prelude.{
  Bool, true, false, not, ◌||◌, List, [], ◌∷◌, Option, none, some, Text, text, if◌then◌else◌,
}
use pkgsite_metrics.Derrors.{
  Err, reclassify, of_kind, wrap, cleanup, proxy_error, scan_module_os_error, bad_module,
  scan_module_panic_error,
}

pub record Tools : Type 0 where
  -- the errors of proxyClient.Zip, of writing the files of the zip, and of os.RemoveAll
  pub zip : Option Err
  pub write_zip : Option Err
  pub remove_all : Option Err
  -- fileExists of go.mod in the downloaded module
  pub has_go_mod : Bool
  -- the text of the error of running `go` with arguments
  pub go : List Text → Option Text

-- modules.Download: with the error of a step under a kind of its own.
abbrev write_files : Option Err → Option Err
write_files none = none
write_files (some e) = some (reclassify e scan_module_os_error)

abbrev download_files : Option Err → Option Err → Option Err
download_files none written = write_files written
download_files (some e) written = some (reclassify e proxy_error)

unfoldable pub download : Tools → Option Err
download tools = download_files tools.zip tools.write_zip

abbrev go_error : Option Text → Option Err
go_error none = none
go_error (some t) = wrap (text "runGoCommand") (some (of_kind bad_module t))

unfoldable pub run_go_command : Tools → List Text → Option Err
run_go_command tools args = go_error (tools.go args)

-- The second step is made if the first has no error.
infixl 5 ◌then_try◌
abbrev pub ◌then_try◌ : Option Err → Option Err → Option Err
none then_try next = next
some e then_try next = some e

unfoldable pub prepare_module : Tools → Text → Bool → Option Err
prepare_module tools module_path init =
    download tools
    then_try (if not init || tools.has_go_mod
        then run_go_command tools (text "mod" ∷ text "download" ∷ [])
        else run_go_command tools (text "mod" ∷ text "init" ∷ module_path ∷ [])
          then_try run_go_command tools (text "mod" ∷ text "tidy" ∷ []))

-- How a function call ends.
pub data Ran {ℓ} (A : Type ℓ) : Type ℓ where
  returned : A → Ran A
  panicked : Text → Ran A

-- doScan, on how the scan `f` ends: a panic becomes an error. The counter of active scans and the
-- cleaning of the Go caches do not change the result.
unfoldable pub do_scan : Ran (Option Err) → Option Err
do_scan (returned e) = wrap (text "doScan") e
do_scan (panicked t) = wrap (text "doScan") (some (of_kind scan_module_panic_error t))

-- A function that ends with `defer derrors.Cleanup(&err, ...)`.
unfoldable pub with_cleanup : Ran (Option Err) → Option Err → Ran (Option Err)
with_cleanup (returned e) removed = returned (cleanup e removed)
with_cleanup (panicked t) removed = panicked t

-- Where the rows of a result go.
pub data Output {ℓ} (A : Type ℓ) : Type ℓ where
  served : A → Output A
  uploaded : A → Output A
  dropped : Output A

-- writeResult and writeResults: `upload` is the error of the upload, if there is a client at all.
-- An error of serving is only logged.
unfoldable pub write_results {ℓ} :
    {A : Type ℓ} → Bool → Option (Option Err) → A → Output A × Option Err
write_results true upload rows = (served rows, none)
write_results false none rows = (dropped, none)
write_results false (some e) rows = (uploaded rows, wrap (text "writeResults") e)
