-- ===== src/Worker/Analysis/Running.antt =====
-- internal/worker/analysis.go: the map of work versions, and running an analysis binary on a module.
-- The answers of the job database, the file system, the binary, the proxy and BigQuery are fields
-- of `World`.
use pkgsite_metrics.Prelude.{
  ℕ, Bool, true, false, not, ◌||◌, List, [], ◌∷◌, ◌++◌, Option, none, some, Text, text, ◌==◌,
  if◌then◌else◌,
}
use pkgsite_metrics.Prelude.Int.{ℤ}
use pkgsite_metrics.Proxy.Kept.{VersionInfo}
use pkgsite_metrics.Derrors.{
  Err, Result, ok, err, plain, message, of_kind, wrap, cleanup, proxy_error,
}
use pkgsite_metrics.Version.Sorting.{for_sorting}
use pkgsite_metrics.Worker.Classify.{classify_analysis_error}
use pkgsite_metrics.Worker.Prepare.{
  Tools, prepare_module, returned, do_scan, Output, served, uploaded, dropped,
}
use pkgsite_metrics.Worker.Modes.{}
use pkgsite_metrics.Worker.Analysis.{
  ScanRequest, WorkVersion, WorkVersionKey, same_key, JsonTree, Row, Diagnostic, add_error,
  json_tree_to_diagnostics,
}
use pkgsite_metrics.Worker.Analysis.Positions.{add_source}

-- GetJob's answer is whether the job is canceled. Without a BigQuery client,
-- `stored_work_version` and `upload` are `none`.
pub record World : Type 0 where
  pub has_job_db : Bool
  pub get_job : Text → Result Bool
  pub copy_binary : Option Err
  pub hash_binary : Result Text
  pub remove_binary : Option Err
  pub version_id : Text
  pub schema_version : Text
  pub stored_work_version : Option (WorkVersionKey → Result (Option WorkVersion))
  -- whether the module's directory has a go.mod file before anything is downloaded
  pub go_mod_exists : Bool
  pub tools : Tools
  pub run_binary : List Text → Result Text
  pub unmarshal : Text → Result JsonTree
  pub info : Text → Text → Result VersionInfo
  pub print : ℤ → Text
  pub open_file : Text → Result (List Text × Option Err)
  pub upload : Option (Row → Option Err)

-- The map storedWorkVersions; a missing key has the zero value.
abbrev pub Store : Type 0
Store = List (WorkVersionKey × WorkVersion)

unfoldable pub stored : Store → WorkVersionKey → Option WorkVersion
stored [] k = none
stored ((l, v) ∷ store) k = if same_key l k then some v else stored store k

abbrev zero_work_version : WorkVersion
zero_work_version = record {
  binary_version = [];
  binary_args = [];
  worker_version = [];
  schema_version = [];
}

unfoldable pub stored_or_zero : Store → WorkVersionKey → WorkVersion
stored_or_zero store k = elim (stored store k) [ none ↦ zero_work_version | some v ↦ v ]

abbrev keep_read : Store → WorkVersionKey → Result (Option WorkVersion) → Store × Option Err
keep_read store k (err e) = (store, some e)
keep_read store k (ok none) = (store, none)
keep_read store k (ok (some v)) = ((k, v) ∷ store, none)

abbrev read_unless_stored :
    Option (WorkVersionKey → Result (Option WorkVersion))
    → Store
    → WorkVersionKey
    → Option WorkVersion
    → Store × Option Err
read_unless_stored client store k (some v) = (store, none)
read_unless_stored none store k none = (store, none)
read_unless_stored (some read) store k none = keep_read store k (read k)

unfoldable pub read_work_version :
    Option (WorkVersionKey → Result (Option WorkVersion))
    → Store
    → WorkVersionKey
    → Store × Option Err
read_work_version client store k = read_unless_stored client store k (stored store k)

-- strings.Fields, of ASCII text: `word` is the field so far.
unfoldable pub is_space : ℕ → Bool
is_space c = c == 32 || c == 9 || c == 10 || c == 11 || c == 12 || c == 13

abbrev pub field : Text → List Text → List Text
field [] fs = fs
field (c ∷ s) fs = (c ∷ s) ∷ fs

unfoldable pub fields_from : Text → Text → List Text
fields_from word [] = field word []
fields_from word (c ∷ s) =
    let next = fields_from [] s in
    let more = fields_from (word ++ (c ∷ [])) s in if is_space c then field word next else more

unfoldable pub fields : Text → List Text
fields s = fields_from [] s

abbrev unmarshalled : (Text → Result JsonTree) → Result Text → Result JsonTree
unmarshalled unmarshal (err e) = err (plain (text "running analysis binary: " ++ message e))
unmarshalled unmarshal (ok out) = unmarshal out

pub run_analysis_binary : World → Text → Result JsonTree
run_analysis_binary world req_args =
    unmarshalled world.unmarshal
      (world.run_binary (text "-json" ∷ (fields req_args ++ (text "./..." ∷ []))))

abbrev after_preparation : Option Err → Result JsonTree → Result JsonTree
after_preparation (some e) tree = err e
after_preparation none tree = tree

pub scan_internal : World → ScanRequest → Result JsonTree
scan_internal world req =
    after_preparation (prepare_module world.tools req.module_path (not req.params.skip_init))
      (run_analysis_binary world req.params.args)

abbrev with_source : Row → List Diagnostic × Option Err → Row × Option Err
with_source row (ds, e) = (record row { diagnostics = ds }, e)

abbrev with_info : World → Row → JsonTree → Result VersionInfo → Row × Option Err
with_info world row tree (err e) = (row, some (of_kind proxy_error (message e)))
with_info world row tree (ok info) =
    with_source (record row { version = info.version; commit_time = info.time })
      (add_source world.print world.open_file 1 (json_tree_to_diagnostics tree))

-- The function that scan gives to doScan, without its deferred removal of the module directory.
abbrev with_tree : World → ScanRequest → Row → Result JsonTree → Row × Option Err
with_tree world req row (err e) = (row, some e)
with_tree world req row (ok tree) =
    with_info world row tree (world.info req.module_path req.version)

abbrev classified : Bool → Option Err → Option Err
classified has_go_mod none = none
classified has_go_mod (some e) = some (classify_analysis_error has_go_mod e)

abbrev sorted : Row → Option Text → Option Row
sorted row none = none
sorted row (some t) = some (record row { sort_version = t })

abbrev new_row : ScanRequest → WorkVersion → Row
new_row req wv = record {
  created_at = 0;
  module_path = req.module_path;
  version = req.version;
  sort_version = [];
  commit_time = 0;
  binary_name = req.params.binary;
  error = [];
  error_category = [];
  work_version = wv;
  diagnostics = [];
}

-- The function `scan`; `none` is the panic of version.ForSorting.
pub scan : World → ScanRequest → WorkVersion → Option Row
scan world req wv =
    let (row, e) = with_tree world req (new_row req wv) (scan_internal world req) in
    let failed = do_scan (returned (cleanup e world.tools.remove_all)) in
    let row' = add_error row (classified world.go_mod_exists failed) in
    sorted row' (for_sorting row'.version)

-- writeResult
pub write_result : Bool → Option (Row → Option Err) → Row → Output Row × Option Err
write_result true client row = (served row, none)
write_result false none row = (dropped, none)
write_result false (some upload) row = (uploaded row, wrap (text "writeResult") (upload row))
