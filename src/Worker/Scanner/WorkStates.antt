-- ===== src/Worker/Scanner/WorkStates.antt =====
-- internal/worker/govulncheck_scan.go: the work states that a scan stores, and when a later
-- request for the same module and version is skipped because of them.
use pkgsite_metrics.Prelude.{
  ℕ, ◌≡◌, refl, Bool, true, List, [], Option, none, some, Text, text_eq, text_eq_refl, arith,
  if◌then◌else◌,
}
use pkgsite_metrics.Proxy.Kept.{VersionInfo}
use pkgsite_metrics.Derrors.{Err, Result, ok, err, is, same_kind}
use pkgsite_metrics.Derrors.Category.{categorize_error}
use pkgsite_metrics.Govulncheck.{WorkVersion, WorkState, Row, Request, work_version_equal}
use pkgsite_metrics.Version.Sorting.{for_sorting}
use pkgsite_metrics.Worker.Classify.{unrecoverable_error}
use pkgsite_metrics.Worker.Prepare.{Ran, returned, dropped}
use pkgsite_metrics.Worker.Modes.{World, written, check_module, compare_module}
use pkgsite_metrics.Worker.Scanner.{
  Handled, can_skip, scan_module, handle_request, handle_scan, get_work_version, with_default_mode,
  new_scanner, with_info, sorted_module, scan_mode_module, new_row,
}

-- What a finished scan may save: the state of a row that has the work version of the request and
-- no error.
abbrev SavesFresh : WorkVersion → Ran (Result (Option WorkState)) → Type 0
SavesFresh v r =
    (ws : WorkState)
    → r ≡ returned (ok (some ws))
    → (ws.error_category ≡ []) × (ws.work_version ≡ some v)

written-saves :
    (world : World) (serve : Bool) (rows : Option (List Row)) (next : Option WorkState)
    {ws : WorkState}
    → (written world serve rows next).1 ≡ returned (ok (some ws))
    → next ≡ some ws
unfolding written
written-saves world serve rows next h = ground arith

written-none :
    (v : WorkVersion) (world : World) (serve : Bool) (rows : Option (List Row))
    → SavesFresh v (written world serve rows none).1
written-none v world serve rows ws h = ground (arith, written-saves world serve rows none h)

check_module-saves :
    (print : ℕ → Text) (world : World) (insecure : Bool) (sreq : Request) (row : Row)
    → row.error_category ≡ []
    → SavesFresh row.work_version (check_module print world insecure sreq row).1
unfolding check_module
check_module-saves print world insecure sreq row h0 ws h =
    let e = written-saves world _ _ _ h in ground (arith, e, h0)

scan_mode_module-saves :
    (print : ℕ → Text) (world : World) (insecure : Bool) (sreq : Request) (row : Row)
    → row.error_category ≡ []
    → SavesFresh row.work_version (scan_mode_module print world insecure sreq row).1
unfolding compare_module
scan_mode_module-saves print world insecure sreq row h0 ws h =
    ground (arith, check_module-saves print world insecure sreq row h0 ws)

sorted_module-saves :
    (print : ℕ → Text) (world : World) (insecure : Bool) (sreq : Request) (row : Row)
    (sort_version : Option Text)
    → row.error_category ≡ []
    → SavesFresh row.work_version (sorted_module print world insecure sreq row sort_version).1
sorted_module-saves print world insecure sreq row none h0 ws h = ground (arith, h)
sorted_module-saves print world insecure sreq row (some sv) h0 ws h =
    scan_mode_module-saves print world insecure sreq (record row { sort_version = sv }) h0 ws h

with_info-saves :
    (print : ℕ → Text) (world : World) (insecure : Bool) (sreq : Request) (v : WorkVersion)
    (r : Result VersionInfo)
    → SavesFresh v (with_info print world insecure sreq (new_row sreq v) r).1
with_info-saves print world insecure sreq v (err e) ws h = written-none v world _ _ ws h
with_info-saves print world insecure sreq v (ok info) ws h =
    sorted_module-saves print world insecure sreq
      (record (new_row sreq v) { version = info.version; commit_time = info.time })
      (for_sorting info.version) refl ws h

scan_module-saves :
    (print : ℕ → Text) (world : World) (insecure : Bool) (v : WorkVersion) (sreq : Request)
    → SavesFresh v (scan_module print world insecure v sreq).1
unfolding scan_module
scan_module-saves print world insecure v sreq ws h = ground (
  arith,
  with_info-saves print world insecure sreq v
      (world.info sreq.url_path.module_path sreq.url_path.version) ws,
)

saved-can_skip :
    (ws : WorkState)
    → ws.error_category ≡ []
    → (w : WorkVersion)
    → can_skip w (ok (some ws)) ≡ ok (work_version_equal (some w) ws.work_version)
unfolding can_skip unrecoverable_error categorize_error is same_kind text_eq
saved-can_skip ws h w = ground (arith, h)

request-saved :
    (print : ℕ → Text) (world : World) (cfg_insecure : Bool) (sreq : Request)
    (r : Result WorkVersion) (w : WorkVersion) (ws : WorkState)
    → (handle_request print world cfg_insecure sreq r).saved ≡ some ws
    → (ws.error_category ≡ [])
      × (v : WorkVersion) × (r ≡ ok v)
      × (ws.work_version ≡ some v)
      × (can_skip w (ok (some ws)) ≡ ok (work_version_equal (some w) ws.work_version))
unfolding handle_request
request-saved print world cfg_insecure sreq (err e) w ws h = ground (arith, h)
request-saved print world cfg_insecure sreq (ok v) w ws h =
    let saved : (ws.error_category ≡ []) × (ws.work_version ≡ some v) = ground (
      arith,
      scan_module-saves print world (if sreq.params.insecure then true else cfg_insecure) v sreq ws,
    ) in
    (saved.0, v, refl, saved.1, saved-can_skip ws saved.0 w)

new_scanner-ok :
    (c : Option Err) (r : Result WorkVersion) (v : WorkVersion) → new_scanner c r ≡ ok v → r ≡ ok v
new_scanner-ok none r v h = h
new_scanner-ok (some e) (ok w) v h = cc
new_scanner-ok (some e) (err x) v h = cc

-- The state that a request for a scan gives to the store has the work version of the request and
-- no error category, whatever errors the scan met and recorded in its rows. So no later request is
-- skipped because of an error: it is skipped exactly if its work version is the stored one.
pub handle_scan-saved :
    (print : ℕ → Text) (world : World) (cfg_insecure : Bool) (cache : Option WorkVersion)
    (request : Result Request) (w : WorkVersion) {ws : WorkState}
    → (handle_scan print world cfg_insecure cache request).1.saved ≡ some ws
    → (ws.error_category ≡ [])
      × (v : WorkVersion) × ((get_work_version cache world.read_work_version).1 ≡ ok v)
      × (ws.work_version ≡ some v)
      × (can_skip w (ok (some ws)) ≡ ok (work_version_equal (some w) ws.work_version))
unfolding handle_scan
handle_scan-saved print world cfg_insecure cache (err e) w h = ground (arith, h)
handle_scan-saved print world cfg_insecure cache (ok sreq) w {ws} h =
    let got = (get_work_version cache world.read_work_version).1 in
    let (fresh, v, made, state, rest) =
      request-saved print world cfg_insecure (with_default_mode sreq)
        (new_scanner world.storage_client got) w ws h in
    (fresh, v, new_scanner-ok world.storage_client got v made, state, rest)

work_version_equal_refl : (v : WorkVersion) → work_version_equal (some v) (some v) ≡ true
unfolding work_version_equal
work_version_equal_refl v =
    ground (
      arith,
      text_eq_refl v.go_version,
      text_eq_refl v.worker_version,
      text_eq_refl v.schema_version,
    )

get_work_version-cached :
    (cache : Option WorkVersion) (read : Result WorkVersion) (v : WorkVersion)
    → (get_work_version cache read).1 ≡ ok v
    → (get_work_version cache read).0 ≡ some v
unfolding get_work_version
get_work_version-cached cache read v h = ground arith

abbrev no_version : WorkVersion
no_version = record {
  go_version = [];
  worker_version = [];
  schema_version = [];
  vuln_db_last_modified = 0;
}

-- What a skipped request has done.
abbrev pub skipped_request : Handled
skipped_request = record { output = dropped; saved = none; skipped = true; result = returned none }

request-skips :
    (print : ℕ → Text) (world : World) (cfg_insecure : Bool) (sreq : Request) (v : WorkVersion)
    (ws : WorkState)
    → world.storage_client ≡ none
    → world.get_work_state sreq.url_path.module_path sreq.url_path.version ≡ ok (some ws)
    → ws.work_version ≡ some v
    → handle_scan print world cfg_insecure (some v) (ok sreq) ≡ (some v, skipped_request)
unfolding handle_scan handle_request get_work_version can_skip
request-skips print world cfg_insecure sreq v ws c h e =
    rw (c, h, e, work_version_equal_refl v, if◌then◌else◌) refl

-- Once a request has stored a state for its module and version, the same request at the same
-- server, which kept the work version of the first one, is skipped, unless its storage client fails
-- or the state cannot be read: it succeeds, writes no row and stores no state. The proxy, the command and BigQuery may answer differently the second time.
pub handle_scan-again :
    (print : ℕ → Text) (world world' : World) (cfg_insecure : Bool) (cache : Option WorkVersion)
    (sreq : Request) {ws : WorkState}
    → (handle_scan print world cfg_insecure cache (ok sreq)).1.saved ≡ some ws
    → world'.storage_client ≡ none
    → world'.get_work_state sreq.url_path.module_path sreq.url_path.version ≡ ok (some ws)
    → (cache' : Option WorkVersion) × ((handle_scan print world cfg_insecure cache (ok sreq)).0
        ≡ cache')
      × (handle_scan print world' cfg_insecure cache' (ok sreq) ≡ (cache', skipped_request))
unfolding handle_scan
handle_scan-again print world world' cfg_insecure cache sreq {ws} saved client stored =
    let (_, v, got, state, _) =
      handle_scan-saved print world cfg_insecure cache (ok sreq) no_version saved in
    (
      some v,
      get_work_version-cached cache world.read_work_version v got,
      request-skips print world' cfg_insecure sreq v ws client stored state,
    )
