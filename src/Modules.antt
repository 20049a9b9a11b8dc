-- ===== src/Modules.antt =====
-- internal/modules/modules.go: downloading a module and writing its files to disk. The file system
-- and the zip reader are not part of the repository: the results of their calls are fields of
-- `Disk`.
pub mod Inside
pub mod Written
pub mod Tests
use pkgsite_metrics.Prelude.{
  Bool, true, false, not, ◌||◌, List, [], ◌∷◌, ◌++◌, Option, none, some, Text, text, text_eq,
  trim_prefix, has_prefix, if◌then◌else◌,
}
use pkgsite_metrics.Derrors.{
  Err, Result, ok, err, plain, reclassify, proxy_error, scan_module_os_error,
}
use pkgsite_metrics.Proxy.Kept.{ZipFile, Zip}
use pkgsite_metrics.Paths.{clean, join, dir}

-- What is done to the disk, in order. A file that is opened for writing is created or emptied.
pub data Event : Type 0 where
  made_dirs opened closed : Text → Event
  wrote : Text → Text → Event

-- The errors of os.MkdirAll, os.OpenFile, zip.File.Open, of closing the file and of closing the
-- entry. The result of io.Copy is the contents of the entry or the error of the copy.
pub record Disk : Type 0 where
  pub mkdir_all : Text → Option Err
  pub open_file : Text → Option Err
  pub open_entry : ZipFile → Option Err
  pub copy : Text → ZipFile → Result Text
  pub close_file : Text → Option Err
  pub close_entry : ZipFile → Option Err

abbrev pub Log : Type 0
Log = List Event × Option Err

-- A call that leaves `e` behind when it has no error, and then what follows it.
unfoldable pub call : Option Err → Event → Log → Log
call (some failure) e rest = ([], some failure)
call none e rest = (e ∷ rest.0, rest.1)

-- A call that leaves nothing behind.
unfoldable pub check : Option Err → Log → Log
check (some failure) rest = ([], some failure)
check none rest = rest

unfoldable pub copied : Text → Result Text → Log → Log
copied path (err failure) rest = ([], some failure)
copied path (ok contents) rest = (wrote path contents ∷ rest.0, rest.1)

unfoldable pub vendored : Text → Bool
vendored path = text_eq path (text "vendor") || has_prefix path (text "vendor/")

abbrev no_more : Log
no_more = ([], none)

-- The steps for a file that is not a directory.
unfoldable pub write_file : Disk → ZipFile → Text → Log
unfolding call check copied
write_file disk f path = call (disk.mkdir_all (dir path)) (made_dirs (dir path)) (
    call (disk.open_file path) (opened path) (
      check (disk.open_entry f) (
        copied path (disk.copy path f)
          (call (disk.close_file path) (closed path) (check (disk.close_entry f) no_more)))))

abbrev illegal : Text → Err
illegal path = plain (path ++ text " is an illegal filepath")

-- The body of the loop.
unfoldable pub write_entry : Disk → ZipFile → Text → Text → Text → Log
unfolding call
write_entry disk f destination name path =
    if not (has_prefix path (clean destination ++ (b'/' ∷ [])))
    then ([], some (illegal path))
    else if vendored name
    then no_more
    else if f.is_dir
    then call (disk.mkdir_all path) (made_dirs path) no_more
    else write_file disk f path

abbrev pub and_then : Log → Log → Log
and_then (es, some failure) rest = (es, some failure)
and_then (es, none) (es', e) = (es ++ es', e)

unfoldable pub write_zip : Disk → Zip → Text → Text → Log
write_zip disk [] destination strip_prefix = no_more
write_zip disk (f ∷ fs) destination strip_prefix =
    let name = trim_prefix f.name strip_prefix in
    let rest = write_zip disk fs destination strip_prefix in
    and_then (write_entry disk f destination name (join destination name)) rest

abbrev written : Log → Log
written (es, none) = (es, none)
written (es, some e) = (es, some (reclassify e scan_module_os_error))

-- Download, on the result of proxyClient.Zip.
unfoldable pub download : Disk → Result Zip → Text → Text → Text → Log
download disk (err e) module_path version destination = ([], some (reclassify e proxy_error))
download disk (ok files) module_path version destination =
    written (write_zip disk files destination (module_path ++ (b'@' ∷ (version ++ (b'/' ∷ [])))))
