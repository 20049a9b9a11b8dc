-- ===== src/Ejobs/Upload.antt =====
-- cmd/ejobs/main.go: uploadAnalysisBinary, fileMD5 and copyToGCS.
use pkgsite_metrics.Prelude.{
  ℕ, Bool, true, false, not, ◌||◌, [], ◌++◌, Text, text, text_eq, is_empty, length, ◌==◌,
  if◌then◌else◌,
}
use pkgsite_metrics.Derrors.{Result, ok, err, plain}
use pkgsite_metrics.Paths.{join}
use pkgsite_metrics.Worker.Analysis.Scan.{base}
use pkgsite_metrics.Ejobs.{
  Act, Env, Attrs, Object, absent, attrs_failed, present, ◌>>=◌, ◌>>◌, give, fail, emit, print,
  check, lift, uploaded, labelled,
}

-- The contents of a local file, or the error of opening or of reading it.
abbrev pub flatten : Result (Result Text) → Result Text
flatten (ok contents) = contents
flatten (err e) = err e

unfoldable pub file_md5 : Env → Text → Act Text
file_md5 env filename = do
  contents ← lift (flatten (env.open_file filename))
  give (env.md5_sum contents)

-- The object has its contents when its writer is closed.
unfoldable pub copy_to_gcs : Env → Text → Text → Act Unit
copy_to_gcs env object_name filename = do
  contents ← lift (flatten (env.open_file filename))
  check env.write_object
  check env.close_object
  emit (uploaded object_name contents)

abbrev pub object_name : Text → Text
object_name binary_file = join (text "analysis-binaries") (base binary_file)

-- What follows when the binary is to be uploaded. The result tells that the user canceled.
unfoldable pub upload : Env → Text → Act Bool
upload env binary_file = do
  print (text "Uploading.")
  copy_to_gcs env (object_name binary_file) binary_file
  emit (labelled (object_name binary_file) env.user)
  give false

abbrev by_uploader : Text → Text
by_uploader uploader = if is_empty uploader then [] else text " by " ++ uploader

-- Scanln's answer, without white space around it.
abbrev pub confirms : Text → Bool
confirms r = text_eq r (text "y") || text_eq r (text "Y")

unfoldable pub ask : Env → Text → Attrs → Act Bool
ask env binary_file attrs = do
  print (text "The binary " ++ (base binary_file ++ text " already exists on GCS."))
  print (text "It was last uploaded on " ++ (attrs.updated ++ by_uploader attrs.uploader))
  print (text "Do you wish to overwrite it? [y/n] ")
  if confirms env.response
      then upload env binary_file
      else (do print (text "Cancelling."); give true)

abbrev pub md5_size : ℕ
md5_size = 16

unfoldable pub compare : Env → Text → Attrs → Act Bool
compare env binary_file attrs =
    if not (length attrs.md5 == md5_size)
    then fail
        (plain (text "len(attrs.MD5) = " ++ (env.decimal (length attrs.md5) ++ text ", wanted 16")))
    else (do
      local_md5 ← file_md5 env binary_file
      if text_eq local_md5 attrs.md5
          then (do
            print (
                text "Binary "
                ++ (base binary_file ++ text " on GCS has the same checksum: not uploading."))
            give false)
          else ask env binary_file attrs)

abbrev pub by_object : Env → Text → Object → Act Bool
by_object env binary_file absent = do
  print (base binary_file ++ text " binary does not exist on GCS: uploading")
  upload env binary_file
by_object env binary_file (attrs_failed e) = fail e
by_object env binary_file (present attrs) = compare env binary_file attrs

unfoldable pub upload_analysis_binary : Env → Text → Act Bool
unfolding upload compare ask
upload_analysis_binary env binary_file =
    if env.dry_run
    then (do print (text "dryrun: upload analysis binary " ++ binary_file); give false)
    else (do
      check env.access_tokens
      check env.new_client
      by_object env binary_file (env.object (object_name binary_file)))
