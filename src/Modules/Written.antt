-- ===== src/Modules/Written.antt =====
-- internal/modules/modules.go: what writeZip writes when it succeeds.
use pkgsite_metrics.Prelude.{
  ◌≡◌, refl, ap, ap₂, ◌∙◌, Bool, true, false, not, ◌||◌, List, [], ◌∷◌, ◌++◌, map, filter_by,
  Option, none, some, Text, trim_prefix, has_prefix, if◌then◌else◌,
}
use pkgsite_metrics.Derrors.{Result, ok, err, Err}
use pkgsite_metrics.Proxy.Kept.{ZipFile, Zip}
use pkgsite_metrics.Paths.{clean, join, dir}
use pkgsite_metrics.Modules.{
  Event, made_dirs, opened, closed, wrote, Disk, Log, call, check, copied, vendored, write_file,
  write_entry, write_zip, and_then,
}

-- The files that were written, in order, each with its contents.
abbrev pub files_written : List Event → List (Text × Result Text)
files_written [] = []
files_written (wrote p contents ∷ es) = (p, ok contents) ∷ files_written es
files_written (made_dirs p ∷ es) = files_written es
files_written (opened p ∷ es) = files_written es
files_written (closed p ∷ es) = files_written es

-- The entries that are files and not in the vendor directory.
abbrev pub is_kept : Text → ZipFile → Bool
is_kept strip_prefix f = not (vendored (trim_prefix f.name strip_prefix) || f.is_dir)

abbrev pub placed : Disk → Text → Text → ZipFile → Text × Result Text
placed disk destination strip_prefix f =
    let path = join destination (trim_prefix f.name strip_prefix) in (path, disk.copy path f)

files_written-append :
    (es es' : List Event) → files_written (es ++ es') ≡ files_written es ++ files_written es'
files_written-append [] es' = refl
files_written-append (wrote p c ∷ es) es' = ap (λ z. (p, ok c) ∷ z) (files_written-append es es')
files_written-append (made_dirs p ∷ es) es' = files_written-append es es'
files_written-append (opened p ∷ es) es' = files_written-append es es'
files_written-append (closed p ∷ es) es' = files_written-append es es'

-- What a step and the rest write, when both succeed.
call-files :
    (o : Option Err) (e : Event) (rest : Log) (ws : List (Text × Result Text))
    → (rest.1 ≡ none → files_written rest.0 ≡ ws)
    → (call o e rest).1 ≡ none
    → files_written (call o e rest).0 ≡ files_written (e ∷ []) ++ ws
unfolding call
call-files none e rest ws h done =
    files_written-append (e ∷ []) rest.0 ∙ ap (λ z. files_written (e ∷ []) ++ z) (h done)
call-files (some f) e rest ws h done = cc

check-files :
    (o : Option Err) (rest : Log) (ws : List (Text × Result Text))
    → (rest.1 ≡ none → files_written rest.0 ≡ ws)
    → (check o rest).1 ≡ none
    → files_written (check o rest).0 ≡ ws
unfolding check
check-files none rest ws h done = h done
check-files (some f) rest ws h done = cc

copied-files :
    (path : Text) (r : Result Text) (rest : Log)
    → (rest.1 ≡ none → files_written rest.0 ≡ [])
    → (copied path r rest).1 ≡ none
    → files_written (copied path r rest).0 ≡ (path, r) ∷ []
unfolding copied
copied-files path (ok c) rest h done = ap (λ z. (path, ok c) ∷ z) (h done)
copied-files path (err f) rest h done = cc

write_file-files :
    (disk : Disk) (f : ZipFile) (path : Text)
    → (write_file disk f path).1 ≡ none
    → files_written (write_file disk f path).0 ≡ (path, disk.copy path f) ∷ []
unfolding write_file
write_file-files disk f path = call-files (disk.mkdir_all (dir path)) _ _ _ (
    call-files (disk.open_file path) _ _ _ (
      check-files (disk.open_entry f) _ _ (
        copied-files path (disk.copy path f) _ (
          call-files (disk.close_file path) _ _ _
            (check-files (disk.close_entry f) _ _ (λ _. refl))))))

-- The file of one entry, if it is kept.
abbrev kept_file : Disk → Text → Text → ZipFile → List (Text × Result Text)
kept_file disk d p f = if is_kept p f then placed disk d p f ∷ [] else []

entry-files :
    (inside skip folder : Bool) (e : Err) (made file : Log) (w : Text × Result Text)
    → (made.1 ≡ none → files_written made.0 ≡ [])
    → (file.1 ≡ none → files_written file.0 ≡ w ∷ [])
    → let log =
        if not inside
        then ([], some e)
        else if skip
        then ([], none)
        else if folder
        then made
        else file in
      log.1 ≡ none → files_written log.0 ≡ (if not (skip || folder) then w ∷ [] else [])
entry-files false skip folder e made file w h h' done = cc
entry-files true true folder e made file w h h' done = refl
entry-files true false true e made file w h h' done = h done
entry-files true false false e made file w h h' done = h' done

write_entry-files :
    (disk : Disk) (d p : Text) (f : ZipFile)
    → let name = trim_prefix f.name p in
      let log = write_entry disk f d name (join d name) in
      log.1 ≡ none → files_written log.0 ≡ kept_file disk d p f
unfolding write_entry
write_entry-files disk d p f =
    let path = join d (trim_prefix f.name p) in
    entry-files (has_prefix path (clean d ++ (b'/' ∷ []))) (vendored (trim_prefix f.name p))
      f.is_dir _ _ _ (placed disk d p f)
      (call-files (disk.mkdir_all path) (made_dirs path) _ _ (λ _. refl))
      (write_file-files disk f path)

and_then-files :
    (one rest : Log) (ws ws' : List (Text × Result Text))
    → (one.1 ≡ none → files_written one.0 ≡ ws)
    → (rest.1 ≡ none → files_written rest.0 ≡ ws')
    → (and_then one rest).1 ≡ none
    → files_written (and_then one rest).0 ≡ ws ++ ws'
and_then-files (es, some e) rest ws ws' h h' done = cc
and_then-files (es, none) rest ws ws' h h' done =
    files_written-append es rest.0 ∙ ap₂ ◌++◌ (h refl) (h' done)

kept_file-append :
    (b : Bool) (g : ZipFile → Text × Result Text) (f : ZipFile) (fs : Zip)
    → (if b then g f ∷ [] else []) ++ map g fs ≡ map g (if b then f ∷ fs else fs)
kept_file-append true g f fs = refl
kept_file-append false g f fs = refl

-- If writeZip succeeds, it has written exactly the entries that are neither directories nor in the
-- vendor directory, in the order of the zip: each at its name, without the stripped prefix, joined
-- to the destination, and with the contents that io.Copy gave.
pub write_zip-Writes :
    (disk : Disk) (files : Zip) (destination strip_prefix : Text)
    → (write_zip disk files destination strip_prefix).1 ≡ none
    → files_written (write_zip disk files destination strip_prefix).0
      ≡ map (placed disk destination strip_prefix) (filter_by (is_kept strip_prefix) files)
unfolding write_zip
write_zip-Writes disk [] d p done = refl
write_zip-Writes disk (f ∷ fs) d p done =
    and_then-files _ (write_zip disk fs d p) _ _ (write_entry-files disk d p f)
      (write_zip-Writes disk fs d p) done
    ∙ kept_file-append (is_kept p f) (placed disk d p) f (filter_by (is_kept p) fs)
