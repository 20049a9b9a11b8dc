-- ===== src/Modules/Inside.antt =====
-- internal/modules/modules.go: where writeZip writes.
use pkgsite_metrics.Prelude.{
  ◌≡◌, refl, sym, subst, inl, inr, Bool, true, false, List, [], ◌∷◌, ◌++◌, Option, none, some, Text,
  trim_prefix, has_prefix, Bool-cases, if◌then◌else◌,
}
use pkgsite_metrics.Derrors.{Result, ok, err, Err}
use pkgsite_metrics.Proxy.Kept.{ZipFile, Zip}
use pkgsite_metrics.Paths.{clean, join, dir, is_rooted}
use pkgsite_metrics.Paths.Cleaned.{IsWithin, clean-IsWithin}
use pkgsite_metrics.Modules.{
  Event, made_dirs, opened, closed, wrote, Disk, Log, call, check, copied, vendored, write_file,
  write_entry, write_zip, and_then,
}

abbrev pub place : Event → Text
place (made_dirs p) = p
place (opened p) = p
place (closed p) = p
place (wrote p contents) = p

-- Each event is at the destination or below it.
abbrev pub AreWithin : Text → List Event → Type 0
AreWithin destination [] = Unit
AreWithin destination (e ∷ es) = IsWithin destination (place e) × AreWithin destination es

AreWithin-append :
    (d : Text) (es es' : List Event) → AreWithin d es → AreWithin d es' → AreWithin d (es ++ es')
AreWithin-append d [] es' h h' = h'
AreWithin-append d (e ∷ es) es' h h' = (h.0, AreWithin-append d es es' h.1 h')

call-AreWithin :
    (d : Text) (o : Option Err) (e : Event) (rest : Log)
    → IsWithin d (place e)
    → AreWithin d rest.0
    → AreWithin d (call o e rest).0
unfolding call
call-AreWithin d none e rest w h = (w, h)
call-AreWithin d (some f) e rest w h = tt

check-AreWithin :
    (d : Text) (o : Option Err) (rest : Log) → AreWithin d rest.0 → AreWithin d (check o rest).0
unfolding check
check-AreWithin d none rest h = h
check-AreWithin d (some f) rest h = tt

copied-AreWithin :
    (d path : Text) (r : Result Text) (rest : Log)
    → IsWithin d path
    → AreWithin d rest.0
    → AreWithin d (copied path r rest).0
unfolding copied
copied-AreWithin d path (ok contents) rest w h = (w, h)
copied-AreWithin d path (err f) rest w h = tt

write_file-AreWithin :
    (d : Text) (disk : Disk) (f : ZipFile) (path : Text)
    → IsWithin d path
    → IsWithin d (dir path)
    → AreWithin d (write_file disk f path).0
unfolding write_file
write_file-AreWithin d disk f path w up = call-AreWithin d (disk.mkdir_all (dir path)) _ _ up (
    call-AreWithin d (disk.open_file path) _ _ w (
      check-AreWithin d (disk.open_entry f) _ (
        copied-AreWithin d path (disk.copy path f) _ w (
          call-AreWithin d (disk.close_file path) _ _ w
            (check-AreWithin d (disk.close_entry f) _ tt)))))

if-AreWithin :
    (d : Text) (b : Bool) (l l' : Log)
    → AreWithin d l.0
    → AreWithin d l'.0
    → AreWithin d (if b then l else l').0
if-AreWithin d true l l' h h' = h
if-AreWithin d false l l' h h' = h'

write_entry-AreWithin :
    (d : Text) (disk : Disk) (f : ZipFile) (name path : Text)
    → (has_prefix path (clean d ++ (b'/' ∷ [])) ≡ true → IsWithin d path × IsWithin d (dir path))
    → AreWithin d (write_entry disk f d name path).0
unfolding write_entry
write_entry-AreWithin d disk f name path h =
    elim (Bool-cases (has_prefix path (clean d ++ (b'/' ∷ [])))) [
      | inr outside ↦ rw outside tt
      | inl inside ↦ rw inside (
          if-AreWithin d (vendored name) _ _ tt (
            if-AreWithin d f.is_dir _ _ (call-AreWithin d (disk.mkdir_all path) _ _ (h inside).0 tt)
              (write_file-AreWithin d disk f path (h inside).0 (h inside).1)))
    ]

-- Joined to a path from the root, a name gives a cleaned path from the root.
join_rooted :
    (d s : Text) → is_rooted d ≡ true → (t : Text) × (is_rooted t ≡ true) × (join d s ≡ clean t)
unfolding join is_rooted
join_rooted [] s r = cc
join_rooted (c ∷ d) s r = ((c ∷ d) ++ (b'/' ∷ s), r, refl)

joined-IsWithin :
    (d s : Text)
    → is_rooted d ≡ true
    → has_prefix (join d s) (clean d ++ (b'/' ∷ [])) ≡ true
    → IsWithin d (join d s) × IsWithin d (dir (join d s))
joined-IsWithin d s r h =
    let (t, rt, e) = join_rooted d s r in
    subst (λ z. IsWithin d z × IsWithin d (dir z)) (sym e) (clean-IsWithin d t r rt (rw e at h))

and_then-AreWithin :
    (d : Text) (one rest : Log)
    → AreWithin d one.0
    → AreWithin d rest.0
    → AreWithin d (and_then one rest).0
and_then-AreWithin d (es, some e) rest h h' = h
and_then-AreWithin d (es, none) rest h h' = AreWithin-append d es rest.0 h h'

-- Whatever names the zip has, and however the calls of the file system end, writeZip makes,
-- opens, writes and closes nothing outside the destination, if that is a path from the root: each
-- path has the parts of the cleaned destination, and then only names, none of them empty, `.` or
-- `..`.
pub write_zip-AreWithin :
    (disk : Disk) (files : Zip) (destination strip_prefix : Text)
    → is_rooted destination ≡ true
    → AreWithin destination (write_zip disk files destination strip_prefix).0
unfolding write_zip
write_zip-AreWithin disk [] d p r = tt
write_zip-AreWithin disk (f ∷ fs) d p r =
    and_then-AreWithin d
      (write_entry disk f d (trim_prefix f.name p) (join d (trim_prefix f.name p)))
      (write_zip disk fs d p)
      (write_entry-AreWithin d disk f _ _ (joined-IsWithin d (trim_prefix f.name p) r))
      (write_zip-AreWithin disk fs d p r)
