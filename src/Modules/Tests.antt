-- ===== src/Modules/Tests.antt =====
-- internal/modules/modules.go: the theorems at a zip with a vendor directory, a directory and a
-- name that tries to leave the destination.
use pkgsite_metrics.Prelude.{
  ◌≡◌, refl, true, false, [], ◌∷◌, ◌++◌, map, filter_by, none, Text, text, text_eq, has_prefix,
  trim_prefix,
}
use pkgsite_metrics.Derrors.{ok}
use pkgsite_metrics.Proxy.Kept.{ZipFile, Zip}
use pkgsite_metrics.Modules.{
  Disk, write_zip, write_entry, write_file, call, check, copied, vendored,
}
use pkgsite_metrics.Modules.Inside.{AreWithin, write_zip-AreWithin}
use pkgsite_metrics.Modules.Written.{files_written, is_kept, placed, write_zip-Writes}
use pkgsite_metrics.Paths.{
  clean, join, dir, is_rooted, join_parts, clean_parts, resolve, split, enter, but_last, ends_up,
  through_last_slash, has_slash,
}

abbrev disk : Disk
disk = record {
  mkdir_all = λ p. none;
  open_file = λ p. none;
  open_entry = λ f. none;
  copy = λ p f. f.contents;
  close_file = λ p. none;
  close_entry = λ f. none;
}

abbrev entry : Text → Text → ZipFile
entry name contents = record { name = name; is_dir = false; contents = ok contents }

abbrev module_zip : Zip
module_zip =
    entry (text "m@v1/go.mod") (text "module m")
    ∷ record { name = text "m@v1/a/"; is_dir = true; contents = ok [] }
    ∷ entry (text "m@v1/vendor/modules.txt") []
    ∷ entry (text "m@v1/a/./b/../x.go") (text "package a")
    ∷ []

abbrev escaping : Zip
escaping = module_zip ++ (entry (text "m@v1/../../etc/passwd") [] ∷ [])

clean_dots : clean (text "/tmp//modules/./m/../n/") ≡ text "/tmp/modules/n"
unfolding clean is_rooted join_parts clean_parts resolve split enter text_eq but_last
clean_dots = refl

clean_above : clean (text "../a/../../b") ≡ text "../../b"
unfolding clean is_rooted join_parts clean_parts resolve split enter text_eq but_last ends_up
clean_above = refl

dir_file : dir (text "/tmp/m/x.go") ≡ text "/tmp/m"
unfolding dir clean is_rooted join_parts clean_parts resolve split enter text_eq but_last
    through_last_slash has_slash
dir_file = refl

write_zip-AreWithin_example :
    AreWithin
      (text "/tmp/modules/m@v1")
      (write_zip disk escaping (text "/tmp/modules/m@v1") (text "m@v1/")).0
unfolding is_rooted
write_zip-AreWithin_example =
    write_zip-AreWithin disk escaping (text "/tmp/modules/m@v1") (text "m@v1/") refl

write_zip-Writes_example :
    files_written (write_zip disk module_zip (text "/tmp/m@v1") (text "m@v1/")).0
    ≡ map
        (placed disk (text "/tmp/m@v1") (text "m@v1/"))
        (filter_by (is_kept (text "m@v1/")) module_zip)
unfolding write_zip write_entry write_file call check copied vendored join dir has_prefix
    trim_prefix through_last_slash has_slash clean is_rooted join_parts clean_parts resolve split
    enter text_eq but_last
write_zip-Writes_example = write_zip-Writes disk module_zip (text "/tmp/m@v1") (text "m@v1/") refl

written_files :
    files_written (write_zip disk module_zip (text "/tmp/m@v1") (text "m@v1/")).0
    ≡ (text "/tmp/m@v1/go.mod", ok (text "module m"))
      ∷ (text "/tmp/m@v1/a/x.go", ok (text "package a"))
      ∷ []
unfolding write_zip write_entry write_file call check copied vendored join dir has_prefix
    trim_prefix through_last_slash has_slash clean is_rooted join_parts clean_parts resolve split
    enter text_eq but_last
written_files = refl
