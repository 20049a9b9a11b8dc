-- ===== src/Scan/ModulePath/RoundTrip.antt =====
-- internal/scan/parse.go: which requests ParseModuleURLPath reads, and reading back what Path wrote.
use pkgsite_metrics.Prelude.{
  ℕ, ◌≡◌, refl, ◌∙◌, ◌≢◌, [], ◌∷◌, ◌++◌, Text, text, cut, cut-append, cut-none, trim_prefix,
  count_byte, arith, append_assoc,
}
use pkgsite_metrics.Derrors.{ok}
use pkgsite_metrics.Scan.ModulePath.{
  ModuleUrlPath, trim_last, cut_or_whole, parse_version, parse_parts, parse_module_url_path, path,
}

-- A module path with no '@', not empty, and with no slash at either end.
abbrev pub IsModulePath : Text → Type 0
IsModulePath [] = ⊥
IsModulePath (c ∷ s) = (c ≢ b'/') × (count_byte b'@' (c ∷ s) ≡ 0) × (trim_last b'/' (c ∷ s) ≡ c ∷ s)

-- A version: a 'v' and at least one more byte, with no slash.
abbrev pub IsVersion : Text → Type 0
IsVersion [] = ⊥
IsVersion (v ∷ []) = ⊥
IsVersion (v ∷ c ∷ s) = (v ≡ b'v') × (count_byte b'/' (v ∷ c ∷ s) ≡ 0)

trim_last-slash : (c : ℕ) (s : Text) → trim_last b'/' (c ∷ s ++ (b'/' ∷ [])) ≡ c ∷ s
unfolding trim_last
trim_last-slash c [] = refl
trim_last-slash c (d ∷ s) = ground (arith, trim_last-slash d s)

trim-slash_none : (c : ℕ) (s : Text) → c ≢ b'/' → trim_prefix (c ∷ s) (text "/") ≡ c ∷ s
unfolding trim_prefix
trim-slash_none c s h = ground arith

trim-slash_some : (s : Text) → trim_prefix (b'/' ∷ s) (text "/") ≡ s
unfolding trim_prefix
trim-slash_some s = refl

-- What stands behind the '@', for a version and an optional suffix.
abbrev behind : Text → Text → Text
behind version [] = version
behind version (c ∷ s) = version ++ (b'/' ∷ c ∷ s)

cut-behind :
    (version suffix : Text)
    → count_byte b'/' version ≡ 0
    → cut_or_whole b'/' (behind version suffix) ≡ (version, suffix)
cut-behind version [] h = rw (cut-none b'/' version h, cut_or_whole)
cut-behind version (c ∷ s) h = rw (cut-append b'/' version (c ∷ s) h, cut_or_whole)

trim-v_none :
    (v c : ℕ) (version suffix : Text)
    → count_byte b'/' (v ∷ c ∷ version) ≡ 0
    → trim_prefix (behind (v ∷ c ∷ version) suffix) (text "v/") ≡ behind (v ∷ c ∷ version) suffix
unfolding trim_prefix count_byte
trim-v_none v c version [] h = ground arith
trim-v_none v c version (d ∷ s) h = ground arith

-- The request behind its leading slash, if it has one: a module path, '@', and the rest.
parse-cut :
    (before_at behind_at : Text)
    → count_byte b'@' before_at ≡ 0
    → trim_prefix (before_at ++ (b'@' ∷ behind_at)) (text "/") ≡ before_at ++ (b'@' ∷ behind_at)
    → (parse_module_url_path (before_at ++ (b'@' ∷ behind_at)) ≡ parse_parts (before_at, behind_at))
      × (parse_module_url_path (b'/' ∷ before_at ++ (b'@' ∷ behind_at))
          ≡ parse_parts (before_at, behind_at))
unfolding parse_module_url_path
parse-cut before_at behind_at h e =
    let split = cut-append b'@' before_at behind_at h in
    (rw (e, split), rw (trim-slash_some, split))

trim-v_some : (s : Text) → trim_prefix (text "v/" ++ s) (text "v/") ≡ s
unfolding trim_prefix
trim-v_some s = refl

-- The version and suffix behind the '@', with "v/" in front of them or not.
parse_version_lem :
    (m version suffix : Text)
    → IsVersion version
    → (parse_version m (cut_or_whole b'/' (trim_prefix (behind version suffix) (text "v/")))
        ≡ ok (record { module_path = m; version = version; suffix = suffix }))
      × (parse_version m
            (cut_or_whole b'/' (trim_prefix (text "v/" ++ behind version suffix) (text "v/")))
          ≡ ok (record { module_path = m; version = version; suffix = suffix }))
parse_version_lem m [] suffix h = elim h [ ]
parse_version_lem m (v ∷ []) suffix h = elim h [ ]
parse_version_lem m (v ∷ c ∷ version) suffix (hv, h) = (
  rw (trim-v_none v c version suffix h, cut-behind (v ∷ c ∷ version) suffix h) (ground arith),
  rw (trim-v_some (behind (v ∷ c ∷ version) suffix), cut-behind (v ∷ c ∷ version) suffix h)
      (ground arith),
)

slash_no_at : count_byte b'@' (b'/' ∷ []) ≡ 0
unfolding count_byte
slash_no_at = refl

-- The request that names a module at a version, in two of the documented forms.
abbrev pub at_form : Text → Text → Text
at_form m behind_at = m ++ (b'@' ∷ behind_at)

abbrev pub slash_form : Text → Text → Text
slash_form m behind_at = (m ++ (b'/' ∷ [])) ++ (b'@' ∷ text "v/" ++ behind_at)

count_byte-append :
    (b : ℕ) (s t : Text) → count_byte b s ≡ 0 → count_byte b t ≡ 0 → count_byte b (s ++ t) ≡ 0
unfolding count_byte
count_byte-append b [] t h k = k
count_byte-append b (c ∷ s) t h k = ground (arith, count_byte-append b s t)

parse_module :
    (m : Text) (version suffix : Text)
    → IsModulePath m
    → IsVersion version
    → (parse_parts (m, behind version suffix)
        ≡ ok (record { module_path = m; version = version; suffix = suffix }))
      × (parse_parts (m ++ (b'/' ∷ []), text "v/" ++ behind version suffix)
          ≡ ok (record { module_path = m; version = version; suffix = suffix }))
parse_module [] version suffix hm hv = elim hm [ ]
parse_module (c ∷ m) version suffix (_, _, trimmed) hv =
    let (bare, behind_v) = parse_version_lem (c ∷ m) version suffix hv in
    (rw trimmed bare, rw (trim_last-slash c m) behind_v)

-- The two forms with a version, <module>@<version> and <module>/@v/<version>, each with a
-- leading slash or without, and each followed by '/' and a suffix or by nothing, are read as the
-- same module path, version and suffix: those that stand in them. The module path is not empty,
-- has no '@' and no slash at an end; the version is a 'v' with more behind it and no slash.
pub parse_module_url_path_forms :
    (m version suffix : Text)
    → IsModulePath m
    → IsVersion version
    → let parts : ModuleUrlPath = record { module_path = m; version = version; suffix = suffix } in
      (parse_module_url_path (at_form m (behind version suffix)) ≡ ok parts)
      × (parse_module_url_path (b'/' ∷ at_form m (behind version suffix)) ≡ ok parts)
      × (parse_module_url_path (slash_form m (behind version suffix)) ≡ ok parts)
      × (parse_module_url_path (b'/' ∷ slash_form m (behind version suffix)) ≡ ok parts)
parse_module_url_path_forms [] version suffix hm hv = elim hm [ ]
parse_module_url_path_forms (c ∷ m) version suffix (hc, no_at, trimmed) hv =
    let (bare, behind_v) = parse_module (c ∷ m) version suffix (hc, no_at, trimmed) hv in
    let (one, two) = parse-cut (c ∷ m) (behind version suffix) no_at (trim-slash_none c _ hc) in
    let no_at' = count_byte-append b'@' (c ∷ m) (b'/' ∷ []) no_at (slash_no_at) in
    let (three, four) =
      parse-cut (c ∷ m ++ (b'/' ∷ [])) (text "v/" ++ behind version suffix) no_at'
        (trim-slash_none c _ hc) in
    (one ∙ bare, two ∙ bare, three ∙ behind_v, four ∙ behind_v)

path-behind :
    (m version suffix : Text)
    → path (record { module_path = m; version = version; suffix = suffix })
      ≡ at_form m (behind version suffix)
unfolding path
path-behind m version [] = refl
path-behind m version (c ∷ s) = append_assoc m (b'@' ∷ version) (b'/' ∷ c ∷ s)

-- ParseModuleURLPath reads back what Path wrote, for a module path that is not empty and has no
-- '@' and no slash at an end, and a version that is a 'v' with more behind it and no slash.
pub parse_module_url_path-path :
    (u : ModuleUrlPath)
    → IsModulePath u.module_path
    → IsVersion u.version
    → parse_module_url_path (path u) ≡ ok u
parse_module_url_path-path u hm hv =
    rw (path-behind u.module_path u.version u.suffix)
      (parse_module_url_path_forms u.module_path u.version u.suffix hm hv).0

read_latest :
    (m : Text)
    → parse_version m (cut_or_whole b'/' (trim_prefix (text "latest") (text "v/")))
      ≡ ok (record { module_path = m; version = text "vlatest"; suffix = text "" })
unfolding trim_prefix cut
read_latest m = refl

-- The third documented form, <module>/@latest, is read as the version "vlatest", and so is what
-- Path writes for a module at version "latest": neither is read as the version "latest".
pub parse_module_url_path-latest :
    (m : Text)
    → IsModulePath m
    → let latest : ModuleUrlPath = record {
      module_path = m;
      version = text "latest";
      suffix = text "";
    } in
      let read : ModuleUrlPath = record {
        module_path = m;
        version = text "vlatest";
        suffix = text "";
      } in
      (parse_module_url_path (m ++ text "/@latest") ≡ ok read)
      × (parse_module_url_path (path latest) ≡ ok read)
unfolding path
parse_module_url_path-latest [] hm = elim hm [ ]
parse_module_url_path-latest (c ∷ m) (hc, no_at, trimmed) =
    let no_at' = count_byte-append b'@' (c ∷ m) (b'/' ∷ []) no_at slash_no_at in
    let slashed =
      parse-cut (c ∷ m ++ (b'/' ∷ [])) (text "latest") no_at' (trim-slash_none c _ hc) in
    let bare = parse-cut (c ∷ m) (text "latest") no_at (trim-slash_none c _ hc) in
    (
      rw (← append_assoc (c ∷ m) (b'/' ∷ []) (text "@latest"))
          (slashed.0 ∙ rw (trim_last-slash c m) (read_latest (c ∷ m))),
      bare.0 ∙ rw trimmed (read_latest (c ∷ m)),
    )
