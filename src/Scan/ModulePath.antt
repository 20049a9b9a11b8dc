-- ===== src/Scan/ModulePath.antt =====
-- internal/scan/parse.go: ModuleURLPath, ParseModuleURLPath and Path. An error's text is its format
-- without the request path, which no code reads.
pub mod RoundTrip
pub mod Tests
use pkgsite_metrics.Prelude.{
  ℕ, Bool, false, not, [], ◌∷◌, ◌++◌, Option, none, some, Text, text, ◌==◌, if◌then◌else◌, is_empty,
  cut, trim_prefix,
}
use pkgsite_metrics.Derrors.{plain, Result, ok, err}

pub record ModuleUrlPath : Type 0 where
  pub module_path : Text
  pub version : Text
  pub suffix : Text

-- strings.TrimSuffix for a suffix of one byte.
pub trim_last : ℕ → Text → Text
trim_last b [] = []
trim_last b (c ∷ []) = if c == b then [] else c ∷ []
trim_last b (c ∷ d ∷ s) = c ∷ trim_last b (d ∷ s)

-- `strings.Cut(s, sep)` where the third result is dropped.
abbrev pub cut_or_whole : ℕ → Text → Text × Text
cut_or_whole b s = elim (cut b s) [ none ↦ (s, []) | some p ↦ p ]

abbrev starts_with_v : Text → Bool
starts_with_v [] = false
starts_with_v (c ∷ s) = c == b'v'

abbrev parse_version : Text → Text × Text → Result ModuleUrlPath
parse_version module_path (version, suffix) =
    if is_empty version
    then err (plain (text "invalid path: missing version"))
    else ok (record {
      module_path = module_path;
      version = if not (starts_with_v version) then b'v' ∷ version else version;
      suffix = suffix;
    })

abbrev parse_parts : Text × Text → Result ModuleUrlPath
parse_parts (before_at, version_and_suffix) =
    let module_path = trim_last b'/' before_at in
    if is_empty module_path
    then err (plain (text "invalid path: missing module"))
    else parse_version module_path (cut_or_whole b'/' (trim_prefix version_and_suffix (text "v/")))

abbrev parse_cut : Option (Text × Text) → Result ModuleUrlPath
parse_cut none = err (plain (text "invalid path: missing '@'"))
parse_cut (some parts) = parse_parts parts

pub parse_module_url_path : Text → Result ModuleUrlPath
parse_module_url_path request_path = parse_cut (cut b'@' (trim_prefix request_path (text "/")))

-- ModuleURLPath.Path
pub path : ModuleUrlPath → Text
path m =
    let p = m.module_path ++ (b'@' ∷ m.version) in
    if not (is_empty m.suffix) then p ++ (b'/' ∷ m.suffix) else p
