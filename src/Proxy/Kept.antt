-- ===== src/Proxy/Kept.antt =====
-- internal/proxy/cache.go: what the client keeps of its calls. A nil cache is `none`, and so is a
-- zip cache that holds no reader. The lock has no part in the calls of one goroutine.
use pkgsite_metrics.Prelude.{
  Bool, ◌&&◌, List, [], ◌∷◌, Option, none, some, Text, text_eq, if◌then◌else◌,
}
use pkgsite_metrics.Derrors.{Result}
use pkgsite_metrics.Osv.{Time}

-- proxy.VersionInfo
pub record VersionInfo : Type 0 where
  pub version : Text
  pub time : Time

-- A file of a zip.Reader: its name, whether it is a directory, and what reading it gives.
pub record ZipFile : Type 0 where
  pub name : Text
  pub is_dir : Bool
  pub contents : Result Text

abbrev pub Zip : Type 0
Zip = List ZipFile

pub record ModVer : Type 0 where
  pub path : Text
  pub version : Text

pub record Cache : Type 0 where
  pub info_cache : List (ModVer × VersionInfo)
  pub mod_cache : List (ModVer × Text)
  pub zip_cache : Option (ModVer × Zip)

unfoldable pub same_mod_ver : ModVer → ModVer → Bool
same_mod_ver k l = text_eq k.path l.path && text_eq k.version l.version

abbrev pub mod_ver : Text → Text → ModVer
mod_ver path version = record { path = path; version = version }

-- A map, the newest entry of a key first.
unfoldable pub lookup {ℓ} : {V : Type ℓ} → ModVer → List (ModVer × V) → Option V
lookup k [] = none
lookup k ((l, v) ∷ m) = if same_mod_ver l k then some v else lookup k m

abbrev pub get_info : Option Cache → Text → Text → Option VersionInfo
get_info none path version = none
get_info (some c) path version = lookup (mod_ver path version) c.info_cache

abbrev pub put_info : Option Cache → Text → Text → VersionInfo → Option Cache
put_info none path version v = none
put_info (some c) path version v =
    some (record c { info_cache = (mod_ver path version, v) ∷ c.info_cache })

abbrev pub get_mod : Option Cache → Text → Text → Option Text
get_mod none path version = none
get_mod (some c) path version = lookup (mod_ver path version) c.mod_cache

abbrev pub put_mod : Option Cache → Text → Text → Text → Option Cache
put_mod none path version b = none
put_mod (some c) path version b =
    some (record c { mod_cache = (mod_ver path version, b) ∷ c.mod_cache })

abbrev pub zip_of : ModVer → Option (ModVer × Zip) → Option Zip
zip_of k none = none
zip_of k (some (l, z)) = if same_mod_ver l k then some z else none

abbrev pub get_zip : Option Cache → Text → Text → Option Zip
get_zip none path version = none
get_zip (some c) path version = zip_of (mod_ver path version) c.zip_cache

abbrev pub put_zip : Option Cache → Text → Text → Zip → Option Cache
put_zip none path version z = none
put_zip (some c) path version z = some (record c { zip_cache = some (mod_ver path version, z) })
