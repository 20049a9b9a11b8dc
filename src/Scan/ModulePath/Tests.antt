-- ===== src/Scan/ModulePath/Tests.antt =====
-- Requests for a module of GitHub.
use pkgsite_metrics.Prelude.{refl, Text, text, count_byte, arith}
use pkgsite_metrics.Scan.ModulePath.{ModuleUrlPath, trim_last}
use pkgsite_metrics.Scan.ModulePath.RoundTrip.{IsModulePath, IsVersion}

abbrev pub module_path : Text
module_path = text "github.com/pkg/errors"

pub module_path-IsModulePath : IsModulePath module_path
unfolding trim_last count_byte
module_path-IsModulePath = (omega arith, refl, refl)

abbrev pub version : Text
version = text "v0.9.1"

pub version-IsVersion : IsVersion version
unfolding count_byte
version-IsVersion = (refl, refl)

abbrev pub parsed : ModuleUrlPath
parsed = record { module_path = module_path; version = version; suffix = text "sub" }

abbrev latest : Text → ModuleUrlPath
latest v = record { module_path = module_path; version = v; suffix = text "" }
