-- ===== src/Worker/Classify/Tests.antt =====
-- Errors of govulncheck, and their categories.
use pkgsite_metrics.Prelude.{text}
use pkgsite_metrics.Derrors.{Err, plain}

abbrev load_failure : Err
load_failure = plain (text "govulncheck: loading packages: no such package")
