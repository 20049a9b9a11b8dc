-- ===== src/Derrors/Category/Tests.antt =====
-- Witnesses and runs at fixed errors.
use pkgsite_metrics.Prelude.{◌≡◌, refl, text}
use pkgsite_metrics.Derrors.{Err, sentinel, proxy_error, bad_module, reclassify, is, same_kind}
use pkgsite_metrics.Derrors.Category.{categorize_error}

abbrev proxy_failure : Err
proxy_failure = reclassify (sentinel bad_module) proxy_error

categorize-proxy_failure : categorize_error proxy_failure ≡ text "PROXY"
unfolding categorize_error reclassify is same_kind
categorize-proxy_failure = refl
