-- ===== src/Version/Pseudo/Tests.antt =====
-- Runs of IsPseudo.
use pkgsite_metrics.Prelude.{◌≡◌, refl, true, false, text, count_byte}
use pkgsite_metrics.Version.Pseudo.{is_pseudo}

pseudo_untagged : is_pseudo (text "v0.0.0-20180713131340-b395d2d6f5ee") ≡ true
unfolding is_pseudo count_byte
pseudo_untagged = refl

pseudo_after_tag : is_pseudo (text "v1.2.4-rc.0.20180713131340-b395d2d6f5ee") ≡ true
unfolding is_pseudo count_byte
pseudo_after_tag = refl

prerelease_is_not_pseudo : is_pseudo (text "v1.2.4-rc-1-2") ≡ false
unfolding is_pseudo count_byte
prerelease_is_not_pseudo = refl
