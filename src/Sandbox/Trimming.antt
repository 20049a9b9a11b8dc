-- ===== src/Sandbox/Trimming.antt =====
-- internal/sandbox/sandbox.go: bytes.TrimSpace, of ASCII text.
use pkgsite_metrics.Prelude.{◌&&◌, [], ◌∷◌, Text, is_empty, if◌then◌else◌}
use pkgsite_metrics.Worker.Analysis.Running.{is_space}

unfoldable pub trim_left : Text → Text
trim_left [] = []
trim_left (c ∷ s) = let rest = trim_left s in if is_space c then rest else c ∷ s

unfoldable pub trim_right : Text → Text
trim_right [] = []
trim_right (c ∷ s) = let rest = trim_right s in if is_space c && is_empty rest then [] else c ∷ rest

unfoldable pub trim_space : Text → Text
trim_space s = trim_right (trim_left s)
