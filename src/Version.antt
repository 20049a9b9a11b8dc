-- ===== src/Version.antt =====
-- internal/version/version.go: the order of versions that LatestVersion uses, and the encoding of
-- versions for sorting. Package golang.org/x/mod/semver is not part of the repository: its
-- functions are the parameter `Semver`.
pub mod Pseudo
pub mod Latest
pub mod Sorting
