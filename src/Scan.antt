-- ===== src/Scan.antt =====
-- internal/scan/parse.go: the parts of a scan request.
pub mod ModulePath
pub mod Params
pub mod Corpus
