-- ===== src/Worker/Vulndb/Tests.antt =====
-- A run of handleVulnDB, and the theorem about it at a concrete bucket. The service of the tests
-- answers the query for the most recent rows of tables of at most one row.
use pkgsite_metrics.Prelude.{List, [], ◌∷◌, none, text}
use pkgsite_metrics.Derrors.{Result, ok, err, plain}
use pkgsite_metrics.Osv
use pkgsite_metrics.Vulndb.{Entry}
use pkgsite_metrics.Worker.Vulndb.{Sources}

abbrev osv_entry : Osv.Entry
osv_entry = record {
  schema_version = [];
  id = text "GO-1";
  modified = 7;
  published = 3;
  withdrawn = none;
  aliases = [];
  details = [];
  affected = [];
  references = [];
  credits = [];
  database_specific = none;
}

abbrev small_query : List Entry → Result (List Entry)
small_query [] = ok []
small_query (e ∷ []) = ok (e ∷ [])
small_query (e ∷ f ∷ table) = err (plain (text "too large"))

abbrev sources : Sources
sources = record {
  dataset = none;
  storage_client = none;
  create_table = none;
  most_recent = small_query;
  object_names = ok (text "ID/GO-1.json") ∷ ok (text "ID/index.json") ∷ [];
  read_entry = λ name. ok osv_entry;
  upload = λ e. none;
}
