-- ===== src/Bigquery/Tables/Tests.antt =====
-- Tests of the tables of BigQuery, and the theorem about them at a concrete table.
use pkgsite_metrics.Prelude.{ℕ, ◌≡◌, refl, true, false, [], ◌∷◌, none, some, text, text_eq}
use pkgsite_metrics.Derrors.{Err, ok, err, plain, wrap}
use pkgsite_metrics.Bigquery.Schemas.{Schema, no_fields, with_field, field_schema}
use pkgsite_metrics.Bigquery.Tables.{
  Service, Registry, create_table_call, table_schema, add_table, create_or_update_table,
  is_not_found_error, has_code, all, for_each_row,
}

abbrev schema : Schema
schema =
    with_field (field_schema (text "a") false false (text "STRING") no_fields)
      (with_field (field_schema (text "b") false true (text "INTEGER") no_fields) no_fields)

abbrev current : Schema
current =
    with_field (field_schema (text "b") false true (text "INTEGER") no_fields)
      (with_field (field_schema (text "a") false false (text "STRING") no_fields) no_fields)

abbrev conflict : Err
conflict = plain (text "already exists")

abbrev missing_table : Err
missing_table = plain (text "not found")

abbrev service : Service
service = record {
  code = λ e. some 409;
  hash = λ t. t;
  new_client = none;
  dataset_metadata = none;
  table_metadata = ok (current, text "etag");
  change = λ c. some conflict;
}

abbrev tables : Registry
tables = add_table (text "t") schema []

registered : table_schema tables (text "t") ≡ some schema
unfolding table_schema text_eq
registered = refl

different : text_eq (text "a") (text "b") ≡ false
unfolding text_eq
different = refl

-- When two clients create a table at once, the one that is late reports that it created the table,
-- and an error.
late_creation :
    create_or_update_table
      (record service { table_metadata = err missing_table; code = λ e. some 404 })
      tables
      (text "t")
    ≡ record {
      changes = create_table_call schema ∷ [];
      created = true;
      error = wrap (text "CreateOrUpdateTable") (some conflict);
    }
unfolding create_or_update_table table_schema is_not_found_error has_code text_eq
late_creation = refl

all_rows : all {T = ℕ} (ok 1 ∷ ok 2 ∷ []) ≡ ok (1 ∷ 2 ∷ [])
unfolding all for_each_row
all_rows = refl
