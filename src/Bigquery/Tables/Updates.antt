-- ===== src/Bigquery/Tables/Updates.antt =====
-- internal/bigquery/bigquery.go: when CreateOrUpdateTable leaves a table as it is.
use pkgsite_metrics.Prelude.{◌≡◌, refl, false, [], none, some, Text, text_eq_refl}
use pkgsite_metrics.Derrors.{ok, wrap}
use pkgsite_metrics.Bigquery.Schemas.{Schema, schema_string, schema_version}
use pkgsite_metrics.Bigquery.Schemas.Order.{Reordered, schema_string-Reordered}
use pkgsite_metrics.Bigquery.Tables.{Service, Registry, table_schema, create_or_update_table}

-- A table whose fields stand in another order than those of the registered schema is left alone:
-- CreateOrUpdateTable asks for no change and succeeds.
pub create_or_update_table-Reordered :
    (service : Service) (tables : Registry) (table_id etag : Text) {schema current : Schema}
    → table_schema tables table_id ≡ some schema
    → service.table_metadata ≡ ok (current, etag)
    → Reordered schema current
    → create_or_update_table service tables table_id
      ≡ record { changes = []; created = false; error = none }
unfolding create_or_update_table schema_version wrap
create_or_update_table-Reordered service tables table_id etag {schema} {current} s m r =
    rw (s, m, schema_string-Reordered r, text_eq_refl (service.hash (schema_string current))) refl
