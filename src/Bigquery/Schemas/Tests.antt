-- ===== src/Bigquery/Schemas/Tests.antt =====
-- A test of SchemaString, and its independence of the order at a concrete schema.
use pkgsite_metrics.Prelude.{◌≡◌, refl, true, false, text, text_eq, text_lt}
use pkgsite_metrics.Bigquery.Schemas.{
  Schema, no_fields, with_field, FieldSchema, field_schema, record_field_type, schema_string,
  rendered, rendered_field, sort_stable, insert, join_rendered,
}
use pkgsite_metrics.Bigquery.Schemas.Order.{swapped, schema_string-Reordered, name_of}

abbrev inner : Schema
inner = with_field (field_schema (text "id") false true (text "STRING") no_fields) no_fields

abbrev path_field : FieldSchema
path_field = field_schema (text "path") false false (text "STRING") no_fields

abbrev vulns_field : FieldSchema
vulns_field = field_schema (text "vulns") true false record_field_type inner

abbrev first : Schema
first = with_field vulns_field (with_field path_field no_fields)

abbrev second : Schema
second = with_field path_field (with_field vulns_field no_fields)

first_string : schema_string first ≡ text "path:STRING;vulns,rep:(id,req:STRING)"
unfolding schema_string rendered rendered_field sort_stable insert join_rendered text_eq text_lt
first_string = refl

other_names : text_eq (name_of vulns_field) (name_of path_field) ≡ false
unfolding text_eq
other_names = refl

schema_string-Reordered_example : schema_string first ≡ schema_string second
schema_string-Reordered_example =
    schema_string-Reordered (swapped vulns_field path_field no_fields other_names)
