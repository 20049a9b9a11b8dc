-- ===== src/Bigquery/Schemas.antt =====
-- internal/bigquery/bigquery.go: SchemaString and SchemaVersion. A bigquery.FieldSchema is read by
-- its name, modes, type and, for a record, its own schema.
pub mod Order
mod Tests
use pkgsite_metrics.Prelude.{
  Bool, true, false, ◌&&◌, ◌||◌, List, [], ◌∷◌, ◌++◌, Text, text, text_eq, text_lt, ltb, ◌==◌,
  if◌then◌else◌,
}

mutual
  pub data Schema : Type 0 where
    no_fields : Schema
    with_field : FieldSchema → Schema → Schema

  pub data FieldSchema : Type 0 where
    field_schema : Text → Bool → Bool → Text → Schema → FieldSchema

-- bigquery.RecordFieldType
abbrev pub record_field_type : Text
record_field_type = text "RECORD"

-- A field's name, and what SchemaString writes for it.
abbrev pub Rendered : Type 0
Rendered = Text × Text

-- sort.SliceStable by the name.
unfoldable pub insert : Rendered → List Rendered → List Rendered
insert x [] = x ∷ []
insert x (y ∷ ys) = let rest = insert x ys in if text_lt y.0 x.0 then y ∷ rest else x ∷ y ∷ ys

unfoldable pub sort_stable : List Rendered → List Rendered
sort_stable [] = []
sort_stable (x ∷ xs) = insert x (sort_stable xs)

unfoldable pub join_rendered : List Rendered → Text
join_rendered [] = []
join_rendered (x ∷ []) = x.1
join_rendered (x ∷ y ∷ ys) = x.1 ++ (b';' ∷ join_rendered (y ∷ ys))

abbrev pub render_field : Text → Bool → Bool → Text → Text → Rendered
render_field name repeated required type schema_text = (
  name,
  name
      ++ ((if repeated then text ",rep" else [])
          ++ ((if required then text ",req" else [])
              ++ (b':'
                  ∷ (if text_eq type record_field_type
                      then b'(' ∷ (schema_text ++ text ")")
                      else type)))),
)

-- SchemaString. Each field is written before the fields are sorted: what is written for a field does
-- not depend on the others.
mutual
  pub rendered : Schema → List Rendered
  rendered no_fields = []
  rendered (with_field f s) = rendered_field f ∷ rendered s

  pub rendered_field : FieldSchema → Rendered
  rendered_field (field_schema name repeated required type s) =
      render_field name repeated required type (join_rendered (sort_stable (rendered s)))

pub schema_string : Schema → Text
schema_string s = join_rendered (sort_stable (rendered s))

-- SchemaVersion; `hash` is the hexadecimal SHA-256 of a text.
unfoldable pub schema_version : (Text → Text) → Schema → Text
schema_version hash s = hash (schema_string s)
