-- ===== src/Bigquery/Tables.antt =====
-- internal/bigquery/bigquery.go: the registered schemas, the creation of datasets and tables, the
-- rows of an iterator, and PartitionQuery. What BigQuery answers is the record `Service`.
pub mod Updates
mod Tests
use pkgsite_metrics.Prelude.{
  ℕ, Bool, true, false, not, ◌&&◌, ◌||◌, List, [], ◌∷◌, ◌++◌, Option, none, some, Text, text,
  text_eq, is_empty, ◌==◌, if◌then◌else◌,
}
use pkgsite_metrics.Derrors.{Err, Result, ok, err, plain, wrap, join}
use pkgsite_metrics.Bigquery.Schemas.{Schema, schema_version}

-- What is asked of BigQuery to change a table or a dataset.
pub data Change : Type 0 where
  create_dataset_call : Text → Change
  create_table_call : Schema → Change
  update_table_call : Schema → Text → Change

pub record Service : Type 0 where
  -- the code of a googleapi.Error that an error is or wraps
  pub code : Err → Option ℕ
  pub hash : Text → Text
  pub new_client : Option Err
  pub dataset_metadata : Option Err
  -- the schema and the ETag of the table
  pub table_metadata : Result (Schema × Text)
  pub change : Change → Option Err

abbrev code_is : Option ℕ → ℕ → Bool
code_is none code = false
code_is (some c) code = c == code

pub has_code : Service → Err → ℕ → Bool
has_code service e code = code_is (service.code e) code

pub is_not_found_error : Service → Err → Bool
is_not_found_error service e = has_code service e 404

pub is_already_exists_error : Service → Err → Bool
is_already_exists_error service e = has_code service e 409

pub is_race_change_error : Service → Err → Bool
is_race_change_error service e = has_code service e 412

-- The map `tables`.
abbrev pub Registry : Type 0
Registry = List (Text × Schema)

abbrev pub add_table : Text → Schema → Registry → Registry
add_table table_id s tables = (table_id, s) ∷ tables

unfoldable pub table_schema : Registry → Text → Option Schema
table_schema [] table_id = none
table_schema ((t, s) ∷ tables) table_id =
    if text_eq t table_id then some s else table_schema tables table_id

-- What CreateOrUpdateTable has asked for, and its results.
pub record Updated : Type 0 where
  pub changes : List Change
  pub created : Bool
  pub error : Option Err

abbrev unchanged : Option Err → Updated
unchanged e = record { changes = []; created = false; error = e }

abbrev lost_race : Service → Option Err → Bool
lost_race service none = false
lost_race service (some e) = is_already_exists_error service e || is_race_change_error service e

abbrev update_table : Service → Schema → Text → Updated
update_table service schema etag =
    let e = service.change (update_table_call schema etag) in
    record {
      changes = update_table_call schema etag ∷ [];
      created = false;
      error = if lost_race service e then none else e;
    }

abbrev with_metadata : Service → Schema → Result (Schema × Text) → Updated
with_metadata service schema (err e) =
    if not (is_not_found_error service e) then unchanged (some e) else record {
      changes = create_table_call schema ∷ [];
      created = true;
      error = service.change (create_table_call schema);
    }
with_metadata service schema (ok (current, etag)) =
    if text_eq (schema_version service.hash schema) (schema_version service.hash current)
    then unchanged none
    else update_table service schema etag

abbrev with_schema : Service → Option Schema → Updated
with_schema service none = unchanged (some (plain (text "no schema registered for table")))
with_schema service (some schema) = with_metadata service schema service.table_metadata

pub create_or_update_table : Service → Registry → Text → Updated
create_or_update_table service tables table_id =
    let u = with_schema service (table_schema tables table_id) in
    record u { error = wrap (text "CreateOrUpdateTable") u.error }

-- CreateDataset: what it has asked for, and its error.
abbrev missing_dataset : Service → Text → Option Err → List Change × Option Err
missing_dataset service dataset_id none = (create_dataset_call dataset_id ∷ [], none)
missing_dataset service dataset_id (some e) = (
  create_dataset_call dataset_id ∷ [],
  if not (is_already_exists_error service e) then some e else none,
)

abbrev with_dataset : Service → Text → Option Err → List Change × Option Err
with_dataset service dataset_id none = ([], none)
with_dataset service dataset_id (some e) =
    if not (is_not_found_error service e)
    then ([], some e)
    else missing_dataset service dataset_id (service.change (create_dataset_call dataset_id))

abbrev with_client : Service → Text → Option Err → List Change × Option Err
with_client service dataset_id (some e) = ([], some e)
with_client service dataset_id none = with_dataset service dataset_id service.dataset_metadata

pub create_dataset : Service → Text → List Change × Option Err
create_dataset service dataset_id =
    let (changes, e) = with_client service dataset_id service.new_client in
    (changes, wrap (text "CreateDataset") e)

-- Close, with the errors of deleting the dataset and of closing the client.
pub close : Bool → Option Err → Option Err → Option Err
close delete_dataset_on_close deleted closed =
    join (if delete_dataset_on_close then deleted else none) closed

-- ForEachRow, on what the iterator gives and a function with a state: its Boolean says to go on.
pub for_each_row {ℓ κ} :
    {T : Type ℓ} {S : Type κ} → (T → S → S × Bool) → List (Result T) → S → S × Option Err
for_each_row f [] s = (s, none)
for_each_row f (err e ∷ rows) s = (s, some e)
for_each_row f (ok row ∷ rows) s =
    let (next, more) = f row s in
    let rest = for_each_row f rows next in if not more then (next, none) else rest

abbrev all_or_error {ℓ} : {T : Type ℓ} → List T × Option Err → Result (List T)
all_or_error (ts, some e) = err e
all_or_error (ts, none) = ok ts

pub all {ℓ} : {T : Type ℓ} → List (Result T) → Result (List T)
all rows = all_or_error (for_each_row (λ t ts. (ts ++ (t ∷ []), true)) rows [])

pub record PartitionQuery : Type 0 where
  pub from : Text
  pub columns : Text
  pub partition_on : Text
  pub where_clause : Text
  pub order_by : Text

-- PartitionQuery.String, with one space for the white space of its format.
pub query_string : PartitionQuery → Text
query_string q =
    let cols = if is_empty q.columns then text "*" else q.columns in
    let filter =
      if not (is_empty q.where_clause) then text "WHERE " ++ q.where_clause else q.where_clause in
    text "SELECT * EXCEPT (rownum) FROM ( SELECT "
    ++ (cols
        ++ (text ", ROW_NUMBER() OVER ( PARTITION BY "
            ++ (q.partition_on
                ++ (text " ORDER BY "
                    ++ (q.order_by
                        ++ (text " ) AS rownum FROM "
                            ++ (q.from
                                ++ (text " " ++ (filter ++ text " ) WHERE rownum = 1")))))))))
