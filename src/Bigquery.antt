-- ===== src/Bigquery.antt =====
-- internal/bigquery/bigquery.go: uploads, row iteration and table schemas. The client library
-- cloud.google.com/go/bigquery is not part of the repository: its calls are parameters.
pub mod Upload
pub mod Schemas
pub mod Tables
