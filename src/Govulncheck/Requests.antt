-- ===== src/Govulncheck/Requests.antt =====
-- internal/govulncheck/govulncheck.go: the path and the parameters of a scan request, and ParseRequest.
pub mod RoundTrip
mod Tests
use pkgsite_metrics.Prelude.{
  Bool, false, List, [], ◌∷◌, Option, none, some, Text, text, trim_prefix,
}
use pkgsite_metrics.Prelude.Int.{ℤ, pos, negsuc}
use pkgsite_metrics.Derrors.{Err, Result, ok, err, plain, ◌>>=◌}
use pkgsite_metrics.Scan.ModulePath.{ModuleUrlPath, parse_module_url_path, path}
use pkgsite_metrics.Scan.Params.{
  Value, string_value, int_value, bool_value, Field, Any, pointer, struct, Conversions,
  parse_params, format_params,
}
use pkgsite_metrics.Govulncheck.{QueryParams, Request}

-- A QueryParams as package reflect shows it, and back.
abbrev field : Text → Value → Field
field name value = record { name = name; value = value }

abbrev pub fields : QueryParams → List Field
fields p =
    field (text "ImportedBy") (int_value p.imported_by)
    ∷ (field (text "Mode") (string_value p.mode)
        ∷ (field (text "Insecure") (bool_value p.insecure)
            ∷ (field (text "Serve") (bool_value p.serve) ∷ [])))

-- QueryParams{ImportedBy: -1}
abbrev pub initial_params : QueryParams
initial_params = record { imported_by = negsuc 0; mode = []; insecure = false; serve = false }

abbrev int_of : Value → ℤ
int_of (int_value n) = n
int_of _ = negsuc 0

abbrev pub string_of : Value → Text
string_of (string_value t) = t
string_of _ = []

abbrev bool_of : Value → Bool
bool_of (bool_value b) = b
bool_of _ = false

abbrev read_fields : Any → QueryParams
read_fields (pointer (i ∷ (m ∷ (n ∷ (s ∷ []))))) = record {
  imported_by = int_of i.value;
  mode = string_of m.value;
  insecure = bool_of n.value;
  serve = bool_of s.value;
}
read_fields _ = initial_params

-- Request.Path
pub request_path : Request → Text
request_path r = path r.url_path

-- Request.Params
pub request_params : Conversions → Request → Option Text
request_params conv r = format_params conv (struct (fields r.params))

abbrev pub checked : ModuleUrlPath → QueryParams → ℤ → Result Request
checked mp rp (pos n) = ok (record { url_path = mp; params = rp })
checked mp rp (negsuc n) = err (plain (text "missing or negative \"importedby\" query param"))

abbrev with_params : ModuleUrlPath → Any × Option Err → Result Request
with_params mp (t, some e) = err e
with_params mp (t, none) = checked mp (read_fields t) (read_fields t).imported_by

-- ParseRequest of a request with a path and with the values that `form` gives.
pub parse_request : Conversions → (Text → Text) → Text → Text → Result Request
parse_request conv form url_path prefix =
    parse_module_url_path (trim_prefix url_path prefix) >>= λ mp.
    with_params mp (parse_params conv form (pointer (fields initial_params)))
