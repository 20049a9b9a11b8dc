-- ===== src/Govulncheck/Requests/RoundTrip.antt =====
-- internal/govulncheck/govulncheck.go: ParseRequest reads what Path and Params wrote.
use pkgsite_metrics.Prelude.{
  ℕ, ◌≡◌, refl, ap, ◌∙◌, true, List, [], ◌∷◌, ◌++◌, some, Text, text_eq, trim_prefix-append,
}
use pkgsite_metrics.Prelude.Int.{pos}
use pkgsite_metrics.Derrors.{ok}
use pkgsite_metrics.Scan.ModulePath.{ModuleUrlPath, path}
use pkgsite_metrics.Scan.ModulePath.RoundTrip.{IsModulePath, IsVersion, parse_module_url_path-path}
use pkgsite_metrics.Scan.Params.{string_value, Conversions, query, params}
use pkgsite_metrics.Scan.Params.RoundTrip.{
  IsFaithful, value_of, unique, occurs, plain_names, all_name_bytes, is_int, have_go_values,
  same_type, defaulted, or_default, parse_params-format_params,
}
use pkgsite_metrics.Govulncheck.{QueryParams, Request}
use pkgsite_metrics.Govulncheck.Requests.{
  fields, initial_params, request_path, request_params, parse_request, checked, string_of,
}

names_unique : (p : QueryParams) → unique (fields p) ≡ true
unfolding unique occurs text_eq
names_unique p = refl

names_plain : (conv : Conversions) (p : QueryParams) → plain_names (params conv (fields p)) ≡ true
unfolding plain_names params all_name_bytes
names_plain conv p = refl

-- The count of importers is an int of 64 bits.
ints_fit : (p : QueryParams) → is_int p.imported_by ≡ true → have_go_values (fields p) ≡ true
unfolding have_go_values
ints_fit p h = rw h refl

one_type : (p : QueryParams) → same_type (fields p) (fields initial_params) ≡ true
unfolding same_type text_eq
one_type p = refl

kept_text : (t : Text) → string_of (or_default (string_value t) (string_value [])) ≡ t
kept_text [] = refl
kept_text (c ∷ t) = refl

checked_ok :
    (mp : ModuleUrlPath) (rp : QueryParams) (n : ℕ)
    → rp.imported_by ≡ pos n
    → checked mp rp rp.imported_by ≡ ok (record { url_path = mp; params = rp })
checked_ok mp rp n h = rw h refl

-- The scan task of a request is parsed back: for a module path and a version that can be read back
-- from a path, and a count of importers of 64 bits that is not negative, ParseRequest gives the request from its
-- Path behind any prefix and from the query of its Params. The query is read as package net/url
-- documents it, and numbers and Booleans are printed and parsed as package strconv documents it.
pub parse_request-request_path :
    (conv : Conversions) (form : Text → Text → Text) (prefix : Text) (r : Request)
    → IsFaithful conv
    → ((ps : List (Text × Text)) (n : Text)
        → plain_names ps ≡ true
        → form (query conv ps) n ≡ value_of n ps)
    → IsModulePath r.url_path.module_path
    → IsVersion r.url_path.version
    → ((n : ℕ) × (r.params.imported_by ≡ pos n))
    → is_int r.params.imported_by ≡ true
    → (q : Text) × (request_params conv r ≡ some q)
      × (parse_request conv (form q) (prefix ++ request_path r) prefix ≡ ok r)
unfolding request_path request_params parse_request defaulted
parse_request-request_path conv form prefix r faithful law hm hv (n, count) fits =
    let (q, f, e) =
      parse_params-format_params conv form (fields r.params) (fields initial_params) faithful law
        (names_unique r.params) (names_plain conv r.params) (ints_fit r.params fits)
        (one_type r.params) in
    (
      q,
      f,
      rw
          (
            trim_prefix-append prefix (path r.url_path),
            parse_module_url_path-path r.url_path hm hv,
            e,
          )
          (ap (λ m. checked r.url_path (record (r.params) { mode = m }) r.params.imported_by)
              (kept_text r.params.mode)
            ∙ checked_ok r.url_path r.params n count),
    )
