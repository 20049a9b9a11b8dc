-- ===== src/Scan/Params.antt =====
-- internal/scan/parse.go: ParseParams and FormatParams. Package reflect shows a struct as its fields,
-- here `List Field`; package strconv, fmt.Sprint and url.QueryEscape are fields of `Conversions`.
mod Decimal
pub mod RoundTrip
pub mod Tests
use pkgsite_metrics.Prelude.{
  ℕ, ◌+◌, ◌-◌, Bool, ◌&&◌, List, [], ◌∷◌, ◌++◌, map, Option, none, some, Text, text, is_empty, ltb,
  if◌then◌else◌,
}
use pkgsite_metrics.Prelude.Int.{ℤ}
use pkgsite_metrics.Derrors.{Err, Result, ok, err, plain, message, wrap, ◌>>=◌}

-- The value of a field, with its kind; `other_value` stands for the other kinds.
pub data Value : Type 0 where
  string_value : Text → Value
  int_value : ℤ → Value
  bool_value : Bool → Value
  other_value : Text → Value

pub record Field : Type 0 where
  pub name : Text
  pub value : Value

-- An argument of type `any`.
pub data Any : Type 0 where
  pointer : List Field → Any
  struct : List Field → Any
  no_struct : Any

pub record Conversions : Type 0 where
  pub atoi : Text → Result ℤ
  pub parse_bool : Text → Result Bool
  pub sprint : Value → Text
  pub query_escape : Text → Text

-- strings.ToLower, of an ASCII text.
abbrev pub lower : ℕ → ℕ
lower c = if ltb c b'A' then c else if ltb b'Z' c then c else c + 32

abbrev pub to_lower : Text → Text
to_lower s = map lower s

module _ (conv : Conversions) where
  pub parse_param : Text → Value → Result Value
  parse_param param (string_value _) = ok (string_value param)
  parse_param param (int_value _) = conv.atoi param >>= λ n. ok (int_value n)
  parse_param param (bool_value _) = conv.parse_bool param >>= λ b. ok (bool_value b)
  parse_param param (other_value _) = err (plain (text "cannot parse kind"))

  abbrev in_param : Text → Result Value → Result Value
  in_param name (ok v) = ok v
  in_param name (err e) = err (plain (text "param " ++ (name ++ (text ": " ++ message e))))

  -- The new value of a field, by the value of its parameter.
  pub parse_field : Text → Field → Result Value
  parse_field param f =
      if is_empty param then ok f.value else in_param (to_lower f.name) (parse_param param f.value)

  abbrev with_value :
      Field → List Field → Result Value → List Field × Option Err → List Field × Option Err
  with_value f fs (err e) rest = (f ∷ fs, some e)
  with_value f fs (ok v) rest = (record f { value = v } ∷ rest.0, rest.1)

  -- The loop of ParseParams. `form` is r.FormValue, and an error leaves the fields from it on.
  pub parse_fields : (Text → Text) → List Field → List Field × Option Err
  parse_fields form [] = ([], none)
  parse_fields form (f ∷ fs) =
      with_value f fs (parse_field (form (to_lower f.name)) f) (parse_fields form fs)

  abbrev parsed : (Text → Text) → Any → Any × Option Err
  parsed form (pointer fs) = (pointer (parse_fields form fs).0, (parse_fields form fs).1)
  parsed form s = (s, some (plain (text "need struct pointer")))

  pub parse_params : (Text → Text) → Any → Any × Option Err
  parse_params form s = let (t, e) = parsed form s in (t, wrap (text "ParseParams") e)

  pub format_param : Text → Text → Text
  format_param name value = name ++ (b'=' ∷ conv.query_escape value)

  unfoldable pub params : List Field → List (Text × Text)
  params [] = []
  params (f ∷ fs) = (to_lower f.name, conv.sprint f.value) ∷ params fs

  -- strings.Join with "&", of the formatted parameters.
  pub query : List (Text × Text) → Text
  query [] = []
  query ((n, v) ∷ []) = format_param n v
  query ((n, v) ∷ p ∷ ps) = format_param n v ++ (b'&' ∷ query (p ∷ ps))

  -- FormatParams; `none` is the panic.
  pub format_params : Any → Option Text
  format_params (pointer fs) = some (query (params fs))
  format_params (struct fs) = some (query (params fs))
  format_params no_struct = none
