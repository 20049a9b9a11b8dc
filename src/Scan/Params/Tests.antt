-- ===== src/Scan/Params/Tests.antt =====
-- The round trip of parameters at a concrete struct, with conversions and a reading of queries that
-- have the documented laws. They print and parse ints of 64 bits in decimal, and escape a byte by adding 128.
use pkgsite_metrics.Prelude.{
  ℕ, ◌+◌, ◌-◌, ◌≡◌, refl, ◌∙◌, ap, Bool, true, false, List, [], ◌∷◌, ◌++◌, map, Option, none, some,
  Text, text, is_empty, text_eq, cut, cut-append, count_byte, ◌==◌, if◌then◌else◌, arith,
}
use pkgsite_metrics.Prelude.Int.{pos}
use pkgsite_metrics.Derrors.{Result, ok}
use pkgsite_metrics.Scan.Params.{
  Value, string_value, int_value, bool_value, other_value, Field, pointer, struct, Conversions,
  parse_params, params, query, format_params, format_param,
}
use pkgsite_metrics.Scan.Params.Decimal.{atoi, signed, atoi-signed, is_empty-signed}
use pkgsite_metrics.Scan.Params.RoundTrip.{
  IsFaithful, value_of, occurs, unique, plain_names, all_name_bytes, have_go_values, same_type,
  defaulted, parse_params-format_params,
}

abbrev pub sprint : Value → Text
sprint (string_value t) = t
sprint (int_value n) = signed n
sprint (bool_value true) = text "true"
sprint (bool_value false) = text "false"
sprint (other_value t) = t

abbrev pub escape : Text → Text
escape t = map (λ c. c + 128) t

abbrev pub unescape : Text → Text
unescape t = map (λ c. c - 128) t

abbrev pub conv : Conversions
conv = record {
  atoi = atoi;
  parse_bool = λ s. ok (text_eq s (text "true"));
  sprint = sprint;
  query_escape = escape;
}

true_or_false :
    (b : Bool) → ◌≡◌ {A = Result Bool} (ok (text_eq (sprint (bool_value b)) (text "true"))) (ok b)
unfolding text_eq
true_or_false true = refl
true_or_false false = refl

bool_not_empty : (b : Bool) → is_empty (sprint (bool_value b)) ≡ false
bool_not_empty true = refl
bool_not_empty false = refl

pub conv-IsFaithful : IsFaithful conv
conv-IsFaithful = record {
  sprint_string = λ t. refl;
  atoi_sprint = atoi-signed;
  parse_bool_sprint = true_or_false;
  sprint_int = is_empty-signed;
  sprint_bool = bool_not_empty;
}

-- A reading of queries: the parts between the '&', each cut at its '='.
to_first : ℕ → List Text → List Text
to_first c [] = []
to_first c (t ∷ ts) = (c ∷ t) ∷ ts

split_at : ℕ → Text → List Text
split_at b [] = [] ∷ []
split_at b (c ∷ s) = let rest = split_at b s in if c == b then [] ∷ rest else to_first c rest

abbrev cut_pair : Text → Option (Text × Text) → Text × Text
cut_pair t none = (t, [])
cut_pair t (some (n, v)) = (n, unescape v)

abbrev pair : Text → Text × Text
pair t = cut_pair t (cut b'=' t)

pub form : Text → Text → Text
form q n = value_of n (map pair (split_at b'&' q))

split_last : (b : ℕ) (l : Text) → count_byte b l ≡ 0 → split_at b l ≡ l ∷ []
unfolding split_at to_first count_byte
split_last b [] h = refl
split_last b (c ∷ l) h = ground (arith, split_last b l)

split_more :
    (b : ℕ) (l r : Text) → count_byte b l ≡ 0 → split_at b (l ++ (b ∷ r)) ≡ l ∷ split_at b r
unfolding split_at to_first count_byte
split_more b [] r h = ground arith
split_more b (c ∷ l) r h = ground (arith, split_more b l r)

unescape-escape : (t : Text) → unescape (escape t) ≡ t
unescape-escape [] = refl
unescape-escape (c ∷ t) = cc (unescape-escape t, plus_minus c)
  where
    plus_minus : (c : ℕ) → c + 128 - 128 ≡ c
    plus_minus c = omega arith

name_clean :
    (s : Text) → all_name_bytes s ≡ true → (count_byte b'=' s ≡ 0) × (count_byte b'&' s ≡ 0)
unfolding all_name_bytes count_byte
name_clean [] h = (refl, refl)
name_clean (c ∷ s) h = ground (arith, name_clean s)

escape_clean : (s : Text) → count_byte b'&' (escape s) ≡ 0
unfolding count_byte
escape_clean [] = refl
escape_clean (c ∷ s) = ground (arith, escape_clean s)

format_clean : (m v : Text) → count_byte b'&' m ≡ 0 → count_byte b'&' (format_param conv m v) ≡ 0
unfolding format_param count_byte
format_clean [] v h = ground (arith, escape_clean v)
format_clean (c ∷ m) v h = ground (arith, format_clean m v)

pair-format_param : (m v : Text) → count_byte b'=' m ≡ 0 → pair (format_param conv m v) ≡ (m, v)
unfolding format_param
pair-format_param m v h =
    ap (cut_pair (format_param conv m v)) (cut-append b'=' m (escape v) h)
    ∙ ap (λ x. (m, x)) (unescape-escape v)

pub form-query :
    (ps : List (Text × Text)) (n : Text)
    → plain_names ps ≡ true
    → form (query conv ps) n ≡ value_of n ps
unfolding form query plain_names value_of split_at cut text_eq
form-query [] [] h = refl
form-query [] (c ∷ n) h = refl
form-query ((m, v) ∷ []) n h =
    let (e, a) = name_clean m (ground (arith, h)) in
    rw (split_last b'&' (format_param conv m v) (format_clean m v a), pair-format_param m v e) refl
form-query ((m, v) ∷ (p ∷ ps)) n h =
    let (e, a) = name_clean m (ground (arith, h)) in
    rw
      (
        split_more b'&' (format_param conv m v) (query conv (p ∷ ps)) (format_clean m v a),
        pair-format_param m v e,
      )
      (ap (λ x. if text_eq m n then v else x) (form-query (p ∷ ps) n (ground (arith, h))))

abbrev field : Text → Value → Field
field n v = record { name = n; value = v }

abbrev fields : List Field
fields =
    field (text "Binary") (string_value (text "scan"))
    ∷ field (text "Min") (int_value (pos 3))
    ∷ field (text "Args") (string_value [])
    ∷ []

abbrev defaults : List Field
defaults =
    field (text "Binary") (string_value [])
    ∷ field (text "Min") (int_value (pos 10))
    ∷ field (text "Args") (string_value (text "none"))
    ∷ []

no_name_twice : unique fields ≡ true
unfolding unique occurs text_eq
no_name_twice = refl

plain_fields : plain_names (params conv fields) ≡ true
unfolding plain_names params all_name_bytes
plain_fields = refl

int_fields : have_go_values fields ≡ true
unfolding have_go_values
int_fields = refl

one_type : same_type fields defaults ≡ true
unfolding same_type text_eq
one_type = refl

parse_params-format_params_example :
    (q : Text) × (format_params conv (struct fields) ≡ some q)
    × (parse_params conv (form q) (pointer defaults) ≡ (pointer (defaulted fields defaults), none))
parse_params-format_params_example =
    parse_params-format_params conv form fields defaults conv-IsFaithful form-query no_name_twice
      plain_fields int_fields one_type
