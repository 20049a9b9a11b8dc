-- ===== src/Scan/Params/RoundTrip.antt =====
-- internal/scan/parse.go: ParseParams gives back what FormatParams wrote.
use pkgsite_metrics.Prelude.{
  both, neither, differs, ℕ, ◌≡◌, refl, sym, ◌∙◌, subst, Bool, true, false, ◌&&◌, ◌||◌, not, List,
  [], ◌∷◌, none, some, Text, is_empty, text_eq, text_eq_refl, text_eq_iff, ltb, if◌then◌else◌,
  arith,
}
use pkgsite_metrics.Prelude.Int.{ℤ, pos, negsuc}
use pkgsite_metrics.Derrors.{ok, wrap}
use pkgsite_metrics.Scan.Params.{
  Value, string_value, int_value, bool_value, Field, pointer, struct, Conversions, to_lower,
  parse_param, parse_field, parse_fields, parse_params, params, query, format_params,
}

-- FormValue: the first value of a name, or the empty text.
unfoldable pub value_of : Text → List (Text × Text) → Text
value_of n [] = []
value_of n ((m, v) ∷ ps) = if text_eq m n then v else value_of n ps

unfoldable pub occurs : Text → List Field → Bool
occurs n [] = false
occurs n (f ∷ fs) = text_eq (to_lower f.name) n || occurs n fs

-- No two fields have the same parameter.
unfoldable pub unique : List Field → Bool
unique [] = true
unique (f ∷ fs) = not (occurs (to_lower f.name) fs) && unique fs

abbrev pub name_byte : ℕ → Bool
name_byte c = ltb b'`' c && ltb c b'{' || ltb b'/' c && ltb c b':'

unfoldable pub all_name_bytes : Text → Bool
all_name_bytes [] = true
all_name_bytes (c ∷ s) = name_byte c && all_name_bytes s

-- All names are of small letters and digits.
unfoldable pub plain_names : List (Text × Text) → Bool
plain_names [] = true
plain_names ((n, v) ∷ ps) = all_name_bytes n && plain_names ps

abbrev pub same_kind : Value → Value → Bool
same_kind (string_value _) (string_value _) = true
same_kind (int_value _) (int_value _) = true
same_kind (bool_value _) (bool_value _) = true
same_kind _ _ = false

-- Two lists of the fields of one struct type.
unfoldable pub same_type : List Field → List Field → Bool
same_type [] [] = true
same_type (f ∷ fs) (g ∷ gs) = text_eq f.name g.name && same_kind f.value g.value && same_type fs gs
same_type _ _ = false

-- The fields `fs`, with those of `gs` in the place of empty texts.
abbrev pub or_default : Value → Value → Value
or_default (string_value []) w = w
or_default v w = v

unfoldable pub defaulted : List Field → List Field → List Field
defaulted (f ∷ fs) (g ∷ gs) = record f { value = or_default f.value g.value } ∷ defaulted fs gs
defaulted fs gs = []

data Agrees (conv : Conversions) (form : Text → Text) : List Field → Type 0 where
  no_field : Agrees conv form []
  one_more :
      (f : Field) (fs : List Field)
      → form (to_lower f.name) ≡ conv.sprint f.value
      → Agrees conv form fs
      → Agrees conv form (f ∷ fs)

Agrees-skip :
    (conv : Conversions) (k v : Text) (ps : List (Text × Text)) (fs : List Field)
    → occurs k fs ≡ false
    → Agrees conv (λ n. value_of n ps) fs
    → Agrees conv (λ n. value_of n ((k, v) ∷ ps)) fs
unfolding occurs value_of
Agrees-skip conv k v ps [] n no_field = no_field
Agrees-skip conv k v ps (f ∷ fs) n (one_more _ _ e a) =
    let (other, later) = neither _ _ n in
    one_more f fs (rw (differs k (to_lower f.name) other) e) (Agrees-skip conv k v ps fs later a)

Agrees-ext :
    (conv : Conversions) (f g : Text → Text) (fs : List Field)
    → ((n : Text) → f n ≡ g n)
    → Agrees conv f fs
    → Agrees conv g fs
Agrees-ext conv f g [] h no_field = no_field
Agrees-ext conv f g (x ∷ xs) h (one_more _ _ e a) =
    one_more x xs (sym (h (to_lower x.name)) ∙ e) (Agrees-ext conv f g xs h a)

params-Agrees :
    (conv : Conversions) (fs : List Field)
    → unique fs ≡ true
    → Agrees conv (λ n. value_of n (params conv fs)) fs
unfolding unique params value_of
params-Agrees conv [] h = no_field
params-Agrees conv (f ∷ fs) h = one_more f fs (rw (text_eq_refl (to_lower f.name)) refl) (
    Agrees-skip conv (to_lower f.name) (conv.sprint f.value) (params conv fs) fs (ground (arith, h))
      (params-Agrees conv fs (ground (arith, h))))

-- Go's int has 64 bits: from -2 ^ 63 to 2 ^ 63 - 1.
abbrev pub is_int : ℤ → Bool
is_int (pos n) = ltb n 9223372036854775808
is_int (negsuc n) = ltb n 9223372036854775808

abbrev pub is_go_value : Value → Bool
is_go_value (int_value n) = is_int n
is_go_value v = true

-- All fields with an int have one of 64 bits.
unfoldable pub have_go_values : List Field → Bool
have_go_values [] = true
have_go_values (f ∷ fs) = is_go_value f.value && have_go_values fs

-- What Go's documentation says of printing and parsing a value.
pub record IsFaithful (conv : Conversions) : Type 0 where
  pub sprint_string : (t : Text) → conv.sprint (string_value t) ≡ t
  pub atoi_sprint : (n : ℤ) → is_int n ≡ true → conv.atoi (conv.sprint (int_value n)) ≡ ok n
  pub parse_bool_sprint : (b : Bool) → conv.parse_bool (conv.sprint (bool_value b)) ≡ ok b
  pub sprint_int : (n : ℤ) → is_empty (conv.sprint (int_value n)) ≡ false
  pub sprint_bool : (b : Bool) → is_empty (conv.sprint (bool_value b)) ≡ false

parse_field-sprint :
    (conv : Conversions) (name : Text) (v w : Value)
    → IsFaithful conv
    → is_go_value v ≡ true
    → same_kind v w ≡ true
    → parse_field conv (conv.sprint v) (record { name = name; value = w }) ≡ ok (or_default v w)
unfolding parse_field parse_param
parse_field-sprint conv name (string_value []) (string_value u) faithful g h =
    rw (faithful.sprint_string []) refl
parse_field-sprint conv name (string_value (c ∷ s)) (string_value u) faithful g h =
    rw (faithful.sprint_string (c ∷ s)) refl
parse_field-sprint conv name (int_value n) (int_value u) faithful g h =
    rw (faithful.sprint_int n, faithful.atoi_sprint n g) refl
parse_field-sprint conv name (bool_value b) (bool_value u) faithful g h =
    rw (faithful.sprint_bool b, faithful.parse_bool_sprint b) refl
parse_field-sprint conv name _ _ faithful g h = ground (arith, h)

parse_fields-Agrees :
    (conv : Conversions) (form : Text → Text) (fs gs : List Field)
    → IsFaithful conv
    → Agrees conv form fs
    → have_go_values fs ≡ true
    → same_type fs gs ≡ true
    → parse_fields conv form gs ≡ (defaulted fs gs, none)
unfolding parse_fields same_type defaulted have_go_values
parse_fields-Agrees conv form [] [] faithful no_field go h = refl
parse_fields-Agrees conv form (f ∷ fs) (g ∷ gs) faithful (one_more _ _ e a) go h =
    let (fits, fit) = both _ _ go in
    let (first, later) = both _ _ h in
    let (name, kind) = both _ _ first in
    let same = (text_eq_iff f.name g.name).0 name in
    let rest = parse_fields-Agrees conv form fs gs faithful a fit later in
    let own = parse_field-sprint conv g.name f.value g.value faithful fits kind in
    let param = subst (λ n. form (to_lower n) ≡ conv.sprint f.value) same e in
    rw (param, own, rest, same) refl
parse_fields-Agrees conv form [] (g ∷ gs) faithful a go h = ground (arith, h)
parse_fields-Agrees conv form (f ∷ fs) [] faithful a go h = ground (arith, h)

-- For two values of a struct type with fields that are strings, ints of 64 bits and bools, whose
-- names differ also in small letters and are of ASCII letters and digits only: what ParseParams makes of the second from a request with the query that FormatParams gives for
-- the first is the first, where a field that is an empty string has the value of the second. The
-- query is read as package net/url documents it.
pub parse_params-format_params :
    (conv : Conversions) (form : Text → Text → Text) (fs gs : List Field)
    → IsFaithful conv
    → ((ps : List (Text × Text)) (n : Text)
        → plain_names ps ≡ true
        → form (query conv ps) n ≡ value_of n ps)
    → unique fs ≡ true
    → plain_names (params conv fs) ≡ true
    → have_go_values fs ≡ true
    → same_type fs gs ≡ true
    → (q : Text) × (format_params conv (struct fs) ≡ some q)
      × (parse_params conv (form q) (pointer gs) ≡ (pointer (defaulted fs gs), none))
unfolding format_params parse_params wrap
parse_params-format_params conv form fs gs faithful law u p go s =
    let agrees =
      Agrees-ext conv _ (form (query conv (params conv fs))) fs
        (λ n. sym (law (params conv fs) n p)) (params-Agrees conv fs u) in
    (
      query conv (params conv fs),
      refl,
      rw (parse_fields-Agrees conv (form (query conv (params conv fs))) fs gs faithful agrees go s)
          refl,
    )
