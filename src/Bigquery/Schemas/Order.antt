-- ===== src/Bigquery/Schemas/Order.antt =====
-- internal/bigquery/bigquery.go: SchemaString does not depend on the order of the fields.
use pkgsite_metrics.Prelude.{
  ◌≡◌, refl, sym, ◌∙◌, ap, Bool, true, false, not, List, [], ◌∷◌, Text, text_eq, text_lt, arith,
  Bool-cases, inl, inr,
}
use pkgsite_metrics.Bigquery.Schemas.{
  Schema, with_field, FieldSchema, field_schema, Rendered, insert, sort_stable, join_rendered,
  render_field, rendered, rendered_field, schema_string,
}

abbrev pub name_of : FieldSchema → Text
name_of (field_schema name repeated required type s) = name

-- Two schemas that differ in the order of fields of different names, at any depth.
pub data Reordered : Schema → Schema → Type 0 where
  same : (s : Schema) → Reordered s s
  behind :
      (f : FieldSchema) {s t : Schema} → Reordered s t → Reordered (with_field f s) (with_field f t)
  swapped :
      (f g : FieldSchema) (s : Schema)
      → text_eq (name_of f) (name_of g) ≡ false
      → Reordered (with_field f (with_field g s)) (with_field g (with_field f s))
  inside :
      (name : Text) (repeated required : Bool) (type : Text) {s t : Schema} (r : Schema)
      → Reordered s t
      → Reordered
          (with_field (field_schema name repeated required type s) r)
          (with_field (field_schema name repeated required type t) r)
  after : {s t u : Schema} → Reordered s t → Reordered t u → Reordered s u

-- Of two different texts, one is the lesser.
text_lt_other : (a b : Text) → text_eq a b ≡ false → text_lt a b ≡ not (text_lt b a)
unfolding text_lt text_eq
text_lt_other [] [] h = ground (arith, h)
text_lt_other [] (d ∷ b) h = refl
text_lt_other (c ∷ a) [] h = refl
text_lt_other (c ∷ a) (d ∷ b) h = ground (arith, text_lt_other a b, h)

-- What is above a text is above what is not above it.
text_lt_above : (y a b : Text) → text_lt y b ≡ false → text_lt y a ≡ true → text_lt b a ≡ true
unfolding text_lt
text_lt_above y [] b h k = ground (arith, k)
text_lt_above y (c ∷ a) [] h k = refl
text_lt_above [] (c ∷ a) (d ∷ b) h k = ground (arith, h)
text_lt_above (e ∷ y) (c ∷ a) (d ∷ b) h k = ground (arith, text_lt_above y a b, h, k)

insert_below :
    (x y : Rendered) (l : List Rendered)
    → text_lt y.0 x.0 ≡ true
    → insert x (y ∷ l) ≡ y ∷ insert x l
unfolding insert
insert_below x y l h = rw h refl

insert_above :
    (x y : Rendered) (l : List Rendered) → text_lt y.0 x.0 ≡ false → insert x (y ∷ l) ≡ x ∷ (y ∷ l)
unfolding insert
insert_above x y l h = rw h refl

-- Inserting two, of which one belongs before the head of the list and one behind it.
swap_around :
    (a b y : Rendered) (l : List Rendered)
    → text_lt y.0 a.0 ≡ true
    → text_lt y.0 b.0 ≡ false
    → insert a (insert b (y ∷ l)) ≡ insert b (insert a (y ∷ l))
swap_around a b y l ya nb =
    ap (insert a) (insert_above b y l nb)
    ∙ insert_below a b (y ∷ l) (text_lt_above y.0 a.0 b.0 nb ya)
    ∙ ap (◌∷◌ b) (insert_below a y l ya)
    ∙ sym (insert_above b y (insert a l) nb)
    ∙ sym (ap (insert b) (insert_below a y l ya))

-- Inserting two that both belong before the head of the list.
swap_before :
    (a b y : Rendered) (l : List Rendered)
    → text_lt b.0 a.0 ≡ true
    → text_lt a.0 b.0 ≡ false
    → text_lt y.0 a.0 ≡ false
    → text_lt y.0 b.0 ≡ false
    → insert a (insert b (y ∷ l)) ≡ insert b (insert a (y ∷ l))
swap_before a b y l ba ab na nb =
    ap (insert a) (insert_above b y l nb)
    ∙ insert_below a b (y ∷ l) ba
    ∙ ap (◌∷◌ b) (insert_above a y l na)
    ∙ sym (insert_above b a (y ∷ l) ab)
    ∙ sym (ap (insert b) (insert_above a y l na))

insert_swap_by :
    (a b : Rendered) (l : List Rendered)
    → text_lt a.0 b.0 ≡ not (text_lt b.0 a.0)
    → insert a (insert b l) ≡ insert b (insert a l)
unfolding insert
insert_swap_by a b [] h = ground (arith, h)
insert_swap_by a b (y ∷ l) h = elim (Bool-cases (text_lt y.0 a.0)) [
  | inl ya ↦ elim (Bool-cases (text_lt y.0 b.0)) [
    | inl yb ↦
        ap (insert a) (insert_below b y l yb)
        ∙ insert_below a y (insert b l) ya
        ∙ ap (◌∷◌ y) (insert_swap_by a b l h)
        ∙ sym (insert_below b y (insert a l) yb)
        ∙ sym (ap (insert b) (insert_below a y l ya))
    | inr nb ↦ swap_around a b y l ya nb
  ]
  | inr na ↦ elim (Bool-cases (text_lt y.0 b.0)) [
    | inl yb ↦ sym (swap_around b a y l yb na)
    | inr nb ↦ elim (Bool-cases (text_lt b.0 a.0)) [
      | inl ba ↦ swap_before a b y l ba (rw ba at h) na nb
      | inr ab ↦ sym (swap_before b a y l (rw ab at h) ab nb na)
    ]
  ]
]

insert_swap :
    (a b : Rendered) (l : List Rendered)
    → text_eq a.0 b.0 ≡ false
    → insert a (insert b l) ≡ insert b (insert a l)
insert_swap a b l h = insert_swap_by a b l (text_lt_other a.0 b.0 h)

rendered_field_name : (f : FieldSchema) → (rendered_field f).0 ≡ name_of f
unfolding rendered rendered_field
rendered_field_name (field_schema name repeated required type s) = refl

sorted_same : {s t : Schema} → Reordered s t → sort_stable (rendered s) ≡ sort_stable (rendered t)
unfolding rendered rendered_field sort_stable
sorted_same (same s) = refl
sorted_same (behind f r) = ap (insert (rendered_field f)) (sorted_same r)
sorted_same (swapped f g s h) =
    insert_swap (rendered_field f) (rendered_field g) _
      (rw (rendered_field_name f, rendered_field_name g) h)
sorted_same (inside name repeated required type r h) =
    ap
      (λ l.
        insert (render_field name repeated required type (join_rendered l))
          (sort_stable (rendered r)))
      (sorted_same h)
sorted_same (after r q) = sorted_same r ∙ sorted_same q

-- The string of a schema does not depend on the order of its fields, at any depth, as long as fields
-- of one schema that change places have different names.
pub schema_string-Reordered : {s t : Schema} → Reordered s t → schema_string s ≡ schema_string t
unfolding schema_string
schema_string-Reordered r = ap join_rendered (sorted_same r)
