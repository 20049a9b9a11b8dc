-- ===== src/Ejobs/Arguments.antt =====
-- cmd/ejobs/main.go and internal/worker/analysis.go: the arguments that `ejobs start` joins, and the
-- ones that the worker gives to the analysis binary.
use pkgsite_metrics.Prelude.{
  ℕ, ◌≡◌, refl, sym, ap, ◌∙◌, inl, inr, Bool, false, not, List, [], ◌∷◌, ◌++◌, filter_by, Text,
  is_empty, append_assoc, append-nil, arith, Bool-cases, neither,
}
use pkgsite_metrics.Worker.Analysis.Running.{is_space, field, fields_from, fields}
use pkgsite_metrics.Ejobs.{gave, done, give, fail}
use pkgsite_metrics.Ejobs.Start.{has_space, check_args, join_spaces}

-- The arguments that are not empty.
abbrev pub is_word : Text → Bool
is_word a = not (is_empty a)

fields_from-word : (word a : Text) → has_space a ≡ false → fields_from word a ≡ field (word ++ a) []
unfolding fields_from has_space
fields_from-word word [] h = ap (λ z. field z []) (sym (append-nil word))
fields_from-word word (c ∷ a) h =
    let (plain, rest) = neither (is_space c) _ h in
    rw plain (
      fields_from-word (word ++ (c ∷ [])) a rest
      ∙ ap (λ z. field z []) (append_assoc word (c ∷ []) a))

fields_from-append :
    (word a s : Text)
    → has_space a ≡ false
    → fields_from word (a ++ (b' ' ∷ s)) ≡ field (word ++ a) (fields_from [] s)
unfolding fields_from has_space is_space
fields_from-append word [] s h = ap (λ z. field z (fields_from [] s)) (sym (append-nil word))
fields_from-append word (c ∷ a) s h =
    let (plain, rest) = neither (is_space c) _ h in
    rw plain (
      fields_from-append (word ++ (c ∷ [])) a s rest
      ∙ ap (λ z. field z (fields_from [] s)) (append_assoc word (c ∷ []) a))

field_word :
    (a : Text) (args : List Text) → field a (filter_by is_word args) ≡ filter_by is_word (a ∷ args)
field_word [] args = refl
field_word (c ∷ a) args = refl

abbrev pub AreSpaceless : List Text → Type 0
AreSpaceless [] = Unit
AreSpaceless (a ∷ args) = (has_space a ≡ false) × AreSpaceless args

pub check_args-AreSpaceless :
    (args : List Text) (n : ℕ) → (check_args args n).outcome ≡ gave tt → AreSpaceless args
unfolding check_args done give fail
check_args-AreSpaceless [] n h = tt
check_args-AreSpaceless (a ∷ args) n h = elim (Bool-cases (has_space a)) [
  | inl spaced ↦ absurd (ground (arith, spaced, h))
  | inr whole ↦ (whole, check_args-AreSpaceless args n (rw whole at h))
]

pub fields-join_spaces :
    (args : List Text) → AreSpaceless args → fields (join_spaces args) ≡ filter_by is_word args
unfolding fields join_spaces fields_from
fields-join_spaces [] h = refl
fields-join_spaces (a ∷ []) h = fields_from-word [] a h.0 ∙ field_word a []
fields-join_spaces (a ∷ b ∷ args) h =
    fields_from-append [] a (join_spaces (b ∷ args)) h.0
    ∙ (ap (λ z. field a z) (fields-join_spaces (b ∷ args) h.1) ∙ field_word a (b ∷ args))

-- If `start` accepts its arguments, then the worker's splitting of what they are joined to gives
-- back exactly those that are not empty, in their order.
pub fields-check_args :
    (args : List Text) (n : ℕ)
    → (check_args args n).outcome ≡ gave tt
    → fields (join_spaces args) ≡ filter_by is_word args
fields-check_args args n h = fields-join_spaces args (check_args-AreSpaceless args n h)
