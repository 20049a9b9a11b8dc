-- ===== src/Govulncheck/States/Tests.antt =====
-- internal/govulncheck/govulncheck.go: the work states of a store that is an association list.
use pkgsite_metrics.Prelude.{
  ◌≡◌, ◌≢◌, refl, sym, List, [], ◌∷◌, none, some, Text, text, text_eq, text_eq_iff, text_eq_refl,
  count_byte, if◌then◌else◌, Bool-cases, inl, inr, arith,
}
use pkgsite_metrics.Derrors.{Result, ok, err, plain, wrap}
use pkgsite_metrics.Fstore.{Firestore, set}
use pkgsite_metrics.Govulncheck.{WorkState}
use pkgsite_metrics.Govulncheck.States.{get_work_state, set_work_state}
use pkgsite_metrics.Govulncheck.States.Stored.{Laws, get_work_state-set_work_state}

abbrev Documents : Type 0
Documents = List (Text × WorkState)

abbrev lookup : Documents → Text → Result WorkState
lookup [] id = err (plain (text "not found"))
lookup ((i, ws) ∷ ds) id = let rest = lookup ds id in if text_eq i id then ok ws else rest

abbrev documents : Firestore WorkState WorkState Documents
documents = record {
  status_code = λ e. some 5;
  data_to = λ ws. ok ws;
  document = λ ws. ws;
  get = lookup;
  create = λ s id ws. ((id, ws) ∷ s, none);
  set = λ s id ws. ((id, ws) ∷ s, none);
  delete = λ s id. (s, none);
  increment = λ s id field n. (s, none);
  documents = λ s. [];
  new_client = λ p. ok [];
}

lookup_other :
    (ds : Documents) (id other : Text) (ws : WorkState)
    → other ≢ id
    → lookup ((id, ws) ∷ ds) other ≡ lookup ds other
lookup_other ds id other ws h = elim (Bool-cases (text_eq id other)) [
  | inl same ↦ absurd (h (sym ((text_eq_iff id other).0 same)))
  | inr differs ↦ rw differs refl
]

documents-Laws : Laws documents (λ t. t)
documents-Laws = record {
  get_set = λ s id d h. rw (text_eq_refl id) refl;
  get_other = lookup_other;
  data_document = λ ws. refl;
  escape_unique = λ a b e. e;
}

abbrev failed : WorkState
failed = record { work_version = none; error_category = text "LOAD" }

other_version : ¬ ((text "m" ≡ text "m") × (text "v2" ≡ text "v1"))
other_version h = absurd (ground (arith, h.1))

get_work_state-set_work_state_example :
    let after = (set_work_state documents (λ t. t) [] (text "m") (text "v1") failed).0 in
    (get_work_state documents (λ t. t) after (text "m") (text "v1") ≡ ok (some failed))
    × (get_work_state documents (λ t. t) after (text "m") (text "v2")
        ≡ get_work_state documents (λ t. t) [] (text "m") (text "v2"))
unfolding set_work_state set wrap count_byte
get_work_state-set_work_state_example =
    get_work_state-set_work_state documents (λ t. t) documents-Laws [] (text "m") (text "v1") failed
      refl refl (text "m") (text "v2") refl other_version
