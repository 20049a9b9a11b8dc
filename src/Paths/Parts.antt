-- ===== src/Paths/Parts.antt =====
-- package path/filepath: the parts of a path.
use pkgsite_metrics.Prelude.{
  ℕ, ◌≡◌, refl, ap, ◌∙◌, inl, inr, true, false, ◌||◌, List, [], ◌∷◌, ◌++◌, Text, text, text_eq,
  is_empty, ◌==◌, arith, Bool-cases, neither, append-nil, append_assoc,
}
use pkgsite_metrics.Paths.{
  push, split, join_parts, is_rooted, enter, resolve, has_slash, but_last, clean_parts,
  through_last_slash,
}

-- A name of a directory entry: not empty, not `.` or `..`, and without a slash.
pub record IsName (p : Text) : Type 0 where
  pub solid : is_empty p ≡ false
  pub not_dot : text_eq p (text ".") ≡ false
  pub not_dots : text_eq p (text "..") ≡ false
  pub unsplit : has_slash p ≡ false

abbrev pub AreNames : List Text → Type 0
AreNames [] = Unit
AreNames (p ∷ ps) = IsName p × AreNames ps

abbrev pub AreUnsplit : List Text → Type 0
AreUnsplit [] = Unit
AreUnsplit (p ∷ ps) = (has_slash p ≡ false) × AreUnsplit ps

pub AreNames-append : (ps qs : List Text) → AreNames ps → AreNames qs → AreNames (ps ++ qs)
AreNames-append [] qs hp hq = hq
AreNames-append (p ∷ ps) qs hp hq = (hp.0, AreNames-append ps qs hp.1 hq)

pub AreNames-rest : (ps qs : List Text) → AreNames (ps ++ qs) → AreNames qs
AreNames-rest [] qs h = h
AreNames-rest (p ∷ ps) qs h = AreNames-rest ps qs h.1

pub but_last-AreNames : (ps : List Text) → AreNames ps → AreNames (but_last ps)
unfolding but_last
but_last-AreNames [] h = tt
but_last-AreNames (p ∷ []) h = tt
but_last-AreNames (p ∷ q ∷ ps) h = (h.0, but_last-AreNames (q ∷ ps) h.1)

push-AreUnsplit :
    (c : ℕ) (ps : List Text) → (c == b'/') ≡ false → AreUnsplit ps → AreUnsplit (push c ps)
unfolding has_slash
push-AreUnsplit c [] e h = (ground arith, tt)
push-AreUnsplit c (p ∷ ps) e h = (ground (arith, e, h.0), h.1)

pub split-AreUnsplit : (s : Text) → AreUnsplit (split s)
unfolding split has_slash
split-AreUnsplit [] = (refl, tt)
split-AreUnsplit (c ∷ s) = elim (Bool-cases (c == b'/')) [
  | inl e ↦ rw e (refl, split-AreUnsplit s)
  | inr e ↦ rw e (push-AreUnsplit c (split s) e (split-AreUnsplit s))
]

enter-AreNames :
    (st : List Text) (p : Text) → has_slash p ≡ false → AreNames st → AreNames (enter true st p)
unfolding enter
enter-AreNames st p u h = elim (Bool-cases (is_empty p || text_eq p (text "."))) [
  | inl skip ↦ rw skip h
  | inr kept ↦ rw kept (elim (Bool-cases (text_eq p (text ".."))) [
    | inl dots ↦ rw dots (but_last-AreNames st h)
    | inr named ↦
        let (e, d) = neither _ _ kept in
        rw named (
          AreNames-append st (p ∷ []) h
            (record { solid = e; not_dot = d; not_dots = named; unsplit = u }, tt))
  ])
]

pub resolve-AreNames :
    (st ps : List Text) → AreUnsplit ps → AreNames st → AreNames (resolve true st ps)
unfolding resolve
resolve-AreNames st [] u h = h
resolve-AreNames st (p ∷ ps) u h =
    resolve-AreNames (enter true st p) ps u.1 (enter-AreNames st p u.0 h)

-- The parts of a cleaned path from the root are names.
pub clean_parts-AreNames : (s : Text) → is_rooted s ≡ true → AreNames (clean_parts s)
unfolding clean_parts
clean_parts-AreNames s r = rw r (resolve-AreNames [] (split s) (split-AreUnsplit s) tt)

enter_name : (st : List Text) (p : Text) → IsName p → enter true st p ≡ st ++ (p ∷ [])
unfolding enter
enter_name st p n = rw (n.solid, n.not_dot, n.not_dots) refl

-- Names are entered as they stand.
pub resolve_names :
    (st ps qs : List Text) → AreNames ps → resolve true st (ps ++ qs) ≡ resolve true (st ++ ps) qs
unfolding resolve
resolve_names st [] qs h = rw (append-nil st) refl
resolve_names st (p ∷ ps) qs h =
    ap (λ z. resolve true z (ps ++ qs)) (enter_name st p h.0)
    ∙ (resolve_names (st ++ (p ∷ [])) ps qs h.1
        ∙ ap (λ z. resolve true z qs) (append_assoc st (p ∷ []) ps))

-- The parts of a joined path are the parts that were joined.
split_solid : (p : Text) → has_slash p ≡ false → split p ≡ p ∷ []
unfolding split has_slash
split_solid [] h = refl
split_solid (c ∷ p) h = let (e, rest) = neither (c == b'/') _ h in rw (e, split_solid p rest) refl

split_first : (p s : Text) → has_slash p ≡ false → split (p ++ (b'/' ∷ s)) ≡ p ∷ split s
unfolding split has_slash
split_first [] s h = refl
split_first (c ∷ p) s h =
    let (e, rest) = neither (c == b'/') _ h in rw (e, split_first p s rest) refl

pub split-join_parts :
    (p : Text) (ps : List Text) → AreNames (p ∷ ps) → split (join_parts (p ∷ ps)) ≡ p ∷ ps
unfolding join_parts
split-join_parts p [] h = split_solid p (h.0).unsplit
split-join_parts p (q ∷ ps) h =
    split_first p (join_parts (q ∷ ps)) (h.0).unsplit ∙ ap (λ z. p ∷ z) (split-join_parts q ps h.1)

pub split-cons : (s : Text) → (p : Text) × (ps : List Text) × (split s ≡ p ∷ ps)
unfolding split
split-cons [] = ([], [], refl)
split-cons (c ∷ s) =
    let (p, ps, e) = split-cons s in
    elim (Bool-cases (c == b'/')) [
      | inl slash ↦ ([], split s, rw slash refl)
      | inr other ↦ (c ∷ p, ps, rw (other, e) refl)
    ]

pub split_slash : (s t : Text) → split (s ++ (b'/' ∷ t)) ≡ split s ++ split t
unfolding split
split_slash [] t = refl
split_slash (c ∷ s) t =
    let (p, ps, e) = split-cons s in
    elim (Bool-cases (c == b'/')) [
      | inl slash ↦ rw (slash, split_slash s t) refl
      | inr other ↦ rw (other, split_slash s t, e) refl
    ]

but_last-push :
    (c : ℕ) (p q : Text) (ps : List Text)
    → but_last (push c (p ∷ q ∷ ps)) ≡ push c (but_last (p ∷ q ∷ ps))
unfolding but_last
but_last-push c p q ps = refl

split-has_slash :
    (s : Text) → has_slash s ≡ true → (p q : Text) × (ps : List Text) × (split s ≡ p ∷ q ∷ ps)
unfolding split has_slash
split-has_slash [] h = cc
split-has_slash (c ∷ s) h = elim (Bool-cases (c == b'/')) [
  | inl slash ↦ let (p, ps, e) = split-cons s in ([], p, ps, rw (slash, e) refl)
  | inr other ↦
      let (p, q, ps, e) = split-has_slash s (rw other at h) in (c ∷ p, q, ps, rw (other, e) refl)
]

-- Up to its last slash, a path has all of its parts but the last one.
pub split-through_last_slash :
    (s : Text) → split (through_last_slash s) ≡ but_last (split s) ++ ([] ∷ [])
unfolding split through_last_slash but_last has_slash
split-through_last_slash [] = refl
split-through_last_slash (c ∷ s) = elim (Bool-cases (c == b'/')) [
  | inl slash ↦
      let (p, ps, e) = split-cons s in rw (slash, slash, split-through_last_slash s, e) refl
  | inr other ↦ elim (Bool-cases (has_slash s)) [
    | inr whole ↦ rw (other, whole, split_solid s whole) refl
    | inl slashed ↦
        let (p, q, ps, e) = split-has_slash s slashed in
        rw (other, slashed, other, split-through_last_slash s, e) refl
  ]
]
