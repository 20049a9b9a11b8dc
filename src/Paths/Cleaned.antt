-- ===== src/Paths/Cleaned.antt =====
-- package path/filepath: cleaned paths from the root, what stands below them, and their parents.
use pkgsite_metrics.Prelude.{
  ◌≡◌, refl, sym, ap, ◌∙◌, true, List, [], ◌∷◌, ◌++◌, Text, arith, subst, append_assoc, has_prefix,
  has_prefix_rest,
}
use pkgsite_metrics.Paths.{
  split, join_parts, is_rooted, resolve, enter, clean, clean_parts, rooted_path, but_last, dir,
  through_last_slash, has_slash,
}
use pkgsite_metrics.Paths.Parts.{
  AreNames, AreNames-append, AreNames-rest, but_last-AreNames, clean_parts-AreNames, resolve_names,
  split-join_parts, split_slash, split-cons, split-through_last_slash,
}

-- A path at `parent` or below it: it has the parts of the parent, and then names only.
pub record IsWithin (parent path : Text) : Type 0 where
  pub below : List Text
  pub names : AreNames below
  pub placed : path ≡ rooted_path (clean_parts parent ++ below)

pub clean_rooted : (s : Text) → is_rooted s ≡ true → clean s ≡ rooted_path (clean_parts s)
unfolding clean
clean_rooted s r = rw r refl

split-rooted_path :
    (p : Text) (ps : List Text) → AreNames (p ∷ ps) → split (rooted_path (p ∷ ps)) ≡ [] ∷ p ∷ ps
unfolding split
split-rooted_path p ps h = ap (λ z. [] ∷ z) (split-join_parts p ps h)

abbrev others : List Text → List Text
others [] = []
others (p ∷ ps) = ps

split_below :
    (d : Text) (ds : List Text) (t : Text)
    → AreNames (d ∷ ds)
    → split ((rooted_path (d ∷ ds) ++ (b'/' ∷ [])) ++ t) ≡ [] ∷ d ∷ (ds ++ split t)
split_below d ds t h =
    ap split (append_assoc (rooted_path (d ∷ ds)) (b'/' ∷ []) t)
    ∙ (split_slash (rooted_path (d ∷ ds)) t ∙ ap (λ z. z ++ split t) (split-rooted_path d ds h))

same_parts :
    (d : Text) (ds qs : List Text) (t : Text)
    → AreNames (d ∷ ds)
    → AreNames qs
    → split (rooted_path qs) ≡ [] ∷ d ∷ (ds ++ split t)
    → qs ≡ d ∷ (ds ++ split t)
unfolding split join_parts
same_parts d ds [] t hd hq e = absurd (ground (arith, e, (hd.0).solid))
same_parts d ds (q ∷ qs) t hd hq e = ap others (sym (split-rooted_path q qs hq) ∙ e)

-- A path of names that begins with the cleaned parent and a slash has the parts of the parent.
pub prefix-rest :
    (ds qs : List Text)
    → AreNames ds
    → AreNames qs
    → has_prefix (rooted_path qs) (rooted_path ds ++ (b'/' ∷ [])) ≡ true
    → (p : Text) × (ps : List Text) × (qs ≡ ds ++ (p ∷ ps))
unfolding join_parts
prefix-rest [] [] hd hq h =
    let (t, e) = has_prefix_rest (rooted_path []) (rooted_path [] ++ (b'/' ∷ [])) h in
    ground (arith, e)
prefix-rest [] (q ∷ qs) hd hq h = (q, qs, refl)
prefix-rest (d ∷ ds) qs hd hq h =
    let (t, e) = has_prefix_rest (rooted_path qs) (rooted_path (d ∷ ds) ++ (b'/' ∷ [])) h in
    let (p, ps, et) = split-cons t in
    (
      p,
      ps,
      same_parts d ds qs t hd hq (ap split e ∙ split_below d ds t hd) ∙ ap (λ z. (d ∷ ds) ++ z) et,
    )

but_last-append :
    (ds : List Text) (p : Text) (ps : List Text)
    → but_last (ds ++ (p ∷ ps)) ≡ ds ++ but_last (p ∷ ps)
unfolding but_last
but_last-append [] p ps = refl
but_last-append (d ∷ []) p ps = refl
but_last-append (d ∷ c ∷ ds) p ps = ap (λ z. d ∷ z) (but_last-append (c ∷ ds) p ps)

resolve-but_last :
    (p : Text) (ps : List Text)
    → AreNames (p ∷ ps)
    → resolve true [] (([] ∷ but_last (p ∷ ps)) ++ ([] ∷ [])) ≡ but_last (p ∷ ps)
unfolding resolve enter
resolve-but_last p ps h =
    resolve_names [] (but_last (p ∷ ps)) ([] ∷ []) (but_last-AreNames (p ∷ ps) h)

split-parent :
    (p : Text) (ps : List Text)
    → AreNames (p ∷ ps)
    → split (through_last_slash (rooted_path (p ∷ ps))) ≡ ([] ∷ but_last (p ∷ ps)) ++ ([] ∷ [])
unfolding but_last
split-parent p ps h =
    split-through_last_slash (rooted_path (p ∷ ps))
    ∙ ap (λ z. but_last z ++ ([] ∷ [])) (split-rooted_path p ps h)

-- The parent of a path of names.
pub dir-rooted_path :
    (p : Text) (ps : List Text)
    → AreNames (p ∷ ps)
    → dir (rooted_path (p ∷ ps)) ≡ rooted_path (but_last (p ∷ ps))
unfolding dir clean clean_parts is_rooted through_last_slash has_slash
dir-rooted_path p ps h =
    ap (λ z. rooted_path (resolve true [] z)) (split-parent p ps h)
    ∙ ap rooted_path (resolve-but_last p ps h)

dir_below :
    (ds : List Text) (p : Text) (ps : List Text)
    → AreNames ds
    → AreNames (p ∷ ps)
    → dir (rooted_path (ds ++ (p ∷ ps))) ≡ rooted_path (ds ++ but_last (p ∷ ps))
dir_below [] p ps hd hp = dir-rooted_path p ps hp
dir_below (d ∷ ds) p ps hd hp =
    dir-rooted_path d (ds ++ (p ∷ ps)) (AreNames-append (d ∷ ds) (p ∷ ps) hd hp)
    ∙ ap rooted_path (but_last-append (d ∷ ds) p ps)

-- A cleaned path from the root that begins with the cleaned parent and a slash is below the
-- parent, and its own parent is within.
pub clean-IsWithin :
    (parent s : Text)
    → is_rooted parent ≡ true
    → is_rooted s ≡ true
    → has_prefix (clean s) (clean parent ++ (b'/' ∷ [])) ≡ true
    → IsWithin parent (clean s) × IsWithin parent (dir (clean s))
clean-IsWithin parent s rp rs h =
    let names = clean_parts-AreNames parent rp in
    let kept = clean_parts-AreNames s rs in
    let (p, ps, e) =
      prefix-rest (clean_parts parent) (clean_parts s) names kept
        (rw (clean_rooted s rs, clean_rooted parent rp) at h) in
    let below = AreNames-rest (clean_parts parent) (p ∷ ps) (subst AreNames e kept) in
    let placed = clean_rooted s rs ∙ ap rooted_path e in
    (
      record { below = p ∷ ps; names = below; placed = placed },
      record {
        below = but_last (p ∷ ps);
        names = but_last-AreNames (p ∷ ps) below;
        placed = ap dir placed ∙ dir_below (clean_parts parent) p ps names below;
      },
    )
