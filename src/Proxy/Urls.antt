-- ===== src/Proxy/Urls.antt =====
-- internal/proxy/client.go: EscapedURL. What the client relies on of golang.org/x/mod/module is
-- documented there: the escaped forms are unique, and those of paths have no '@'.
use pkgsite_metrics.Prelude.{
  ℕ, ◌⊎◌, ◌==◌, ◌≡◌, refl, sym, subst, ◌∙◌, ap, Bool, true, false, not, ◌&&◌, [], ◌∷◌, ◌++◌, Option,
  some, Text, text, text_eq, text_eq_iff, cut, cut-append, count_byte, arith, if◌then◌else◌,
  Bool-cases, inl, inr, append_assoc,
}
use mathlib.Core.List.{append_cancel_left, append_cancel_right}
use pkgsite_metrics.Derrors.{Err, Result, ok, err, ok-value, bind-ok, in_stack-ok}
use pkgsite_metrics.Proxy.{Http, Client, escaped_url, escaped, version_url, latest}

abbrev pub IsInjective : (Text → Result Text) → Type 0
IsInjective f = (a b : Text) (c : Text) → f a ≡ ok c → f b ≡ ok c → a ≡ b

escaped-ok : (t : Text) (r : Result Text) {s : Text} → escaped t r ≡ ok s → r ≡ ok s
escaped-ok t (ok a) h = h
escaped-ok t (err e) h = ground (arith, h)

last_from : ℕ → Text → ℕ
last_from d [] = d
last_from d (c ∷ s) = last_from c s

last_from_append :
    (d : ℕ) (w : Text) (x : ℕ) (s : Text) → last_from d (w ++ (x ∷ s)) ≡ last_from x s
unfolding last_from
last_from_append d [] x s = refl
last_from_append d (c ∷ w) x s = last_from_append c w x s

abbrev IsSuffix : Text → Type 0
IsSuffix s = (s ≡ text "info") ⊎ ((s ≡ text "mod") ⊎ (s ≡ text "zip"))

by_last : ℕ → Text
by_last n = if n == b'o' then text "info" else if n == b'd' then text "mod" else text "zip"

suffix-by_last : {s : Text} → IsSuffix s → s ≡ by_last (last_from b'.' s)
unfolding by_last last_from
suffix-by_last (inl a) = rw a refl
suffix-by_last (inr (inl a)) = rw a refl
suffix-by_last (inr (inr a)) = rw a refl

same_suffix : {s t : Text} → IsSuffix s → IsSuffix t → last_from b'.' s ≡ last_from b'.' t → s ≡ t
same_suffix a b h = suffix-by_last a ∙ ap by_last h ∙ sym (suffix-by_last b)

-- What stands behind the '@' of a URL.
abbrev Rest : Http → Text → Text → Text → Type 0
Rest http v s rest =
    ((v ≡ latest) × (s ≡ text "info") × (rest ≡ latest))
    ⊎ ((w : Text) × (http.escape_version v ≡ ok w) × (rest ≡ text "v/" ++ (w ++ (b'.' ∷ s))))

abbrev Form : Http → Client → Text → Text → Text → Text → Type 0
Form http c p v s u =
    (path rest : Text) × (http.escape_path p ≡ ok path)
    × (u ≡ c.url ++ (b'/' ∷ ((path ++ text "/") ++ (b'@' ∷ rest))))
    × IsSuffix s
    × Rest http v s rest

version_url-Rest :
    (http : Http) (c : Client) (v s path : Text) {u : Text}
    → version_url http c v s path ≡ ok u
    → (rest : Text) × (u ≡ c.url ++ (b'/' ∷ ((path ++ text "/") ++ (b'@' ∷ rest))))
      × Rest http v s rest
version_url-Rest http c v s path h = elim (Bool-cases (text_eq v latest)) [
  | inl l ↦ elim (Bool-cases (text_eq s (text "info"))) [
    | inl i ↦ (
      latest,
      sym (ok-value (rw (l, i) at h))
          ∙ ap (λ x. c.url ++ (b'/' ∷ x)) (sym (append_assoc path (text "/") (b'@' ∷ latest))),
      inl ((text_eq_iff v latest).0 l, (text_eq_iff s (text "info")).0 i, refl),
    )
    | inr n ↦ ground (arith, rw (l, n) at h)
  ]
  | inr n ↦
      let (ev, x, y) =
        bind-ok (escaped (text "version: ") (http.escape_version v))
          (λ ev. ok (c.url ++ (b'/' ∷ (path ++ (text "/@v/" ++ (ev ++ (b'.' ∷ s)))))))
          (rw n at h) in
      (
        text "v/" ++ (ev ++ (b'.' ∷ s)),
        sym (ok-value y) ∙ ap (λ x. c.url ++ (b'/' ∷ x)) (sym (append_assoc path (text "/") _)),
        inr (ev, escaped-ok (text "version: ") _ x, refl),
      )
]

abbrev no_suffix : Text → Bool
no_suffix s =
    not (text_eq s (text "info")) && not (text_eq s (text "mod")) && not (text_eq s (text "zip"))

no_suffix-IsSuffix : (s : Text) → no_suffix s ≡ false → IsSuffix s
no_suffix-IsSuffix s h = elim (Bool-cases (text_eq s (text "info"))) [
  | inl a ↦ inl ((text_eq_iff s (text "info")).0 a)
  | inr a ↦ elim (Bool-cases (text_eq s (text "mod"))) [
    | inl b ↦ inr (inl ((text_eq_iff s (text "mod")).0 b))
    | inr b ↦ elim (Bool-cases (text_eq s (text "zip"))) [
      | inl d ↦ inr (inr ((text_eq_iff s (text "zip")).0 d))
      | inr d ↦ ground (arith, rw (a, b, d) at h)
    ]
  ]
]

unless_failed :
    (b : Bool) (e : Err) (r : Result Text) {u : Text}
    → (if b then err e else r) ≡ ok u
    → (b ≡ false) × (r ≡ ok u)
unless_failed true e r h = ground (arith, h)
unless_failed false e r h = (refl, h)

escaped_url-Form :
    (http : Http) (c : Client) (p v s : Text) {u : Text}
    → escaped_url http c p v s ≡ ok u
    → Form http c p v s u
unfolding escaped_url
escaped_url-Form http c p v s h =
    let (i, g) = unless_failed (no_suffix s) _ _ (in_stack-ok (text "Client.escapedURL") _ h) in
    let (path, e, q) =
      bind-ok (escaped (text "path: ") (http.escape_path p)) (version_url http c v s) g in
    let (rest, a, b) = version_url-Rest http c v s path q in
    (path, rest, escaped-ok (text "path: ") _ e, a, no_suffix-IsSuffix s i, b)

count_byte-slash : (l : Text) → count_byte b'@' l ≡ 0 → count_byte b'@' (l ++ text "/") ≡ 0
unfolding count_byte
count_byte-slash [] h = refl
count_byte-slash (c ∷ l) h = ground (arith, count_byte-slash l)

-- The two sides of an '@' that is the first.
tail_eq : {x : ℕ} {l m : Text} → x ∷ l ≡ x ∷ m → l ≡ m
tail_eq h = cc

pair_first : {a b c d : Text} → ◌≡◌ {A = Option (Text × Text)} (some (a, b)) (some (c, d)) → a ≡ c
pair_first h = cc

pair_second : {a b c d : Text} → ◌≡◌ {A = Option (Text × Text)} (some (a, b)) (some (c, d)) → b ≡ d
pair_second h = cc

same_sides :
    (path path' rest rest' : Text)
    → count_byte b'@' path ≡ 0
    → count_byte b'@' path' ≡ 0
    → (path ++ text "/") ++ (b'@' ∷ rest) ≡ (path' ++ text "/") ++ (b'@' ∷ rest')
    → (path ≡ path') × (rest ≡ rest')
same_sides path path' rest rest' h h' e =
    let both =
      sym (cut-append b'@' (path ++ text "/") rest (count_byte-slash path h))
      ∙ ap (cut b'@') e
      ∙ cut-append b'@' (path' ++ text "/") rest' (count_byte-slash path' h') in
    (append_cancel_right path path' (text "/") (pair_first both), pair_second both)

same-Rest :
    (http : Http) (v w s t rest : Text)
    → IsInjective http.escape_version
    → IsSuffix s
    → IsSuffix t
    → Rest http v s rest
    → Rest http w t rest
    → (v ≡ w) × (s ≡ t)
same-Rest http v w s t rest iv i j (inl (a, b, c)) (inl (d, e, f)) = (a ∙ sym d, b ∙ sym e)
same-Rest http v w s t rest iv i j (inl (a, b, c)) (inr (x, e, f)) = ground (arith, sym c ∙ f)
same-Rest http v w s t rest iv i j (inr (x, b, c)) (inl (d, e, f)) = ground (arith, sym c ∙ f)
same-Rest http v w s t rest iv i j (inr (x, b, c)) (inr (y, e, f)) =
    let tails = append_cancel_left (text "v/") _ _ (sym c ∙ f) in
    let ends =
      sym (last_from_append 0 x b'.' s) ∙ ap (last_from 0) tails ∙ last_from_append 0 y b'.' t in
    let st = same_suffix i j ends in
    let xy =
      append_cancel_right x y (b'.' ∷ t)
        (subst (λ a. x ++ (b'.' ∷ a) ≡ y ++ (b'.' ∷ t)) st tails) in
    (iv v w y (b ∙ ap ok xy) e, st)

-- Two requests of one client never share a URL: an URL determines the path, the version and the
-- suffix, where escaping is unique and no escaped path has an '@'.
pub escaped_url_unique :
    (http : Http) (c : Client) (p q v w s t : Text) {u : Text}
    → IsInjective http.escape_path
    → IsInjective http.escape_version
    → ((a b : Text) → http.escape_path a ≡ ok b → count_byte b'@' b ≡ 0)
    → escaped_url http c p v s ≡ ok u
    → escaped_url http c q w t ≡ ok u
    → (p ≡ q) × (v ≡ w) × (s ≡ t)
escaped_url_unique http c p q v w s t ip iv clean h k =
    let (path, rest, e, a, i, r) = escaped_url-Form http c p v s h in
    let (path', rest', e', a', i', r') = escaped_url-Form http c q w t k in
    let (ep, er) =
      same_sides path path' rest rest' (clean p path e) (clean q path' e')
        (tail_eq (append_cancel_left c.url _ _ (sym a ∙ a'))) in
    let (evw, est) = same-Rest http v w s t rest iv i i' r (subst (Rest http w t) (sym er) r') in
    (ip p q path e (e' ∙ ap ok (sym ep)), evw, est)
