-- ===== src/Proxy/Coherence.antt =====
-- internal/proxy/cache.go: caches that hold what the client fetches.
use pkgsite_metrics.Prelude.{
  both, ◌≡◌, refl, Bool, true, false, List, ◌∷◌, Option, none, some, Text, text_eq, text_eq_iff,
  text_eq_refl, text, arith, if◌then◌else◌, Bool-cases, inl, inr, ap,
}
use pkgsite_metrics.Derrors.{Result, ok}
use pkgsite_metrics.Proxy.Kept.{
  VersionInfo, Zip, ModVer, Cache, same_mod_ver, lookup, get_info, put_info, get_mod, put_mod,
  get_zip, put_zip, mod_ver, zip_of,
}
use pkgsite_metrics.Proxy.{Http, Client, fetch_info, fetch_zip, read_body}

pub same_mod_ver_iff :
    (p v q w : Text) → same_mod_ver (mod_ver p v) (mod_ver q w) ≡ true → (p ≡ q) × (v ≡ w)
unfolding same_mod_ver
same_mod_ver_iff p v q w h =
    let (a, b) = both (text_eq p q) (text_eq v w) h in
    ((text_eq_iff p q).0 a, (text_eq_iff v w).0 b)

pub same_mod_ver_refl : (k : ModVer) → same_mod_ver k k ≡ true
unfolding same_mod_ver
same_mod_ver_refl k = rw (text_eq_refl k.path, text_eq_refl k.version) refl

-- What a map holds for a module at a version is what fetching it gives.
abbrev pub Holds : {V : Type 0} → (Text → Text → Result V) → (Text → Text → Option V) → Type 0
Holds {V} fetch get = (p v : Text) (x : V) → get p v ≡ some x → fetch p v ≡ ok x

pub found :
    {V : Type 0} {b : Bool} (o : Option V) {x y : V}
    → b ≡ true
    → (if b then some y else o) ≡ some x
    → y ≡ x
found {b = true} o e h = cc
found {b = false} o e h = ground arith

pub lookup-Holds :
    {V : Type 0} (fetch : Text → Text → Result V) (m : List (ModVer × V)) (q w : Text) (y : V)
    → fetch q w ≡ ok y
    → Holds fetch (λ p v. lookup (mod_ver p v) m)
    → Holds fetch (λ p v. lookup (mod_ver p v) ((mod_ver q w, y) ∷ m))
unfolding lookup
lookup-Holds fetch m q w y e old p v x h =
    elim (Bool-cases (same_mod_ver (mod_ver q w) (mod_ver p v))) [
      | inl same ↦
          let (ep, ev) = same_mod_ver_iff q w p v same in
          ground (arith, found _ same h, ap (λ a. fetch a v) ep, ap (fetch q) ev, e)
      | inr other ↦ old p v x (rw other at h)
    ]

-- A cache is coherent with a client when it holds what the client fetches.
abbrev pub IsCoherent : Http → Client → Option Cache → Type 0
IsCoherent http c k =
    Holds (λ p v. (fetch_info http c p v).1) (get_info k)
    × Holds (λ p v. (read_body http c p v (text "mod")).1) (get_mod k)
    × Holds (λ p v. (fetch_zip http c p v).1) (get_zip k)

abbrev pub with_kept : Client → Option Cache → Client
with_kept c k = record c { cache = k }

pub put_info-IsCoherent :
    (http : Http) (c : Client) (k : Option Cache) (p v : Text) (x : VersionInfo)
    → (fetch_info http c p v).1 ≡ ok x
    → IsCoherent http c k
    → IsCoherent http c (put_info k p v x)
put_info-IsCoherent http c none p v x e h = h
put_info-IsCoherent http c (some k) p v x e (i, m, z) =
    (lookup-Holds _ k.info_cache p v x e i, m, z)

pub put_mod-IsCoherent :
    (http : Http) (c : Client) (k : Option Cache) (p v x : Text)
    → (read_body http c p v (text "mod")).1 ≡ ok x
    → IsCoherent http c k
    → IsCoherent http c (put_mod k p v x)
put_mod-IsCoherent http c none p v x e h = h
put_mod-IsCoherent http c (some k) p v x e (i, m, z) = (i, lookup-Holds _ k.mod_cache p v x e m, z)

pub zip_of-Holds :
    (fetch : Text → Text → Result Zip) (q w : Text) (y : Zip)
    → fetch q w ≡ ok y
    → Holds fetch (λ p v. zip_of (mod_ver p v) (some (mod_ver q w, y)))
zip_of-Holds fetch q w y e p v x h = elim (Bool-cases (same_mod_ver (mod_ver q w) (mod_ver p v))) [
  | inl same ↦
      let (ep, ev) = same_mod_ver_iff q w p v same in
      ground (arith, found none same h, ap (λ a. fetch a v) ep, ap (fetch q) ev, e)
  | inr other ↦ ground (arith, rw other at h)
]

pub put_zip-IsCoherent :
    (http : Http) (c : Client) (k : Option Cache) (p v : Text) (x : Zip)
    → (fetch_zip http c p v).1 ≡ ok x
    → IsCoherent http c k
    → IsCoherent http c (put_zip k p v x)
put_zip-IsCoherent http c none p v x e h = h
put_zip-IsCoherent http c (some k) p v x e (i, m, z) = (i, m, zip_of-Holds _ p v x e)
