-- ===== src/Proxy/Caching.antt =====
-- internal/proxy/client.go and internal/proxy/cache.go: what the cache changes of the answers of
-- Info, Mod and Zip, in any sequence of calls.
use pkgsite_metrics.Prelude.{
  ◌≡◌, refl, sym, ◌∙◌, Bool, true, false, List, [], ◌∷◌, Option, none, some, Text, map, text, arith,
  inl, inr, ap,
}
use pkgsite_metrics.Derrors.{Err, Result, ok, err, Result-cases, in_context, in_stack}
use pkgsite_metrics.Proxy.Kept.{
  VersionInfo, Zip, ModVer, Cache, lookup, get_info, put_info, get_mod, put_mod, get_zip, put_zip,
  mod_ver, zip_of,
}
use pkgsite_metrics.Proxy.{
  Http, Client, with_cache, empty_cache, Called, info, mod_file, zip, fetch_info, fetch_zip,
  read_body, put, use_cache, escaped_url, execute_request,
}
use pkgsite_metrics.Proxy.Coherence.{
  same_mod_ver_refl, IsCoherent, with_kept, put_info-IsCoherent, put_mod-IsCoherent,
  put_zip-IsCoherent,
}

put_answer :
    {V : Type 0} (c : Client) (f : V → Option Cache) (fetched : List Text × Result V)
    → (put c f fetched).2 ≡ fetched.1
put_answer c f (urls, ok x) = refl
put_answer c f (urls, err e) = refl

-- A value that is served from the cache or fetched is the fetched one, and the cache that is left
-- is coherent.
served :
    {V : Type 0} (http : Http) (c : Client) (k : Option Cache) (o : Option V) (f : V → Option Cache)
    (fetched : List Text × Result V)
    → ((x : V) → o ≡ some x → fetched.1 ≡ ok x)
    → IsCoherent http c k
    → ((x : V) → fetched.1 ≡ ok x → IsCoherent http c (f x))
    → (l : Option Cache) × ((use_cache (with_kept c k) o (put (with_kept c k) f fetched)).0
        ≡ with_kept c l)
      × IsCoherent http c l
      × ((use_cache (with_kept c k) o (put (with_kept c k) f fetched)).2
          ≡ (put (with_kept c none) (λ x. none) fetched).2)
served http c k (some x) f fetched held h new =
    (k, refl, h, cc (held x refl, put_answer (with_kept c none) (λ x. none) fetched))
served http c k none f (urls, ok x) held h new = (f x, refl, new x refl, refl)
served http c k none f (urls, err e) held h new = (k, refl, h, refl)

-- One call of the client.
pub data Call : Type 0 where
  info_call mod_call zip_call : Text → Text → Call

pub data Answer : Type 0 where
  info_answer : Result VersionInfo → Answer
  mod_answer : Result Text → Answer
  zip_answer : Result Zip → Answer

unfoldable pub succeeds : Answer → Bool
succeeds (info_answer (ok x)) = true
succeeds (mod_answer (ok x)) = true
succeeds (zip_answer (ok x)) = true
succeeds _ = false

unfoldable pub call : Http → Client → Call → Client × List Text × Answer
call http c (info_call p v) = let (d, urls, r) = info http c p v in (d, urls, info_answer r)
call http c (mod_call p v) = let (d, urls, r) = mod_file http c p v in (d, urls, mod_answer r)
call http c (zip_call p v) = let (d, urls, r) = zip http c p v in (d, urls, zip_answer r)

-- The answers to a sequence of calls of one client.
unfoldable pub calls : Http → Client → List Call → List Answer
unfolding call
calls http c [] = []
calls http c (k ∷ ks) = let (d, urls, a) = call http c k in a ∷ calls http d ks

Stays : Http → Client → Option Cache → Call → Type 0
unfolding call
Stays http c k a =
    (l : Option Cache) × ((call http (with_kept c k) a).0 ≡ with_kept c l)
    × IsCoherent http c l
    × ((call http (with_kept c k) a).2 ≡ (call http (with_kept c none) a).2)

call-Stays :
    (http : Http) (c : Client) (k : Option Cache) (a : Call)
    → IsCoherent http c k
    → Stays http c k a
unfolding Stays call info mod_file zip fetch_info fetch_zip read_body escaped_url execute_request
call-Stays http c k (info_call p v) h =
    let (l, e, n, same) =
      served http c k (get_info k p v) (put_info k p v) (fetch_info http c p v) (h.0 p v) h
        (λ x e. put_info-IsCoherent http c k p v x e h) in
    (l, e, n, ap (λ r. info_answer (in_context (text "proxy.Client.Info") r)) same)
call-Stays http c k (mod_call p v) h =
    let (l, e, n, same) =
      served http c k (get_mod k p v) (put_mod k p v) (read_body http c p v (text "mod")) (h.1 p v)
        h (λ x e. put_mod-IsCoherent http c k p v x e h) in
    (l, e, n, ap (λ r. mod_answer (in_stack (text "proxy.Client.Mod") r)) same)
call-Stays http c k (zip_call p v) h =
    let (l, e, n, same) =
      served http c k (get_zip k p v) (put_zip k p v) (fetch_zip http c p v) (h.2 p v) h
        (λ x e. put_zip-IsCoherent http c k p v x e h) in
    (l, e, n, ap (λ r. zip_answer (in_stack (text "proxy.Client.Zip") r)) same)

calls_coherent :
    (http : Http) (c : Client) (k : Option Cache) (ks : List Call)
    → IsCoherent http c k
    → calls http (with_kept c k) ks ≡ map (λ a. (call http (with_kept c none) a).2) ks
unfolding Stays calls
calls_coherent http c k [] h = refl
calls_coherent http c k (a ∷ ks) h =
    let (l, e, n, same) = call-Stays http c k a h in
    cc (same, ap (λ d. calls http d ks) e, calls_coherent http c l ks n)

-- Whatever the proxy answers, as long as it answers a request in the same way each time: a client
-- with a new cache gives, in any sequence of calls of Info, Mod and Zip, the answers that a client
-- without a cache gives to each call.
pub calls-with_cache :
    (http : Http) (c : Client) (ks : List Call)
    → calls http (with_cache c) ks ≡ map (λ a. (call http (with_kept c none) a).2) ks
unfolding lookup
calls-with_cache http c ks =
    calls_coherent http c (some empty_cache) ks (
      (λ p v x h. ground (arith, h)),
      (λ p v x h. ground (arith, h)),
      (λ p v x h. ground (arith, h)),
    )

-- A value that was served is kept.
kept_again :
    {V : Type 0} (c : Client) (k : Cache) (get : Option Cache → Option V) (f : V → Option Cache)
    (o : Option V) (fetched : List Text × Result V)
    → get (some k) ≡ o
    → ((x : V) → get (f x) ≡ some x)
    → (x : V) → (use_cache (with_kept c (some k)) o (put (with_kept c (some k)) f fetched)).2 ≡ ok x
    → get (use_cache (with_kept c (some k)) o (put (with_kept c (some k)) f fetched)).0.cache
      ≡ some x
kept_again c k get f (some y) fetched e kept x h = ground (arith, e, h)
kept_again c k get f none (urls, ok y) e kept x h = ground (arith, kept y, h)
kept_again c k get f none (urls, err y) e kept x h = ground (arith, h)

served_from :
    {V : Type 0} (d : Client) (o : Option V) (called : Called V) (w : Result V → Answer) (x : V)
    → o ≡ some x
    → ◌≡◌ {A = Client × List Text × Answer}
        ((use_cache d o called).0, (use_cache d o called).1, w (use_cache d o called).2)
        (d, [], w (ok x))
served_from d o called w x e = rw e refl

-- An answer with a value, given by `use_cache`, is given again, whatever would be called instead.
answered_again :
    {V : Type 0} (c : Client) (k : Cache) (get : Option Cache → Option V) (f : V → Option Cache)
    (fetched : List Text × Result V) (w : Result V → Answer) (called : Client → Called V)
    → ((x : V) → get (f x) ≡ some x)
    → ((e : Err) → succeeds (w (err e)) ≡ false)
    → (r : Called V)
    → r ≡ use_cache (with_kept c (some k)) (get (some k)) (put (with_kept c (some k)) f fetched)
    → succeeds (w r.2) ≡ true
    → ◌≡◌ {A = Client × List Text × Answer}
        (
          (use_cache r.0 (get r.0.cache) (called r.0)).0,
          (use_cache r.0 (get r.0.cache) (called r.0)).1,
          w (use_cache r.0 (get r.0.cache) (called r.0)).2,
        )
        (r.0, [], w r.2)
answered_again c k get f fetched w called kept fails r e s = elim (Result-cases r.2) [
  | inl (x, a) ↦
      let b = kept_again c k get f (get (some k)) fetched refl kept x (cc (e, a)) in
      served_from r.0 (get r.0.cache) (called r.0) w x (cc (b, e))
      ∙ ap (λ t. (r.0, [], w t)) (sym a)
  | inr (x, a) ↦ ground (arith, fails x, s, ap (λ t. succeeds (w t)) a)
]

lookup_first :
    {V : Type 0} (k : ModVer) (x : V) (m : List (ModVer × V)) → lookup k ((k, x) ∷ m) ≡ some x
unfolding lookup
lookup_first k x m = rw (same_mod_ver_refl k) refl

zip_of_same : (k : ModVer) (z : Zip) → zip_of k (some (k, z)) ≡ some z
zip_of_same k z = rw (same_mod_ver_refl k) refl

-- What Info fetched is kept: a client with a cache gives the answer of a call that succeeded again,
-- without a request, whatever the proxy would answer by then, and the same holds for Mod and for Zip.
pub call-again :
    (http later : Http) (c : Client) (k : Cache) (a : Call)
    → succeeds (call http (with_kept c (some k)) a).2 ≡ true
    → call later (call http (with_kept c (some k)) a).0 a
      ≡ ((call http (with_kept c (some k)) a).0, [], (call http (with_kept c (some k)) a).2)
unfolding call info mod_file zip succeeds
call-again http later c k (info_call p v) s =
    answered_again c k (λ m. get_info m p v) (put_info (some k) p v) _
      (λ r. info_answer (in_context (text "proxy.Client.Info") r))
      (λ d. put d (put_info d.cache p v) (fetch_info later d p v))
      (λ x. lookup_first (mod_ver p v) x k.info_cache) (λ e. refl) _ refl s
call-again http later c k (mod_call p v) s =
    answered_again c k (λ m. get_mod m p v) (put_mod (some k) p v) _
      (λ r. mod_answer (in_stack (text "proxy.Client.Mod") r))
      (λ d. put d (put_mod d.cache p v) (read_body later d p v (text "mod")))
      (λ x. lookup_first (mod_ver p v) x k.mod_cache) (λ e. refl) _ refl s
call-again http later c k (zip_call p v) s =
    answered_again c k (λ m. get_zip m p v) (put_zip (some k) p v) _
      (λ r. zip_answer (in_stack (text "proxy.Client.Zip") r))
      (λ d. put d (put_zip d.cache p v) (fetch_zip later d p v)) (λ x. zip_of_same (mod_ver p v) x)
      (λ e. refl) _ refl s
