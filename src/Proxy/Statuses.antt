-- ===== src/Proxy/Statuses.antt =====
-- internal/proxy/client.go: the kind of the error of a request, by the answer of the proxy.
use pkgsite_metrics.Prelude.{
  ◌≡◌, ◌∙◌, refl, Bool, false, ◌&&◌, ◌||◌, Option, none, some, Text, text, leb, ltb, ◌==◌,
  if◌then◌else◌, Bool-cases, inl, inr,
}
use pkgsite_metrics.Derrors.{
  Err, Kind, Result, ok, err, is, same_kind, plain, sentinel, in_stack, reclassify, proxy_error,
  proxy_timed_out, new_stack_error, as_stack_error,
}
use pkgsite_metrics.Proxy.{
  Http, Client, Response, execute_request, response_error, missing, missing_kind,
}

-- The kind that a request should fail with; `none` for an error of no kind.
unfoldable pub expected_kind : Response → Bool → Option Kind
expected_kind r fetch_disabled =
    if leb 500 r.status_code
    then some proxy_error
    else if r.status_code == 404 || r.status_code == 410
    then elim r.body [ ok d ↦ some (missing_kind d fetch_disabled) | err e ↦ none ]
    else none

unfoldable pub is_of : Option Kind → Kind → Bool
is_of none k = false
is_of (some j) k = same_kind j k

abbrev pub is_success : Response → Bool
is_success r = leb 200 r.status_code && ltb r.status_code 300

missing_is :
    (b : Result Text) (d : Bool)
    → (e : Err) × (missing b d ≡ some e)
      × ((k : Kind) → is e k ≡ is_of (elim b [ ok t ↦ some (missing_kind t d) | err _ ↦ none ]) k)
unfolding is is_of
missing_is (ok t) d = (_, refl, λ k. refl)
missing_is (err e) d = (_, refl, λ k. refl)

response_error_is :
    (r : Response) (d : Bool)
    → is_success r ≡ false
    → (e : Err) × (response_error r d ≡ some e)
      × ((k : Kind) → is e k ≡ is_of (expected_kind r d) k)
unfolding response_error expected_kind is is_of
response_error_is r d n = elim (Bool-cases (leb 500 r.status_code)) [
  | inl a ↦ (sentinel proxy_error, rw (n, a) refl, λ k. rw a refl)
  | inr a ↦ elim (Bool-cases (r.status_code == 404 || r.status_code == 410)) [
    | inl b ↦ let (e, q, f) = missing_is r.body d in (e, rw (n, a, b) q, λ k. rw (a, b) (f k))
    | inr b ↦ (plain (text "unexpected status"), rw (n, a, b) refl, λ k. rw (a, b) refl)
  ]
]

in_stack-err :
    {A : Type 0} (t : Text) (e : Err)
    → (f : Err) × (in_stack {A = A} t (err e) ≡ err f) × ((k : Kind) → is f k ≡ is e k)
unfolding is new_stack_error
in_stack-err t e = elim (Bool-cases (as_stack_error e)) [
  | inl a ↦ (_, refl, λ k. rw a refl)
  | inr a ↦ (_, refl, λ k. rw a refl)
]

-- A request that the proxy answers with a status outside of 200 to 299 fails: with ProxyTimedOut
-- when its context has expired, else with ProxyError for a status of 500 or more, for 404 and 410
-- with ProxyTimedOut when the body says so, else with NotFetched or NotFound by whether the client
-- disables the fetch, and with an error of none of the kinds for any other status.
pub execute_request-is :
    {A : Type 0} (http : Http) (c : Client) (u : Text) (f : Result Text → Result A) (r : Response)
    → http.new_request u ≡ none
    → http.get u c.disable_fetch ≡ ok r
    → is_success r ≡ false
    → (e : Err) × (execute_request http c u f ≡ err e)
      × ((k : Kind)
          → is e k
            ≡ is_of
                (if http.expired u then some proxy_timed_out else expected_kind r c.disable_fetch)
                k)
unfolding execute_request is is_of reclassify
execute_request-is {A = A} http c u f r q g n =
    let (e, a, b) = response_error_is r c.disable_fetch n in
    elim (Bool-cases (http.expired u)) [
      | inl x ↦
          let (e', s, i) =
            in_stack-err {A = A} (text "executeRequest") (reclassify e proxy_timed_out) in
          (e', rw (q, g, a, x) s, λ k. rw x (i k))
      | inr x ↦
          let (e', s, i) = in_stack-err {A = A} (text "executeRequest") e in
          (e', rw (q, g, a, x) s, λ k. rw x (i k ∙ b k))
    ]
