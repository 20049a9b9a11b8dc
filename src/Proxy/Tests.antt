-- ===== src/Proxy/Tests.antt =====
-- Tests of the proxy client, and the theorems about it at concrete inputs.
use pkgsite_metrics.Prelude.{
  ℕ, ◌≡◌, refl, true, false, List, [], ◌∷◌, none, some, Text, text, map, ◌==◌, text_eq, count_byte,
  arith, if◌then◌else◌,
}
use pkgsite_metrics.Prelude.Int.{pos}
use pkgsite_metrics.Derrors.{Result, ok, err, plain}
use pkgsite_metrics.Proxy.Kept.{lookup, same_mod_ver}
use pkgsite_metrics.Proxy.{
  Http, Client, Response, new, with_cache, empty_cache, escaped_url, execute_request,
  response_error, trim_right, info, fetch_info, read_body,
}
use pkgsite_metrics.Proxy.Coherence.{with_kept}
use pkgsite_metrics.Proxy.Caching.{Call, info_call, Answer, succeeds, call, calls, calls-with_cache}

abbrev response : ℕ → Text → Response
response s b = record { status_code = s; body = ok b; content_length = pos 3 }

-- A proxy that knows every version but one.
abbrev answer : Text → Response
answer u =
    if text_eq u (text "http://p/m/@v/v1.info") then response 404 (text "no") else response 200 u

abbrev escape : Text → Result Text
escape p = if count_byte b'@' p == 0 then ok p else err (plain (text "malformed path"))

abbrev net : Http
net = record {
  new_request = λ u. none;
  get = λ u d. ok (answer u);
  head = λ u. ok (response 200 u);
  expired = λ u. false;
  unmarshal_info = λ b. ok (record { version = b; time = 3 });
  new_zip = λ b. err (plain (text "no zip"));
  escape_path = escape;
  escape_version = λ v. ok v;
}

-- The same proxy when it is down.
abbrev down : Http
down = record net { get = λ u d. ok (response 500 []) }

abbrev client : Client
client = new (text "http://p/")

abbrev v2_url : Text
v2_url = text "http://p/m/@v/v2.info"

test_v2 : escaped_url net client (text "m") (text "v2") (text "info") ≡ ok v2_url
unfolding escaped_url new trim_right count_byte text_eq
test_v2 = refl

test_latest :
    escaped_url net client (text "m") (text "latest") (text "info") ≡ ok (text "http://p/m/@latest")
unfolding escaped_url new trim_right count_byte text_eq
test_latest = refl

abbrev two_calls : List Call
two_calls = info_call (text "m") (text "v2") ∷ info_call (text "m") (text "v2") ∷ []

calls-with_cache_example :
    calls net (with_cache client) two_calls
    ≡ map (λ a. (call net (with_kept client none) a).2) two_calls
calls-with_cache_example = calls-with_cache net client two_calls

served_v2 :
    succeeds (call net (with_kept client (some empty_cache)) (info_call (text "m") (text "v2"))).2
    ≡ true
unfolding succeeds call info fetch_info read_body escaped_url execute_request response_error new
    trim_right count_byte lookup text_eq same_mod_ver
served_v2 = refl

abbrev first_call : Client × List Text × Answer
first_call = call net (with_kept client (some empty_cache)) (info_call (text "m") (text "v2"))

escape-value : (a b : Text) → escape a ≡ ok b → (count_byte b'@' a ≡ 0) × (a ≡ b)
escape-value a b h = ground arith
