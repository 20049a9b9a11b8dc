-- ===== src/Proxy.antt =====
-- internal/proxy/client.go: the client of the module proxy. HTTP, the escaping of module paths
-- (golang.org/x/mod/module), JSON and the reading of zip files are fields of `Http`. A call of the
-- client gives the client behind it, whose cache may be another, and the URLs that it requested.
pub mod Kept
pub mod Coherence
pub mod Caching
pub mod Statuses
pub mod Urls
mod Tests
use pkgsite_metrics.Prelude.{
  ℕ, ◌+◌, Bool, true, false, not, ◌&&◌, ◌||◌, List, [], ◌∷◌, ◌++◌, Option, none, some, Text, text,
  text_eq, contains, leb, ltb, ◌==◌, is_empty, if◌then◌else◌,
}
use pkgsite_metrics.Prelude.Int.{ℤ, pos, negsuc}
use pkgsite_metrics.Derrors.{
  Err, Kind, Result, ok, err, ◌>>=◌, plain, sentinel, wrapped, message, kind_text, reclassify,
  in_context, in_stack, invalid_argument, bad_module, proxy_error, proxy_timed_out, not_fetched,
  not_found,
}
use pkgsite_metrics.Proxy.Kept.{
  VersionInfo, Zip, Cache, get_info, put_info, get_mod, put_mod, get_zip, put_zip,
}

-- A response: its body is what reading it gives, and a negative content length is an unknown one.
pub record Response : Type 0 where
  pub status_code : ℕ
  pub body : Result Text
  pub content_length : ℤ

pub record Http : Type 0 where
  pub new_request : Text → Option Err
  -- the response to a GET request for a URL, by whether the fetch is disabled by the header
  pub get : Text → Bool → Result Response
  pub head : Text → Result Response
  -- whether the context of the call has an error at the end of a request for a URL
  pub expired : Text → Bool
  pub unmarshal_info : Text → Result VersionInfo
  pub new_zip : Text → Result Zip
  pub escape_path : Text → Result Text
  pub escape_version : Text → Result Text

pub record Client : Type 0 where
  pub url : Text
  pub disable_fetch : Bool
  pub cache : Option Cache

-- strings.TrimRight for one byte.
pub trim_right : ℕ → Text → Text
trim_right b [] = []
trim_right b (c ∷ s) = let rest = trim_right b s in if is_empty rest && c == b then [] else c ∷ rest

pub new : Text → Client
new u = record { url = trim_right b'/' u; disable_fetch = false; cache = none }

abbrev pub with_fetch_disabled : Client → Client
with_fetch_disabled c = record c { disable_fetch = true }

abbrev pub empty_cache : Cache
empty_cache = record { info_cache = []; mod_cache = []; zip_cache = none }

abbrev pub with_cache : Client → Client
with_cache c = record c { cache = some empty_cache }

-- The kind of an answer with status 404 or 410, by its body.
pub missing_kind : Text → Bool → Kind
missing_kind d fetch_disabled =
    if contains d (text "fetch timed out")
    then proxy_timed_out
    else if fetch_disabled
    then not_fetched
    else not_found

abbrev pub missing : Result Text → Bool → Option Err
missing (err e) fetch_disabled = some (plain (text "io.ReadAll: " ++ message e))
missing (ok d) fetch_disabled =
    let k = missing_kind d fetch_disabled in
    some (wrapped (d ++ (text ": " ++ kind_text k)) (sentinel k))

pub response_error : Response → Bool → Option Err
response_error r fetch_disabled =
    if leb 200 r.status_code && ltb r.status_code 300
    then none
    else if leb 500 r.status_code
    then some (sentinel proxy_error)
    else if r.status_code == 404 || r.status_code == 410
    then missing r.body fetch_disabled
    else some (plain (text "unexpected status"))

-- The deferred function of executeRequest: an expired context is an error, also without another.
abbrev pub timed_out {ℓ} : {A : Type ℓ} → Bool → Result A → Result A
timed_out false r = r
timed_out true (ok a) = err (reclassify (plain (text "<nil>")) proxy_timed_out)
timed_out true (err e) = err (reclassify e proxy_timed_out)

abbrev no_error {ℓ} : {A : Type ℓ} → Option Err → Result A → Result A
no_error none r = r
no_error (some e) r = err e

abbrev answered {ℓ} : {A : Type ℓ} → Bool → (Result Text → Result A) → Result Response → Result A
answered disable_fetch body_func (err e) =
    err (plain (text "ctxhttp.Do(ctx, client): " ++ message e))
answered disable_fetch body_func (ok r) =
    no_error (response_error r disable_fetch) (body_func r.body)

pub execute_request {ℓ} : {A : Type ℓ} → Http → Client → Text → (Result Text → Result A) → Result A
execute_request http c u body_func = in_stack (text "executeRequest") (
    timed_out (http.expired u) (
      no_error (http.new_request u)
        (answered c.disable_fetch body_func (http.get u c.disable_fetch))))

-- fmt.Errorf("<what>: %v: %w", err, derrors.InvalidArgument)
abbrev pub escaped : Text → Result Text → Result Text
escaped what (ok s) = ok s
escaped what (err e) = err (reclassify (plain (what ++ message e)) invalid_argument)

abbrev pub latest : Text
latest = text "latest"

abbrev pub version_url : Http → Client → Text → Text → Text → Result Text
version_url http c version suffix path =
    if text_eq version latest
    then (if not (text_eq suffix (text "info"))
        then err (plain (text "cannot ask for latest with suffix"))
        else ok (c.url ++ (b'/' ∷ (path ++ text "/@latest"))))
    else (do
      escaped_version ← escaped (text "version: ") (http.escape_version version)
      ok (c.url ++ (b'/' ∷ (path ++ (text "/@v/" ++ (escaped_version ++ (b'.' ∷ suffix)))))))

pub escaped_url : Http → Client → Text → Text → Text → Result Text
escaped_url http c module_path version suffix = in_stack (text "Client.escapedURL") (
    if not (text_eq suffix (text "info"))
      && not (text_eq suffix (text "mod"))
      && not (text_eq suffix (text "zip"))
    then err (plain (text "suffix must be \"info\", \"mod\" or \"zip\""))
    else escaped (text "path: ") (http.escape_path module_path)
      >>= version_url http c version suffix)

-- The URLs requested, and the body.
abbrev requested {ℓ} : {A : Type ℓ} → (Text → Result A) → Result Text → List Text × Result A
requested f (err e) = ([], err e)
requested f (ok u) = (u ∷ [], f u)

pub read_body : Http → Client → Text → Text → Text → List Text × Result Text
read_body http c module_path version suffix =
    let (urls, r) =
      requested (λ u. execute_request http c u (λ body. body))
        (escaped_url http c module_path version suffix) in
    (urls, in_stack (text "Client.readBody") r)

abbrev pub Called : Type 0 → Type 0
Called A = Client × List Text × Result A

abbrev pub put : {A : Type 0} → Client → (A → Option Cache) → List Text × Result A → Called A
put c f (urls, ok a) = (record c { cache = f a }, urls, ok a)
put c f (urls, err e) = (c, urls, err e)

abbrev pub use_cache : {A : Type 0} → Client → Option A → Called A → Called A
use_cache c (some a) called = (c, [], ok a)
use_cache c none called = called

abbrev pub decoded : {A B : Type 0} → (A → Result B) → List Text × Result A → List Text × Result B
decoded f (urls, r) = (urls, r >>= f)

-- The errors that Info reports or not are the same errors: reporting is left out.
abbrev pub named : {A : Type 0} → Text → Called A → Called A
named context (c, urls, r) = (c, urls, in_context context r)

abbrev pub stacked : {A : Type 0} → Text → Called A → Called A
stacked context (c, urls, r) = (c, urls, in_stack context r)

pub fetch_info : Http → Client → Text → Text → List Text × Result VersionInfo
fetch_info http c module_path version =
    decoded http.unmarshal_info (read_body http c module_path version (text "info"))

pub info : Http → Client → Text → Text → Called VersionInfo
info http c module_path version = named (text "proxy.Client.Info") (
    use_cache c (get_info c.cache module_path version)
      (put c (put_info c.cache module_path version) (fetch_info http c module_path version)))

-- Client.Mod
pub mod_file : Http → Client → Text → Text → Called Text
mod_file http c module_path version = stacked (text "proxy.Client.Mod") (
    use_cache c (get_mod c.cache module_path version) (
      put c (put_mod c.cache module_path version)
        (read_body http c module_path version (text "mod"))))

abbrev pub zip_reader : Http → Text → Result Zip
zip_reader http body = elim (http.new_zip body) [
  | ok z ↦ ok z
  | err e ↦ err (reclassify (plain (text "zip.NewReader: " ++ message e)) bad_module)
]

pub fetch_zip : Http → Client → Text → Text → List Text × Result Zip
fetch_zip http c module_path version =
    decoded (zip_reader http) (read_body http c module_path version (text "zip"))

pub zip : Http → Client → Text → Text → Called Zip
zip http c module_path version = stacked (text "proxy.Client.Zip") (
    use_cache c (get_zip c.cache module_path version)
      (put c (put_zip c.cache module_path version) (fetch_zip http c module_path version)))

abbrev known_length : ℤ → Result ℤ
known_length (pos n) = ok (pos n)
known_length (negsuc n) = err (plain (text "unknown content length"))

abbrev head_answered : Result Response → Result ℤ
head_answered (err e) = err (plain (text "ctxhttp.Head(ctx, client): " ++ message e))
head_answered (ok r) = no_error (response_error r false) (known_length r.content_length)

pub zip_size : Http → Client → Text → Text → Result ℤ
zip_size http c module_path version =
    in_stack (text "proxy.Client.ZipSize")
      (escaped_url http c module_path version (text "zip") >>= λ u. head_answered (http.head u))

abbrev path_to_list : Result Text → Result Text
path_to_list (ok path) = ok path
path_to_list (err e) =
    err (
      wrapped (text "module.EscapePath: " ++ kind_text invalid_argument)
        (sentinel invalid_argument))

-- Versions; `lines` is the scanner's reading of a body.
pub versions : Http → (Result Text → Result (List Text)) → Client → Text → Result (List Text)
versions http lines c module_path = in_context (text "Versions") (
    path_to_list (http.escape_path module_path) >>= λ path.
    execute_request http c (c.url ++ (b'/' ∷ (path ++ text "/@v/list"))) lines)
