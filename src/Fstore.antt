-- ===== src/Fstore.antt =====
-- internal/fstore/fstore.go: documents in Firestore. The Firestore client is the record `Firestore`:
-- `D` is a document, and `S` the documents of a namespace.
use pkgsite_metrics.Prelude.{ℕ, Option, none, some, List, Text, text, is_empty, ◌==◌, if◌then◌else◌}
use pkgsite_metrics.Prelude.Int.{ℤ}
use pkgsite_metrics.Derrors.{
  Err, Result, wrap, ok, err, plain, sentinel, not_found, invalid_argument, in_context, ◌>>=◌,
}

pub record Firestore (T D S : Type 0) : Type 0 where
  -- status.FromError with the code
  pub status_code : Err → Option ℕ
  pub data_to : D → Result T
  pub document : T → D
  pub get : S → Text → Result D
  pub create : S → Text → D → S × Option Err
  pub set : S → Text → D → S × Option Err
  pub delete : S → Text → S × Option Err
  -- an Update with an increment of the field at a path
  pub increment : S → Text → Text → ℤ → S × Option Err
  -- what the iterator gives over all documents, in the order of the query
  pub documents : S → List (Result D)
  pub new_client : Text → Result S

-- codes.NotFound and codes.InvalidArgument
abbrev code_not_found : ℕ
code_not_found = 5

abbrev code_invalid_argument : ℕ
code_invalid_argument = 3

abbrev converted : Err → Option ℕ → Err
converted e none = e
converted e (some c) =
    if c == code_not_found
    then sentinel not_found
    else if c == code_invalid_argument
    then sentinel invalid_argument
    else e

module _ {T D S : Type 0} (fs : Firestore T D S) where
  unfoldable pub convert_error : Err → Err
  convert_error e = converted e (fs.status_code e)

  abbrev converting : {A : Type 0} → Result A → Result A
  converting (ok a) = ok a
  converting (err e) = err (convert_error e)

  unfoldable pub decode : D → Result T
  decode d = converting (fs.data_to d)

  unfoldable pub get : S → Text → Result T
  get s id = in_context (text "fstore.Get") (converting (fs.get s id) >>= decode)

  abbrev pub set_error : Option Err → Option Err
  set_error none = none
  set_error (some e) = some (convert_error e)

  unfoldable pub set : S → Text → T → S × Option Err
  set s id value =
      let (next, e) = fs.set s id (fs.document value) in
      (next, wrap (text "firestore.Set") (set_error e))

  -- OpenNamespace; the collections of the client are those of the namespace `name`.
  unfoldable pub open_namespace : Text → Text → Result S
  open_namespace project_id name =
      in_context (text "OpenNamespace")
        (if is_empty name then err (plain (text "empty namespace")) else fs.new_client project_id)
