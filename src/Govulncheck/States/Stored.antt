-- ===== src/Govulncheck/States/Stored.antt =====
-- internal/govulncheck/govulncheck.go: a work state that was written is the one that is read.
use pkgsite_metrics.Prelude.{
  ◌≡◌, ◌≢◌, refl, sym, ap, ◌∙◌, Option, none, some, Text, cut, cut-append, count_byte,
}
use pkgsite_metrics.Derrors.{Err, ok, wrap-none}
use pkgsite_metrics.Fstore.{Firestore, get, set, set_error, decode}
use pkgsite_metrics.Govulncheck.{WorkState}
use pkgsite_metrics.Govulncheck.States.{doc_name, set_work_state, get_work_state}

-- What is documented of the Firestore client and of url.PathEscape: a document that was set without
-- an error is read back, the other ones stay, a value is decoded from its document, and two texts
-- with the same escape are the same.
pub record Laws {D S : Type 0} (fs : Firestore WorkState D S) (path_escape : Text → Text)
    : Type 0 where
  pub get_set :
      (s : S) (id : Text) (d : D) → (fs.set s id d).1 ≡ none → fs.get (fs.set s id d).0 id ≡ ok d
  pub get_other :
      (s : S) (id other : Text) (d : D)
      → other ≢ id
      → fs.get (fs.set s id d).0 other ≡ fs.get s other
  pub data_document : (ws : WorkState) → fs.data_to (fs.document ws) ≡ ok ws
  pub escape_unique : (a b : Text) → path_escape a ≡ path_escape b → a ≡ b

same_pair : (x y : Text × Text) → some x ≡ some y → (x.0 ≡ y.0) × (x.1 ≡ y.1)
same_pair x y h = (cc, cc)

module _ {D S : Type 0} (fs : Firestore WorkState D S) (path_escape : Text → Text) where
  doc_name_unique :
      Laws fs path_escape
      → (p q v w : Text) → count_byte b'@' p ≡ 0
      → count_byte b'@' q ≡ 0
      → doc_name fs path_escape p v ≡ doc_name fs path_escape q w
      → (p ≡ q) × (v ≡ w)
  unfolding doc_name
  doc_name_unique laws p q v w hp hq e =
      same_pair (p, v) (q, w)
        (sym (cut-append b'@' p v hp)
          ∙ (ap (cut b'@') (laws.escape_unique _ _ e) ∙ cut-append b'@' q w hq))

  set_error-none : (o : Option Err) → set_error fs o ≡ none → o ≡ none
  set_error-none none h = refl
  set_error-none (some e) h = cc

  was_set :
      (s : S) (id : Text) (ws : WorkState)
      → (set fs s id ws).1 ≡ none
      → (fs.set s id (fs.document ws)).1 ≡ none
  unfolding set
  was_set s id ws h = set_error-none _ (wrap-none _ _ h)

  -- A work state that is written without an error for a module path without @ and a version is the
  -- one that is read for them, and what is read for another path without @, or for another version,
  -- stays as it was.
  pub get_work_state-set_work_state :
      Laws fs path_escape
      → (s : S) (p v : Text) (ws : WorkState) → count_byte b'@' p ≡ 0
      → (set_work_state fs path_escape s p v ws).1 ≡ none
      → (q w : Text) → count_byte b'@' q ≡ 0
      → ¬ ((q ≡ p) × (w ≡ v))
      → let after = (set_work_state fs path_escape s p v ws).0 in
        (get_work_state fs path_escape after p v ≡ ok (some ws))
        × (get_work_state fs path_escape after q w ≡ get_work_state fs path_escape s q w)
  unfolding set_work_state get_work_state get set decode
  get_work_state-set_work_state laws s p v ws hp h q w hq other =
      let id = doc_name fs path_escape p v in
      let d = fs.document ws in
      let done : (fs.set s id d).1 ≡ none = was_set s id ws h in
      (
        rw (laws.get_set s id d done, laws.data_document ws) refl,
        rw
            (laws.get_other s id (doc_name fs path_escape q w) d
              (λ e. other (doc_name_unique laws q p w v hq hp e)))
            refl,
      )
