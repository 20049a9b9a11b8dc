-- ===== src/Ejobs/Gcs.antt =====
-- cmd/ejobs/main.go: what uploadAnalysisBinary has done when it gives false.
use mathlib.Core.List.{Memᴰ}
use pkgsite_metrics.Prelude.{
  ℕ, ◌≡◌, ◌≢◌, refl, sym, ap, ◌∙◌, subst, Bool, true, false, not, List, [], ◌∷◌, ◌++◌, Option, none,
  some, Text, text_eq, text_eq_iff, length, ◌==◌, if◌then◌else◌,
}
use pkgsite_metrics.Derrors.{Err, Result, ok, err}
use pkgsite_metrics.Ejobs.{
  Event, printed, uploaded, labelled, Outcome, gave, failed, crashed, running, Ran, Act, Env, Attrs,
  Object, absent, attrs_failed, present, after, follow, ◌>>=◌, ◌>>◌, give, fail, emit, print, done,
  check, lift,
}
use pkgsite_metrics.Ejobs.Upload.{
  upload_analysis_binary, upload, compare, ask, by_object, copy_to_gcs, file_md5, object_name,
  flatten, confirms,
}

-- What an action followed by another has done: either it stopped, or both ran.
pub data Split {A B : Type 0} (r : Ran A) (f : A → Act B) (whole : Ran B) : Type 0 where
  stopped : whole.sent ≡ r.sent → ((b : B) → whole.outcome ≢ gave b) → Split r f whole
  went_on : (a : A) → r.outcome ≡ gave a → whole ≡ after r.events (f a r.sent) → Split r f whole

pub bind-Split : {A B : Type 0} (m : Act A) (f : A → Act B) (n : ℕ) → Split (m n) f ((m >>= f) n)
unfolding ◌>>=◌
bind-Split {A} m f n = go (m n).outcome refl
  where
    go : (o : Outcome A) → (m n).outcome ≡ o → Split (m n) f (follow (m n).events (m n).sent o f)
    go (gave a) e = went_on a e refl
    go (failed x) e = stopped refl (λ b. cc)
    go (crashed t) e = stopped refl (λ b. cc)
    go running e = stopped refl (λ b. cc)

-- The binary is in the bucket: its contents were uploaded, or the object there has their MD5.
pub data IsOnGcs (env : Env) (binary_file : Text) (es : List Event) : Type 0 where
  put :
      (contents : Text)
      → env.open_file binary_file ≡ ok (ok contents)
      → Memᴰ (uploaded (object_name binary_file) contents) es
      → IsOnGcs env binary_file es
  kept :
      (contents : Text) (attrs : Attrs)
      → env.open_file binary_file ≡ ok (ok contents)
      → env.object (object_name binary_file) ≡ present attrs
      → env.md5_sum contents ≡ attrs.md5
      → IsOnGcs env binary_file es

Memᴰ-left : {e : Event} (es es' : List Event) → Memᴰ e es → Memᴰ e (es ++ es')
Memᴰ-left [] es' x = elim x [ ]
Memᴰ-left (x ∷ es) es' (Memᴰ.head p) = Memᴰ.head p
Memᴰ-left (x ∷ es) es' (Memᴰ.tail m) = Memᴰ.tail (Memᴰ-left es es' m)

Memᴰ-right : {e : Event} (es es' : List Event) → Memᴰ e es' → Memᴰ e (es ++ es')
Memᴰ-right [] es' m = m
Memᴰ-right (x ∷ es) es' m = Memᴰ.tail (Memᴰ-right es es' m)

pub IsOnGcs-left :
    (env : Env) (b : Text) (es es' : List Event) → IsOnGcs env b es → IsOnGcs env b (es ++ es')
IsOnGcs-left env b es es' (put c o m) = put c o (Memᴰ-left es es' m)
IsOnGcs-left env b es es' (kept c attrs o p q) = kept c attrs o p q

pub IsOnGcs-right :
    (env : Env) (b : Text) (es es' : List Event) → IsOnGcs env b es' → IsOnGcs env b (es ++ es')
IsOnGcs-right env b es es' (put c o m) = put c o (Memᴰ-right es es' m)
IsOnGcs-right env b es es' (kept c attrs o p q) = kept c attrs o p q

pub then-Split : {B : Type 0} (m : Act Unit) (k : Act B) (n : ℕ) → Split (m n) (λ _. k) ((m >> k) n)
unfolding ◌>>◌
then-Split m k n = bind-Split m (λ _. k) n

copy_gave :
    (r : Result (Result Text)) (w c : Option Err) (name : Text) (n : ℕ)
    → let run =
        (lift (flatten r) >>= λ contents. (check w >> (check c >> emit (uploaded name contents))))
          n in
      run.outcome ≡ gave tt
      → (contents : Text) × (r ≡ ok (ok contents)) × Memᴰ (uploaded name contents) run.events
unfolding lift ◌>>=◌ ◌>>◌ check done give fail emit
copy_gave (ok (ok contents)) none none name n h = (contents, refl, Memᴰ.head refl)
copy_gave (ok (ok contents)) none (some e) name n h = cc
copy_gave (ok (ok contents)) (some e) c name n h = cc
copy_gave (ok (err e)) w c name n h = cc
copy_gave (err e) w c name n h = cc

md5_gave :
    (sum : Text → Text) (r : Result (Result Text)) (n : ℕ) (a : Text)
    → ((lift (flatten r) >>= λ contents. give (sum contents)) n).outcome ≡ gave a
    → (contents : Text) × (r ≡ ok (ok contents)) × (sum contents ≡ a)
unfolding lift ◌>>=◌ give fail
md5_gave sum (ok (ok contents)) n a h = (contents, refl, cc)
md5_gave sum (ok (err e)) n a h = cc
md5_gave sum (err e) n a h = cc

-- What an action must have done when it gives `false`.
unfoldable pub Puts : Env → Text → Act Bool → Type 0
Puts env b m = (n : ℕ) → (m n).outcome ≡ gave false → IsOnGcs env b (m n).events

print-Puts : (env : Env) (b t : Text) (m : Act Bool) → Puts env b m → Puts env b (print t >> m)
unfolding Puts ◌>>◌ ◌>>=◌ print emit
print-Puts env b t m h n e = IsOnGcs-right env b (printed t ∷ []) (m n).events (h n e)

check-Puts :
    (env : Env) (b : Text) (o : Option Err) (m : Act Bool)
    → Puts env b m
    → Puts env b (check o >> m)
unfolding Puts ◌>>◌ ◌>>=◌ check done give fail
check-Puts env b none m h n e = h n e
check-Puts env b (some x) m h n e = cc

copied-Puts :
    (env : Env) (b : Text)
    → Puts env b (
        copy_to_gcs env (object_name b) b
        >> (emit (labelled (object_name b) env.user) >> give false))
unfolding Puts copy_to_gcs
copied-Puts env b n h = elim (then-Split (copy_to_gcs env (object_name b) b) _ n) [
  | stopped s never ↦ absurd (never false h)
  | went_on u e whole ↦
      let (contents, found, put_there) =
        copy_gave (env.open_file b) env.write_object env.close_object (object_name b) n e in
      put contents found (
        subst (λ r. Memᴰ (uploaded (object_name b) contents) r.events) (sym whole)
          (Memᴰ-left _ _ put_there))
]

upload-Puts : (env : Env) (b : Text) → Puts env b (upload env b)
unfolding upload
upload-Puts env b = print-Puts env b _ _ (copied-Puts env b)

if-Puts :
    (env : Env) (b : Text) (t : Bool) (m k : Act Bool)
    → Puts env b m
    → Puts env b k
    → Puts env b (if t then m else k)
if-Puts env b true m k h h' = h
if-Puts env b false m k h h' = h'

real-Puts :
    (env : Env) (b : Text) (t : Bool) (m k : Act Bool)
    → t ≡ false
    → Puts env b k
    → Puts env b (if t then m else k)
real-Puts env b false m k e h = h
real-Puts env b true m k e h = cc

cancels-Puts : (env : Env) (b t : Text) → Puts env b (print t >> give true)
unfolding Puts ◌>>◌ ◌>>=◌ print emit give
cancels-Puts env b t n e = cc

fail-Puts : (env : Env) (b : Text) (x : Err) → Puts env b (fail x)
unfolding Puts fail
fail-Puts env b x n e = cc

ask-Puts : (env : Env) (b : Text) (attrs : Attrs) → Puts env b (ask env b attrs)
unfolding ask
ask-Puts env b attrs = print-Puts env b _ _ (
    print-Puts env b _ _ (
      print-Puts env b _ _
        (if-Puts env b (confirms env.response) _ _ (upload-Puts env b) (cancels-Puts env b _))))

-- An action that gives what the next one is to put.
bind-Puts :
    {A : Type 0} (env : Env) (b : Text) (m : Act A) (f : A → Act Bool)
    → ((a : A) (n : ℕ) → (m n).outcome ≡ gave a → Puts env b (f a))
    → Puts env b (m >>= f)
unfolding Puts
bind-Puts env b m f h n e = elim (bind-Split m f n) [
  | stopped s never ↦ absurd (never false e)
  | went_on a given whole ↦
      subst (λ r. IsOnGcs env b r.events) (sym whole)
        (IsOnGcs-right env b (m n).events (f a (m n).sent).events
          (h a n given (m n).sent (sym (ap (λ r. r.outcome) whole) ∙ e)))
]

known-Puts : (env : Env) (b : Text) (m : Act Bool) → IsOnGcs env b [] → Puts env b m
unfolding Puts
known-Puts env b m h n e = IsOnGcs-left env b [] (m n).events h

tested-Puts :
    (env : Env) (b : Text) (t : Bool) (m k : Act Bool)
    → (t ≡ true → IsOnGcs env b [])
    → Puts env b k
    → Puts env b (if t then m else k)
tested-Puts env b true m k h h' = known-Puts env b m (h refl)
tested-Puts env b false m k h h' = h'

compare-Puts :
    (env : Env) (b : Text) (attrs : Attrs)
    → env.object (object_name b) ≡ present attrs
    → Puts env b (compare env b attrs)
unfolding compare file_md5
compare-Puts env b attrs found =
    if-Puts env b (not (length attrs.md5 == 16)) _ _ (fail-Puts env b _) (
      bind-Puts env b _ _ (λ local_md5 n given.
        let (contents, opened, sum) = md5_gave env.md5_sum (env.open_file b) n local_md5 given in
        tested-Puts env b (text_eq local_md5 attrs.md5) _ _
          (λ same.
            kept contents attrs opened found (sum ∙ (text_eq_iff local_md5 attrs.md5).0 same))
          (ask-Puts env b attrs)))

by_object-Puts :
    (env : Env) (b : Text) (o : Object)
    → env.object (object_name b) ≡ o
    → Puts env b (by_object env b o)
by_object-Puts env b absent found = print-Puts env b _ _ (upload-Puts env b)
by_object-Puts env b (attrs_failed x) found = fail-Puts env b x
by_object-Puts env b (present attrs) found = compare-Puts env b attrs found

pub upload_analysis_binary-Puts :
    (env : Env) (b : Text) → env.dry_run ≡ false → Puts env b (upload_analysis_binary env b)
unfolding upload_analysis_binary
upload_analysis_binary-Puts env b real = real-Puts env b env.dry_run _ _ real (
    check-Puts env b env.access_tokens _
      (check-Puts env b env.new_client _ (by_object-Puts env b (env.object (object_name b)) refl)))
