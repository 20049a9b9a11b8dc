-- ===== src/Ejobs/Quiet.antt =====
-- cmd/ejobs/main.go: actions that do nothing but print.
use pkgsite_metrics.Prelude.{
  ℕ, ◌≡◌, refl, ◌∙◌, Bool, true, false, List, [], ◌∷◌, ◌++◌, Option, none, some, Text,
  if◌then◌else◌, arith,
}
use pkgsite_metrics.Derrors.{Err, Result, ok, err}
use pkgsite_metrics.Ejobs.{
  Event, printed, Outcome, gave, failed, crashed, running, Ran, Act, follow, nil_dereference, ◌>>=◌,
  ◌>>◌, give, fail, emit, print, done, check, lift, dereference,
}

abbrev pub is_print : Event → Bool
is_print (printed t) = true
is_print _ = false

abbrev pub OnlyPrints : List Event → Type 0
OnlyPrints [] = Unit
OnlyPrints (e ∷ es) = (is_print e ≡ true) × OnlyPrints es

-- No request is made, and nothing is done but printing.
abbrev pub IsQuiet : {A : Type 0} → Ran A → ℕ → Type 0
IsQuiet r n = OnlyPrints r.events × (r.sent ≡ n)

pub record Quiet {A : Type 0} (m : Act A) : Type 0 where
  pub at : (n : ℕ) → IsQuiet (m n) n

OnlyPrints-append : (es es' : List Event) → OnlyPrints es → OnlyPrints es' → OnlyPrints (es ++ es')
OnlyPrints-append [] es' h h' = h'
OnlyPrints-append (e ∷ es) es' h h' = (h.0, OnlyPrints-append es es' h.1 h')

pub follow-Quiet :
    {A B : Type 0} (es : List Event) (k n : ℕ) (o : Outcome A) (f : A → Act B)
    → OnlyPrints es
    → k ≡ n
    → ((a : A) → Quiet (f a))
    → IsQuiet (follow es k o f) n
follow-Quiet es k n (gave a) f h e q =
    (OnlyPrints-append es (f a k).events h ((q a).at k).0, ((q a).at k).1 ∙ e)
follow-Quiet es k n (failed x) f h e q = (h, e)
follow-Quiet es k n (crashed t) f h e q = (h, e)
follow-Quiet es k n running f h e q = (h, e)

pub bind-Quiet :
    {A B : Type 0} (m : Act A) (f : A → Act B) → Quiet m → ((a : A) → Quiet (f a)) → Quiet (m >>= f)
unfolding ◌>>=◌
bind-Quiet m f h q = record {
  at = λ n. follow-Quiet (m n).events (m n).sent n (m n).outcome f (h.at n).0 (h.at n).1 q;
}

pub give-Quiet : {A : Type 0} (a : A) → Quiet (give a)
unfolding give
give-Quiet a = record { at = λ n. (tt, refl) }

pub fail-Quiet : {A : Type 0} (e : Err) → Quiet (fail {A = A} e)
unfolding fail
fail-Quiet e = record { at = λ n. (tt, refl) }

pub print-Quiet : (t : Text) → Quiet (print t)
unfolding print emit
print-Quiet t = record { at = λ n. ((refl, tt), refl) }

pub done-Quiet : Quiet done
unfolding done
done-Quiet = give-Quiet tt

pub then-Quiet : {A B : Type 0} (m : Act A) (k : Act B) → Quiet m → Quiet k → Quiet (m >> k)
unfolding ◌>>◌
then-Quiet m k h h' = bind-Quiet m (λ _. k) h (λ _. h')

pub check-Quiet : (o : Option Err) → Quiet (check o)
unfolding check done
check-Quiet none = give-Quiet tt
check-Quiet (some e) = fail-Quiet e

pub lift-Quiet : {A : Type 0} (r : Result A) → Quiet (lift r)
unfolding lift
lift-Quiet (ok a) = give-Quiet a
lift-Quiet (err e) = fail-Quiet e

pub dereference-Quiet : {A : Type 0} (o : Option A) → Quiet (dereference o)
unfolding dereference give
dereference-Quiet (some a) = give-Quiet a
dereference-Quiet none = record { at = λ n. (tt, refl) }

pub if-Quiet :
    {A : Type 0} (b : Bool) (m k : Act A) → Quiet m → Quiet k → Quiet (if b then m else k)
if-Quiet true m k h h' = h
if-Quiet false m k h h' = h'

-- A dry run takes the first branch of a test on the flag.
pub first-Quiet :
    {A : Type 0} (b : Bool) (m k : Act A) → b ≡ true → Quiet m → Quiet (if b then m else k)
first-Quiet true m k e h = h
first-Quiet false m k e h = cc

-- A quiet action that ends in the dereference of a nil pointer.
pub record Crashes {A : Type 0} (m : Act A) : Type 0 where
  pub at : (n : ℕ) → IsQuiet (m n) n × ((m n).outcome ≡ crashed nil_dereference)

pub follow-crashed :
    {A B : Type 0} (es : List Event) (k : ℕ) (o : Outcome A) (f : A → Act B)
    → o ≡ crashed nil_dereference
    → follow es k o f ≡ record { events = es; sent = k; outcome = crashed nil_dereference }
follow-crashed es k (crashed t) f h = ground (arith, h)
follow-crashed es k (gave a) f h = cc
follow-crashed es k (failed e) f h = cc
follow-crashed es k running f h = cc

pub bind-Crashes : {A B : Type 0} (m : Act A) (f : A → Act B) → Crashes m → Crashes (m >>= f)
unfolding ◌>>=◌
bind-Crashes m f h = record {
  at = λ n.
      rw (follow-crashed (m n).events (m n).sent (m n).outcome f (h.at n).1) ((h.at n).0, refl);
}

pub then-Crashes : {A B : Type 0} (m : Act A) (k : Act B) → Crashes m → Crashes (m >> k)
unfolding ◌>>◌
then-Crashes m k h = bind-Crashes m (λ _. k) h

pub passed-Crashes :
    {A : Type 0} (o : Option Err) (k : Act A) → o ≡ none → Crashes k → Crashes (check o >> k)
unfolding ◌>>◌ ◌>>=◌ check done give
passed-Crashes none k e h = h
passed-Crashes (some x) k e h = cc

pub Crashes-Quiet : {A : Type 0} (m : Act A) → Crashes m → Quiet m
Crashes-Quiet m h = record { at = λ n. (h.at n).0 }

pub checked-Quiet : {A : Type 0} (o : Option Err) (k : Act A) → Quiet k → Quiet (check o >> k)
checked-Quiet o k h = then-Quiet _ _ (check-Quiet o) h
