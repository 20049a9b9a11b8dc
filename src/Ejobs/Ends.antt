-- ===== src/Ejobs/Ends.antt =====
-- cmd/ejobs/main.go: how an action ends, and how many requests it sends.
use pkgsite_metrics.Prelude.{
  ℕ, suc, ◌≡◌, refl, sym, ap, ◌∙◌, subst, Bool, true, false, Option, none, some, Text,
  if◌then◌else◌, ◌==◌,
}
use pkgsite_metrics.Derrors.{Err, Result, ok, err}
use pkgsite_metrics.Jobs.{Job}
use pkgsite_metrics.Ejobs.{
  Outcome, gave, failed, crashed, running, Ran, Act, Env, follow, ◌>>=◌, ◌>>◌, give, fail, emit,
  print, done, check, lift, dereference, send, http_get, slept,
}
use pkgsite_metrics.Ejobs.Wait.{after_poll, is_done, display_update, sleep_interval}

-- What the requests so far do to an action that gives a value.
pub bind-gave :
    {A B : Type 0} (m : Act A) (f : A → Act B) (n : ℕ) (b : B)
    → ((m >>= f) n).outcome ≡ gave b
    → (a : A) × ((m n).outcome ≡ gave a)
      × (((m >>= f) n).sent ≡ (f a (m n).sent).sent)
      × ((f a (m n).sent).outcome ≡ gave b)
unfolding ◌>>=◌
bind-gave m f n b h = go (m n).outcome h
  where
    go :
        (o : Outcome _)
        → (follow (m n).events (m n).sent o f).outcome ≡ gave b
        → (a : _) × (o ≡ gave a)
          × ((follow (m n).events (m n).sent o f).sent ≡ (f a (m n).sent).sent)
          × ((f a (m n).sent).outcome ≡ gave b)
    go (gave a) e = (a, refl, refl, e)
    go (failed x) e = cc
    go (crashed t) e = cc
    go running e = cc

-- How two runs end, with the same number of requests.
unfoldable pub EndsAs : {A : Type 0} → Ran A → Ran A → Type 0
EndsAs r r' = (r.outcome ≡ r'.outcome) × (r.sent ≡ r'.sent)

pub bind-value :
    {A B : Type 0} (m : Act A) (f : A → Act B) (n k : ℕ) (a : A)
    → (m n).outcome ≡ gave a
    → (m n).sent ≡ k
    → EndsAs ((m >>= f) n) (f a k)
unfolding ◌>>=◌ EndsAs
bind-value {B} m f n k a e s =
    subst (λ z. EndsAs (follow (m n).events (m n).sent (m n).outcome f) (f a z)) s
      (subst (λ o. EndsAs (follow (m n).events (m n).sent o f) (f a (m n).sent)) (sym e)
        (refl, refl))

pub bind-failed :
    {A B : Type 0} (m : Act A) (f : A → Act B) (n : ℕ) (e : Err)
    → (m n).outcome ≡ failed e
    → ((m >>= f) n).outcome ≡ failed e
unfolding ◌>>=◌
bind-failed m f n e h = ap (λ o. (follow (m n).events (m n).sent o f).outcome) h

pub bind-running :
    {A B : Type 0} (m : Act A) (f : A → Act B) (n : ℕ)
    → (m n).outcome ≡ running
    → (((m >>= f) n).outcome ≡ running) × (((m >>= f) n).sent ≡ (m n).sent)
unfolding ◌>>=◌
bind-running m f n h = (
  ap (λ o. (follow (m n).events (m n).sent o f).outcome) h,
  ap (λ o. (follow (m n).events (m n).sent o f).sent) h,
)

pub then-value :
    {B : Type 0} (m : Act Unit) (k : Act B) (n : ℕ)
    → (m n).outcome ≡ gave tt
    → (m n).sent ≡ n
    → EndsAs ((m >> k) n) (k n)
unfolding ◌>>◌
then-value m k n e s = bind-value m (λ _. k) n n tt e s

pub display_gives :
    (b : Bool) (t : Text) (n : ℕ)
    → (((if b then done else print t) n).outcome ≡ gave tt)
      × (((if b then done else print t) n).sent ≡ n)
unfolding done print emit give
display_gives true t n = (refl, refl)
display_gives false t n = (refl, refl)

pub after_poll_ongoing :
    (env : Env) (j : Job) (again : Act Unit) (n : ℕ)
    → is_done j ≡ false
    → EndsAs (after_poll env j again n) (again n)
unfolding after_poll EndsAs emit
after_poll_ongoing env j again n e =
    let shown = display_gives (env.wait_interval == 0) _ n in
    let one =
      then-value (display_update env j) (emit (slept (sleep_interval env)) >> again) n shown.0
        shown.1 in
    let two = then-value (emit (slept (sleep_interval env))) again n refl refl in
    rw e (one.0 ∙ two.0, one.1 ∙ two.1)

pub after_poll-done :
    (env : Env) (j : Job) (again : Act Unit) (n : ℕ)
    → is_done j ≡ true
    → EndsAs (after_poll env j again n) (done n)
unfolding after_poll EndsAs
after_poll-done env j again n e = rw e (refl, refl)

pub check_sent : (o : Option Err) (n : ℕ) → (check o n).sent ≡ n
unfolding check done give fail
check_sent none n = refl
check_sent (some e) n = refl

pub passed : {o : Option Err} → o ≡ none → (check o 0).outcome ≡ gave tt
unfolding check done give
passed {o = none} e = refl
passed {o = some x} e = cc

pub lift_sent : {A : Type 0} (r : Result A) (n : ℕ) → (lift r n).sent ≡ n
unfolding lift give fail
lift_sent (ok a) n = refl
lift_sent (err e) n = refl

pub dereference_sent : {A : Type 0} (o : Option A) (n : ℕ) → (dereference o n).sent ≡ n
unfolding dereference give
dereference_sent (some a) n = refl
dereference_sent none n = refl

pub http_get_sent :
    (env : Env) (url : Text) (n : ℕ) (b : Text)
    → (http_get env url n).outcome ≡ gave b
    → (http_get env url n).sent ≡ suc n
unfolding http_get ◌>>◌ send
http_get_sent env url n b h =
    let (u, e, s, h') = bind-gave (check (env.new_request url)) _ n b h in
    let (v, e', s', h'') = bind-gave (check env.token) (λ _. send env url) _ b h' in
    s
    ∙ (s' ∙ (lift_sent _ _ ∙ ap suc (check_sent env.token _ ∙ check_sent (env.new_request url) n)))
