-- ===== src/Ejobs/Uploaded.antt =====
-- cmd/ejobs/main.go: what holds when doStart asks the worker to enqueue the scans.
use pkgsite_metrics.Prelude.{
  ℕ, ◌<◌, ◌≡◌, refl, sym, ap, ◌∙◌, subst, inl, inr, Bool, true, false, not, List, [], ◌∷◌, ◌++◌,
  Option, Text, text_eq, length, ◌==◌, if◌then◌else◌, arith, Bool-cases,
}
use pkgsite_metrics.Derrors.{Err, Result, ok, err}
use pkgsite_metrics.Ejobs.{
  Event, printed, gave, Act, Env, Stat, missing, directory, file, stat_failed, Attrs, Object,
  absent, attrs_failed, present, after, ◌>>=◌, ◌>>◌, give, fail, emit, print, done, check, lift,
}
use pkgsite_metrics.Ejobs.Ends.{check_sent, lift_sent}
use pkgsite_metrics.Ejobs.Gcs.{
  stopped, went_on, bind-Split, IsOnGcs, IsOnGcs-left, IsOnGcs-right, Puts,
  upload_analysis_binary-Puts,
}
use pkgsite_metrics.Ejobs.Upload.{
  upload_analysis_binary, upload, compare, ask, by_object, copy_to_gcs, file_md5, object_name,
  confirms,
}
use pkgsite_metrics.Ejobs.Start.{
  do_start, check_stat, check_is_linux_amd64, checked_platform, is_linux_amd64, platform,
  check_args, has_space,
}

-- An action that sends no request.
record IsLocal {A : Type 0} (m : Act A) : Type 0 where
  kept : (n : ℕ) → (m n).sent ≡ n

bind-IsLocal :
    {A B : Type 0} (m : Act A) (f : A → Act B)
    → IsLocal m
    → ((a : A) → IsLocal (f a))
    → IsLocal (m >>= f)
bind-IsLocal m f h h' = record {
  kept = λ n. elim (bind-Split m f n) [
    | stopped s never ↦ s ∙ h.kept n
    | went_on a given whole ↦ ap (λ r. r.sent) whole ∙ ((h' a).kept (m n).sent ∙ h.kept n)
  ];
}

then-IsLocal : {B : Type 0} (m : Act Unit) (k : Act B) → IsLocal m → IsLocal k → IsLocal (m >> k)
unfolding ◌>>◌
then-IsLocal m k h h' = bind-IsLocal m (λ _. k) h (λ _. h')

emit-IsLocal : (e : Event) → IsLocal (emit e)
unfolding emit
emit-IsLocal e = record { kept = λ n. refl }

print-IsLocal : (t : Text) → IsLocal (print t)
unfolding print
print-IsLocal t = emit-IsLocal (printed t)

give-IsLocal : {A : Type 0} (a : A) → IsLocal (give a)
unfolding give
give-IsLocal a = record { kept = λ n. refl }

done-IsLocal : IsLocal done
unfolding done
done-IsLocal = give-IsLocal tt

fail-IsLocal : {A : Type 0} (e : Err) → IsLocal (fail {A = A} e)
unfolding fail
fail-IsLocal e = record { kept = λ n. refl }

check-IsLocal : (o : Option Err) → IsLocal (check o)
check-IsLocal o = record { kept = check_sent o }

lift-IsLocal : {A : Type 0} (r : Result A) → IsLocal (lift r)
lift-IsLocal r = record { kept = lift_sent r }

if-IsLocal :
    {A : Type 0} (b : Bool) (m k : Act A) → IsLocal m → IsLocal k → IsLocal (if b then m else k)
if-IsLocal true m k h h' = h
if-IsLocal false m k h h' = h'

upload-IsLocal : (env : Env) (b : Text) → IsLocal (upload env b)
unfolding upload copy_to_gcs
upload-IsLocal env b = then-IsLocal _ _ (print-IsLocal _) (
    then-IsLocal _ _
      (bind-IsLocal _ _ (lift-IsLocal _) (λ contents.
        then-IsLocal _ _ (check-IsLocal env.write_object)
          (then-IsLocal _ _ (check-IsLocal env.close_object) (emit-IsLocal _))))
      (then-IsLocal _ _ (emit-IsLocal _) (give-IsLocal false)))

ask-IsLocal : (env : Env) (b : Text) (attrs : Attrs) → IsLocal (ask env b attrs)
unfolding ask
ask-IsLocal env b attrs = then-IsLocal _ _ (print-IsLocal _) (
    then-IsLocal _ _ (print-IsLocal _) (
      then-IsLocal _ _ (print-IsLocal _) (
        if-IsLocal (confirms env.response) _ _ (upload-IsLocal env b)
          (then-IsLocal _ _ (print-IsLocal _) (give-IsLocal true)))))

by_object-IsLocal : (env : Env) (b : Text) (o : Object) → IsLocal (by_object env b o)
unfolding compare file_md5
by_object-IsLocal env b absent = then-IsLocal _ _ (print-IsLocal _) (upload-IsLocal env b)
by_object-IsLocal env b (attrs_failed x) = fail-IsLocal x
by_object-IsLocal env b (present attrs) =
    if-IsLocal (not (length attrs.md5 == 16)) _ _ (fail-IsLocal _) (
      bind-IsLocal _ _ (bind-IsLocal _ _ (lift-IsLocal _) (λ c. give-IsLocal _)) (λ local_md5.
        if-IsLocal (text_eq local_md5 attrs.md5) _ _
          (then-IsLocal _ _ (print-IsLocal _) (give-IsLocal false)) (ask-IsLocal env b attrs)))

upload_analysis_binary-IsLocal : (env : Env) (b : Text) → IsLocal (upload_analysis_binary env b)
unfolding upload_analysis_binary
upload_analysis_binary-IsLocal env b =
    if-IsLocal env.dry_run _ _ (then-IsLocal _ _ (print-IsLocal _) (give-IsLocal false)) (
      then-IsLocal _ _ (check-IsLocal env.access_tokens) (
        then-IsLocal _ _ (check-IsLocal env.new_client)
          (by_object-IsLocal env b (env.object (object_name b)))))

check_stat-IsLocal : (env : Env) (b : Text) (s : Stat) → IsLocal (check_stat env b s)
unfolding check_is_linux_amd64
check_stat-IsLocal env b missing = fail-IsLocal _
check_stat-IsLocal env b (stat_failed e) = fail-IsLocal e
check_stat-IsLocal env b directory = fail-IsLocal _
check_stat-IsLocal env b file = bind-IsLocal _ _ (lift-IsLocal (env.build_info b)) (λ settings.
    if-IsLocal (is_linux_amd64 (platform ([], []) settings)) _ _ done-IsLocal (fail-IsLocal _))

check_args-IsLocal : (args : List Text) → IsLocal (check_args args)
unfolding check_args
check_args-IsLocal [] = done-IsLocal
check_args-IsLocal (a ∷ args) =
    if-IsLocal (has_space a) _ _ (fail-IsLocal _) (check_args-IsLocal args)

-- The binary is built for linux/amd64, as buildinfo.Read tells.
abbrev pub IsLinuxAmd64 : Env → Text → Type 0
IsLinuxAmd64 env b =
    (settings : List (Text × Text)) × (env.build_info b ≡ ok settings)
    × (is_linux_amd64 (platform ([], []) settings) ≡ true)

platform_gave :
    (r : Result (List (Text × Text))) (n : ℕ) (u : Unit)
    → ((lift r >>= λ settings. checked_platform (platform ([], []) settings)) n).outcome ≡ gave u
    → (settings : List (Text × Text)) × (r ≡ ok settings)
      × (is_linux_amd64 (platform ([], []) settings) ≡ true)
unfolding ◌>>=◌ lift give fail
platform_gave (err e) n u h = cc
platform_gave (ok settings) n u h =
    elim (Bool-cases (is_linux_amd64 (platform ([], []) settings))) [
      | inl yes_linux ↦ (settings, refl, yes_linux)
      | inr other ↦ absurd (ground (arith, other, h))
    ]

check_stat-gave :
    (env : Env) (b : Text) (s : Stat) (n : ℕ) (u : Unit)
    → (check_stat env b s n).outcome ≡ gave u
    → (s ≡ file) × IsLinuxAmd64 env b
unfolding check_is_linux_amd64 fail
check_stat-gave env b missing n u h = cc
check_stat-gave env b (stat_failed e) n u h = cc
check_stat-gave env b directory n u h = cc
check_stat-gave env b file n u h = (refl, platform_gave (env.build_info b) n u h)

-- An action sends a request only after a local one that went on.
after_local :
    {A B : Type 0} (m : Act A) (f : A → Act B) (n : ℕ)
    → IsLocal m
    → n < ((m >>= f) n).sent
    → (a : A) × ((m n).outcome ≡ gave a)
      × (((m >>= f) n).events ≡ (m n).events ++ (f a n).events)
      × (n < (f a n).sent)
after_local m f n h lt = elim (bind-Split m f n) [
  | stopped s never ↦ absurd (omega (arith, lt, s, h.kept n))
  | went_on a given whole ↦
      let same = h.kept n in
      let moved = subst (λ k. (m >>= f) n ≡ after (m n).events (f a k)) same whole in
      (a, given, ap (λ r. r.events) moved, subst (λ k. n < k) (ap (λ r. r.sent) moved) lt)
]

not_canceled :
    (canceled : Bool) (k : Act Unit) (n : ℕ)
    → n < ((if canceled then done else k) n).sent
    → canceled ≡ false
unfolding done give
not_canceled false k n lt = refl
not_canceled true k n lt = absurd (omega (arith, lt))

-- When `start` is no dry run and sends a request, then its file is a binary for linux/amd64 that is
-- in the bucket: in this run the contents of the file were uploaded to the object of its name, or
-- the object that was there has their MD5.
pub do_start-IsOnGcs :
    (env : Env) (binary_file : Text) (args : List Text) (n : ℕ)
    → env.dry_run ≡ false
    → n < (do_start env (binary_file ∷ args) n).sent
    → IsLinuxAmd64 env binary_file
      × IsOnGcs env binary_file (do_start env (binary_file ∷ args) n).events
unfolding do_start ◌>>◌ Puts
do_start-IsOnGcs env b args n real lt =
    let (u, passed, es, lt') =
      after_local (check_stat env b (env.stat b)) _ n (check_stat-IsLocal env b _) lt in
    let (v, accepted, es', lt'') =
      after_local (check_args args) _ n (check_args-IsLocal args) lt' in
    let (canceled, given, es'', lt3) =
      after_local (upload_analysis_binary env b) _ n (upload_analysis_binary-IsLocal env b) lt'' in
    (
      (check_stat-gave env b (env.stat b) n u passed).1,
      subst (IsOnGcs env b) (sym es) (
          IsOnGcs-right env b _ _ (
            subst (IsOnGcs env b) (sym es') (
              IsOnGcs-right env b _ _ (
                subst (IsOnGcs env b) (sym es'') (
                  IsOnGcs-left env b _ _ (
                    upload_analysis_binary-Puts env b real n
                      (given ∙ ap gave (not_canceled canceled _ n lt3)))))))),
    )
