-- ===== src/Worker/Server/Answers.antt =====
-- internal/worker/server.go: the status of the answer to an error, and how many scan requests a
-- server process handles.
use pkgsite_metrics.Prelude.{
  ℕ, suc, ◌+◌, ◌-◌, ◌≤◌, ◌%◌, ◌^◌, ◌≡◌, refl, Bool, true, false, List, [], ◌∷◌, map, Option, some,
  Text, text, length, take, take-nil, ltb, subst, ◌++◌, arith, if◌then◌else◌, Bool-cases, inl, inr,
}
use pkgsite_metrics.Derrors.{
  Err, server_error, wrapped, message, is, same_kind, of_kind, wrap, invalid_argument, not_found,
  bad_module, err,
}
use pkgsite_metrics.Govulncheck.{WorkVersion}
use pkgsite_metrics.Worker.Prepare.{returned}
use pkgsite_metrics.Worker.Modes.{World}
use pkgsite_metrics.Worker.Scanner.{handle_scan}
use pkgsite_metrics.Worker.Server.{
  with_status, answer, serve_error, status_bad_request, status_not_found, status_not_acceptable,
  status_internal_server_error, req_limit, req_monitor_handler, serve_all,
}

abbrev pub is_server_error : Err → Bool
is_server_error (server_error status e) = true
is_server_error _ = false

answer-plain :
    (e : Err) → is_server_error e ≡ false → answer e ≡ (status_internal_server_error, message e)
unfolding answer
answer-plain (server_error status e) h = ground (arith, h)
answer-plain _ h = refl

-- The answer to an error that has no status of its own: the status of the first of the kinds
-- InvalidArgument, NotFound and BadModule that it is of, and 500 if it is of none, with the text of
-- the error as the body.
pub serve_error-kind :
    (e : Err)
    → is_server_error e ≡ false
    → serve_error e ≡ (
      if is e invalid_argument
          then status_bad_request
          else if is e not_found
          then status_not_found
          else if is e bad_module
          then status_not_acceptable
          else status_internal_server_error,
      message e,
    )
unfolding serve_error with_status answer is
serve_error-kind e h = elim (Bool-cases (is e invalid_argument)) [
  | inl a ↦ rw (a, if◌then◌else◌) refl
  | inr a ↦ elim (Bool-cases (is e not_found)) [
    | inl b ↦ rw (a, b, if◌then◌else◌) refl
    | inr b ↦ elim (Bool-cases (is e bad_module)) [
      | inl c ↦ rw (a, b, c, if◌then◌else◌) refl
      | inr c ↦ rw (a, b, c, if◌then◌else◌) (answer-plain e h)
    ]
  ]
]

-- A govulncheck scan request that cannot be parsed is answered with status 400, whatever the text
-- of the parse error is.
pub handle_scan-bad_request :
    (print : ℕ → Text) (world : World) (cfg_insecure : Bool) (cache : Option WorkVersion) (e : Err)
    {f : Err}
    → (handle_scan print world cfg_insecure cache (err e)).1.result ≡ returned (some f)
    → (serve_error f).0 ≡ status_bad_request
unfolding handle_scan serve_error with_status answer is of_kind wrap same_kind
handle_scan-bad_request print world cfg_insecure cache e {f} h =
    let bad : Err = of_kind invalid_argument (message e) in
    let same : wrapped (text "handleScan" ++ (text ": " ++ message bad)) bad ≡ f = cc in
    subst (λ x. (serve_error x).0 ≡ status_bad_request) same refl

serve_all-take {ℓ κ} :
    {R : Type ℓ} {A : Type κ} (h : R → A) (rs : List R) (reqs : ℕ)
    → reqs ≤ 251
    → serve_all h rs reqs ≡ (map h (take (251 - reqs) rs), ltb (251 - reqs) (length rs))
unfolding serve_all req_monitor_handler
serve_all-take h [] reqs le =
    let done : ltb (251 - reqs) 0 ≡ false = ground arith in rw (take-nil, done) refl
serve_all-take h (r ∷ rs) reqs le = elim (Bool-cases (ltb 250 reqs)) [
  | inl over ↦
      let none_left : 251 - reqs ≡ 0 = ground arith in
      let stops : ltb 0 (suc (length rs)) ≡ true = ground arith in
      rw (over, none_left, stops, if◌then◌else◌) refl
  | inr under ↦
      let left : 251 - reqs ≡ suc (251 - (reqs + 1)) = ground arith in
      let next : (reqs + 1) % 2 ^ 64 ≡ reqs + 1 = ground arith in
      let more : ltb (suc (251 - (reqs + 1))) (suc (length rs))
          ≡ ltb (251 - (reqs + 1)) (length rs) =
        ground arith in
      rw (under, left, next, more, serve_all-take h rs (reqs + 1) (ground arith), if◌then◌else◌)
        refl
]

-- A new server process handles the first 251 scan requests that it is sent, by the handler that it
-- was given, and exits at the next one, before that one is handled.
pub serve_all-limit {ℓ κ} :
    {R : Type ℓ} {A : Type κ} (h : R → A) (rs : List R)
    → serve_all h rs 0 ≡ (map h (take (req_limit + 1) rs), ltb (req_limit + 1) (length rs))
serve_all-limit h rs = serve_all-take h rs 0 (omega arith)
