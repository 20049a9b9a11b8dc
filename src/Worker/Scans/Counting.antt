-- ===== src/Worker/Scans/Counting.antt =====
-- internal/worker/scan.go: what the counter of active scans counts, and when the caches are
-- cleaned.
use pkgsite_metrics.Prelude.{
  ℕ, zero, suc, ◌+◌, ◌^◌, ◌≡◌, ◌≤◌, ◌<◌, ◌⊎◌, ◌↔◌, inl, inr, refl, sym, ap, Bool, true, false, not,
  List, [], ◌∷◌, ◌++◌, length, length-append, replicate, arith,
}
use pkgsite_metrics.Worker.Scans.{
  Phase, waiting, scanning, cleaning, over, scans, cleans, sum, subtract_one, Caches, scans_in,
  after_scan, after_clean, Scans, start, cleans_caches, Step, begins, ends, ends_last, cleaned,
  clean_fails, Reach, here, next,
}

sum-append : (w : Phase → ℕ) (xs ys : List Phase) → sum w (xs ++ ys) ≡ sum w xs + sum w ys
sum-append w [] ys = omega arith
sum-append w (x ∷ xs) ys = omega (arith, sum-append w xs ys)

scans-length : (xs : List Phase) → sum scans xs ≤ length xs
scans-length [] = omega arith
scans-length (waiting ∷ xs) = omega (arith, scans-length xs)
scans-length (scanning ∷ xs) = omega (arith, scans-length xs)
scans-length (cleaning ∷ xs) = omega (arith, scans-length xs)
scans-length (over ∷ xs) = omega (arith, scans-length xs)

-- How a sum and the length change with one call.
sum-replaced :
    (w : Phase → ℕ) {calls : List Phase} (xs ys : List Phase) (p q : Phase)
    → calls ≡ xs ++ (p ∷ ys)
    → sum w (xs ++ (q ∷ ys)) + w p ≡ sum w calls + w q
sum-replaced w xs ys p q e =
    omega (arith, ap (sum w) e, sum-append w xs (p ∷ ys), sum-append w xs (q ∷ ys))

length-replaced :
    {calls : List Phase} (xs ys : List Phase) (p q : Phase)
    → calls ≡ xs ++ (p ∷ ys)
    → length (xs ++ (q ∷ ys)) ≡ length calls
length-replaced xs ys p q e =
    omega (arith, ap length e, length-append xs (p ∷ ys), length-append xs (q ∷ ys))

pub record IsCounted (n : ℕ) (s : Scans) : Type 0 where
  pub size : length s.calls ≡ n
  pub counted : s.active_scans ≡ sum scans s.calls

sum-waiting : (w : Phase → ℕ) (n : ℕ) → w waiting ≡ 0 → sum w (replicate n waiting) ≡ 0
sum-waiting w zero h = refl
sum-waiting w (suc n) h = omega (arith, sum-waiting w n h)

sum-over : (w : Phase → ℕ) (n : ℕ) → w over ≡ 0 → sum w (replicate n over) ≡ 0
sum-over w zero h = refl
sum-over w (suc n) h = omega (arith, sum-over w n h)

length-waiting : (n : ℕ) → length (replicate n waiting) ≡ n
length-waiting zero = refl
length-waiting (suc n) = ap suc (length-waiting n)

start-IsCounted : (n : ℕ) → IsCounted n (start (replicate n waiting))
unfolding start
start-IsCounted n = record { size = length-waiting n; counted = sym (sum-waiting scans n refl) }

module _ (insecure : ℕ → Bool) (on_cloud_run : Bool) where
  Step-IsCounted :
      {n : ℕ} {s t : Scans}
      → n < 2 ^ 32
      → Step insecure on_cloud_run s t
      → IsCounted n s
      → IsCounted n t
  Step-IsCounted {s} few (begins xs ys e) inv =
      let one = sum-replaced scans xs ys waiting scanning e in
      let all = length-replaced xs ys waiting scanning e in
      record {
        size = omega (arith, inv.size, all);
        counted =
            omega (arith, inv.counted, one, inv.size, all, scans-length (xs ++ (scanning ∷ ys)));
      }
  Step-IsCounted {s} few (ends xs ys e more) inv = record {
    size = omega (arith, inv.size, length-replaced xs ys scanning over e);
    counted = omega (
      arith,
      inv.counted,
      sum-replaced scans xs ys scanning over e,
      inv.size,
      scans-length s.calls,
    );
  }
  Step-IsCounted {s} few (ends_last xs ys e last) inv = record {
    size = omega (arith, inv.size, length-replaced xs ys scanning cleaning e);
    counted = omega (
      arith,
      inv.counted,
      sum-replaced scans xs ys scanning cleaning e,
      inv.size,
      scans-length s.calls,
    );
  }
  Step-IsCounted {s} few (cleaned xs ys e) inv = record {
    size = omega (arith, inv.size, length-replaced xs ys cleaning over e);
    counted = omega (arith, inv.counted, sum-replaced scans xs ys cleaning over e);
  }
  Step-IsCounted {s} few (clean_fails xs ys e on) inv = record {
    size = omega (arith, inv.size, length-replaced xs ys cleaning over e);
    counted = omega (arith, inv.counted, sum-replaced scans xs ys cleaning over e);
  }

  pub Reach-IsCounted :
      {n : ℕ} {s : Scans} → n < 2 ^ 32 → Reach insecure on_cloud_run n s → IsCounted n s
  Reach-IsCounted {n} few here = start-IsCounted n
  Reach-IsCounted few (next r st) = Step-IsCounted few st (Reach-IsCounted few r)

-- While fewer than 2 ^ 32 calls of doScan are made, each insecure or not, in any order of their steps
-- and with scans that panic or not: in a reachable state with a call in its scan, the counter is the
-- number of calls in their scans, and the end of that call makes it 0, so that the call goes on to
-- clean the caches, exactly when no other call is in its scan.
pub last_scan_cleans :
    (insecure : ℕ → Bool) (on_cloud_run : Bool) {n : ℕ} {s : Scans}
    → n < 2 ^ 32
    → Reach insecure on_cloud_run n s
    → (xs ys : List Phase) → s.calls ≡ xs ++ (scanning ∷ ys)
    → (s.active_scans ≡ sum scans s.calls)
      × ((subtract_one s.active_scans ≡ 0) ↔ (sum scans (xs ++ ys) ≡ 0))
last_scan_cleans insecure cloud {n} {s} few r xs ys e =
    let inv = Reach-IsCounted insecure cloud few r in
    let rest = sum-append scans xs ys in
    let whole : sum scans s.calls ≡ sum scans (xs ++ ys) + 1 =
      omega (arith, ap (sum scans) e, sum-append scans xs (scanning ∷ ys), rest) in
    let bound = scans-length s.calls in
    (
      inv.counted,
      (
        λ h. omega (arith, h, whole, inv.counted, bound, inv.size),
        λ h. omega (arith, h, whole, inv.counted, bound, inv.size),
      ),
    )

scans_in-after_scan :
    (b : Bool) (c : Caches) → scans_in (not b) (after_scan b c) ≡ scans_in (not b) c
scans_in-after_scan true c = refl
scans_in-after_scan false c = refl

scans_in-after_clean :
    (b : Bool) (c : Caches)
    → (scans_in b (after_clean b c) ≡ 0) × (scans_in (not b) (after_clean b c) ≡ scans_in (not b) c)
scans_in-after_clean true c = (refl, refl)
scans_in-after_clean false c = (refl, refl)

all_clean :
    (b : Bool) (c : Caches)
    → scans_in b c ≡ 0
    → scans_in (not b) c ≡ 0
    → (c.own ≡ 0) × (c.sandboxed ≡ 0)
all_clean true c h k = (h, k)
all_clean false c h k = (k, h)

-- Where all calls are insecure, or none is: only their caches are filled, and these are clean, or a
-- call is on its way to clean them, or a `go clean` has failed.
record IsHeld (b : Bool) (s : Scans) : Type 0 where
  pub other : scans_in (not b) s.caches ≡ 0
  pub held :
      s.clean_failures ≡ 0
      → (scans_in b s.caches ≡ 0) ⊎ (0 < sum scans s.calls + sum cleans s.calls)

start-IsHeld : (b : Bool) (n : ℕ) → IsHeld b (start (replicate n waiting))
unfolding start
start-IsHeld true n = record { other = refl; held = λ h. inl refl }
start-IsHeld false n = record { other = refl; held = λ h. inl refl }

module _ (b : Bool) (insecure : ℕ → Bool) (on_cloud_run : Bool) (same : (i : ℕ) → insecure i ≡ b)
    (on : cleans_caches b on_cloud_run ≡ true) where
  Step-IsHeld :
      {n : ℕ} {s t : Scans}
      → n < 2 ^ 32
      → Step insecure on_cloud_run s t
      → IsCounted n s
      → IsHeld b s
      → IsHeld b t
  Step-IsHeld {s} few (begins xs ys e) inv held = record {
    other = rw (same (length xs), scans_in-after_scan b s.caches) held.other;
    held = λ h. inr (omega (arith, sum-replaced scans xs ys waiting scanning e));
  }
  Step-IsHeld {s} few (ends xs ys e more) inv held =
      let after = Step-IsCounted insecure on_cloud_run few (ends xs ys e more) inv in
      record { other = held.other; held = λ h. inr (omega (arith, after.counted, more)) }
  Step-IsHeld {s} few (ends_last xs ys e last) inv held = record {
    other = held.other;
    held = λ h. inr (omega (arith, sum-replaced cleans xs ys scanning cleaning e));
  }
  Step-IsHeld {s} few (cleaned xs ys e) inv held =
      let (empty, kept) = scans_in-after_clean b s.caches in
      record {
        other = rw (same (length xs), on, kept) held.other;
        held = λ h. inl (rw (same (length xs), on) empty);
      }
  Step-IsHeld {s} few (clean_fails xs ys e runs) inv held = record {
    other = held.other;
    held = λ h. absurd (omega (arith, h));
  }

  Reach-IsHeld : {n : ℕ} {s : Scans} → n < 2 ^ 32 → Reach insecure on_cloud_run n s → IsHeld b s
  Reach-IsHeld {n} few here = start-IsHeld b n
  Reach-IsHeld few (next r st) =
      Step-IsHeld few st (Reach-IsCounted insecure on_cloud_run few r) (Reach-IsHeld few r)

-- While fewer than 2 ^ 32 calls of doScan are made, in any order of their steps, where either all of
-- them are insecure or none is, and insecure ones only on Cloud Run: in a reachable state where each
-- call has ended and no run of `go clean` has failed, no file of a scan is left in either of the
-- caches.
pub caches_end_clean :
    (b : Bool) (insecure : ℕ → Bool) (on_cloud_run : Bool) {n : ℕ} {s : Scans}
    → n < 2 ^ 32
    → ((i : ℕ) → insecure i ≡ b)
    → cleans_caches b on_cloud_run ≡ true
    → Reach insecure on_cloud_run n s
    → s.calls ≡ replicate n over
    → s.clean_failures ≡ 0
    → (s.caches.own ≡ 0) × (s.caches.sandboxed ≡ 0)
caches_end_clean b insecure cloud {n} {s} few same on r e fine =
    let inv = Reach-IsHeld b insecure cloud same on few r in
    let held = inv.held fine in
    let empty : scans_in b s.caches ≡ 0 = ground (
      arith,
      held,
      ap (sum scans) e,
      ap (sum cleans) e,
      sum-over scans n refl,
      sum-over cleans n refl,
    ) in
    all_clean b s.caches empty inv.other
