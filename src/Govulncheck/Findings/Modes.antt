-- ===== src/Govulncheck/Findings/Modes.antt =====
-- internal/worker/govulncheck_scan.go: which vulnerabilities vulnsForScanMode returns.
use mathlib.Core.List.{Memᴰ}
use mathlib.Core.List.Memᴰ
use pkgsite_metrics.Prelude.{
  ℕ, ◌+◌, ◌≡◌, refl, sym, ap, subst, ◌↔◌, inl, inr, Bool, true, false, List, [], ◌∷◌, Option, none,
  some, Text, text_eq, text_eq_iff, if◌then◌else◌, arith, Bool-cases,
}
use pkgsite_metrics.Osv.{Entry}
use pkgsite_metrics.Govulncheck.{Frame, Finding, Vuln, NullString, AnalysisResponse}
use pkgsite_metrics.Govulncheck.Findings.{
  scan_mode_source_symbol, scan_mode_source_package, scan_mode_source_module,
  convert_govulncheck_finding, in_mode, add_finding, mode_findings, vuln_eq, was_seen,
  distinct_vulns, convert_all, collect, vulns_for_scan_mode,
}

abbrev pub one_if : Bool → ℕ
one_if true = 1
one_if false = 0

-- Every finding counts in exactly one of the three scan modes of a source scan.
pub in_mode_partition :
    (fr : Frame)
    → one_if (in_mode scan_mode_source_symbol fr)
        + one_if (in_mode scan_mode_source_package fr)
        + one_if (in_mode scan_mode_source_module fr)
      ≡ 1
unfolding in_mode text_eq
in_mode_partition fr = ground arith

NullString-path : (a b : NullString) → a.string_val ≡ b.string_val → a.valid ≡ b.valid → a ≡ b
NullString-path a b p q = λ i. record { string_val = p i; valid = q i }

vuln_eq_iff : (v w : Vuln) → (vuln_eq v w ≡ true) ↔ (v ≡ w)
unfolding vuln_eq
vuln_eq_iff v w = (
  λ h. ground (
    arith,
    text_eq_iff v.id w.id,
    text_eq_iff v.package_path w.package_path,
    text_eq_iff v.module_path w.module_path,
    text_eq_iff v.version w.version,
    text_eq_iff v.review_status.string_val w.review_status.string_val,
  ),
  λ e. ground (
    arith,
    text_eq_iff v.id w.id,
    text_eq_iff v.package_path w.package_path,
    text_eq_iff v.module_path w.module_path,
    text_eq_iff v.version w.version,
    text_eq_iff v.review_status.string_val w.review_status.string_val,
  ),
)

was_seen-Memᴰ : (seen : List Vuln) (v : Vuln) → was_seen seen v ≡ true → Memᴰ v seen
unfolding was_seen
was_seen-Memᴰ [] v h = cc
was_seen-Memᴰ (w ∷ seen) v h = elim (Bool-cases (vuln_eq w v)) [
  | inl e ↦ Memᴰ.head (sym ((vuln_eq_iff w v).0 e))
  | inr e ↦ Memᴰ.tail (was_seen-Memᴰ seen v (ground arith))
]

Memᴰ-was_seen : (seen : List Vuln) (v : Vuln) → Memᴰ v seen → was_seen seen v ≡ true
unfolding was_seen
Memᴰ-was_seen [] v m = elim m [ ]
Memᴰ-was_seen (w ∷ seen) v (Memᴰ.head e) = ground (arith, (vuln_eq_iff w v).1 (sym e))
Memᴰ-was_seen (w ∷ seen) v (Memᴰ.tail m) = ground (arith, Memᴰ-was_seen seen v m)

-- No value stands in the list twice.
abbrev pub Distinct : List Vuln → Type 0
Distinct [] = Unit
Distinct (v ∷ vs) = (Memᴰ v vs → ⊥) × Distinct vs

not_seen_self : (w : Vuln) (seen : List Vuln) → was_seen (w ∷ seen) w ≡ false → ⊥
unfolding was_seen
not_seen_self w seen h = ground (arith, (vuln_eq_iff w w).1 refl)

first_or_later :
    (w v : Vuln) (rest vs seen : List Vuln)
    → was_seen seen w ≡ false
    → (Memᴰ v rest → Memᴰ v vs × (was_seen (w ∷ seen) v ≡ false))
    → Memᴰ v (w ∷ rest)
    → Memᴰ v (w ∷ vs) × (was_seen seen v ≡ false)
unfolding was_seen
first_or_later w v rest vs seen new later (Memᴰ.head e) = (Memᴰ.head e, rw e new)
first_or_later w v rest vs seen new later (Memᴰ.tail m) =
    let (n, fresh) = later m in (Memᴰ.tail n, ground arith)

distinct_vulns-of :
    (vs seen : List Vuln) (v : Vuln)
    → Memᴰ v (distinct_vulns seen vs)
    → Memᴰ v vs × (was_seen seen v ≡ false)
unfolding distinct_vulns
distinct_vulns-of [] seen v m = elim m [ ]
distinct_vulns-of (w ∷ vs) seen v m = elim (Bool-cases (was_seen seen w)) [
  | inl old ↦
      let (n, fresh) = distinct_vulns-of vs seen v (rw (old, if◌then◌else◌) at m) in
      (Memᴰ.tail n, fresh)
  | inr new ↦
      first_or_later w v (distinct_vulns (w ∷ seen) vs) vs seen new
        (distinct_vulns-of vs (w ∷ seen) v) (rw (new, if◌then◌else◌) at m)
]

of-distinct_vulns :
    (vs seen : List Vuln) (v : Vuln)
    → Memᴰ v vs
    → was_seen seen v ≡ false
    → Memᴰ v (distinct_vulns seen vs)
unfolding distinct_vulns was_seen
of-distinct_vulns [] seen v m h = elim m [ ]
of-distinct_vulns (w ∷ vs) seen v (Memᴰ.head e) h =
    let new : was_seen seen w ≡ false = rw (← e) h in rw (new, if◌then◌else◌) (Memᴰ.head e)
of-distinct_vulns (w ∷ vs) seen v (Memᴰ.tail m) h = elim (Bool-cases (was_seen seen w)) [
  | inl old ↦ rw (old, if◌then◌else◌) (of-distinct_vulns vs seen v m h)
  | inr new ↦
      rw (new, if◌then◌else◌)
        (elim (Bool-cases (vuln_eq w v)) [
          | inl same ↦ Memᴰ.head (sym ((vuln_eq_iff w v).0 same))
          | inr other ↦ Memᴰ.tail (of-distinct_vulns vs (w ∷ seen) v m (ground arith))
        ])
]

distinct_vulns-Distinct : (vs seen : List Vuln) → Distinct (distinct_vulns seen vs)
unfolding distinct_vulns
distinct_vulns-Distinct [] seen = tt
distinct_vulns-Distinct (w ∷ vs) seen = elim (Bool-cases (was_seen seen w)) [
  | inl old ↦ rw (old, if◌then◌else◌) (distinct_vulns-Distinct vs seen)
  | inr new ↦
      rw (new, if◌then◌else◌)
        (
          λ m. not_seen_self w seen (distinct_vulns-of vs (w ∷ seen) w m).1,
          distinct_vulns-Distinct vs (w ∷ seen),
        )
]

-- A finding of the list with its first frame, which counts in the scan mode.
abbrev pub IsModeFinding : Text → List Finding → Finding → Frame → Type 0
IsModeFinding scan_mode findings f fr =
    (rest : List Frame) × Memᴰ f findings × (f.trace ≡ fr ∷ rest) × (in_mode scan_mode fr ≡ true)

add_finding-some :
    (scan_mode : Text) (f : Finding) (trace : List Frame) (others : Option (List (Finding × Frame)))
    {all : List (Finding × Frame)}
    → add_finding scan_mode f trace others ≡ some all
    → (fr : Frame) × (trace' : List Frame) × (rest : List (Finding × Frame)) × (trace ≡ fr ∷ trace')
      × (others ≡ some rest)
      × (all ≡ (if in_mode scan_mode fr then (f, fr) ∷ rest else rest))
add_finding-some scan_mode f [] others h = cc
add_finding-some scan_mode f (fr ∷ trace) none h = cc
add_finding-some scan_mode f (fr ∷ trace) (some rest) h = (fr, trace, rest, refl, refl, cc)

IsModeFinding-tail :
    (scan_mode : Text) (findings : List Finding) (g f : Finding) (fr : Frame)
    → IsModeFinding scan_mode findings f fr
    → IsModeFinding scan_mode (g ∷ findings) f fr
IsModeFinding-tail scan_mode findings g f fr (rest, m, t, h) = (rest, Memᴰ.tail m, t, h)

pair_path :
    {f g : Finding} {a b : Frame} → ◌≡◌ {A = Finding × Frame} (f, a) (g, b) → (f ≡ g) × (a ≡ b)
pair_path e = (ap (λ (p : Finding × Frame). p.0) e, ap (λ (p : Finding × Frame). p.1) e)

chosen {ℓ} : {A : Type ℓ} {x : A} (b : Bool) (y z : A) → b ≡ true → x ≡ (if b then y else z) → x ≡ y
chosen true y z h e = e
chosen false y z h e = cc

passed {ℓ} :
    {A : Type ℓ} {x : A} (b : Bool) (y z : A) → b ≡ false → x ≡ (if b then y else z) → x ≡ z
passed true y z h e = cc
passed false y z h e = e

mode_findings-of :
    (scan_mode : Text) (findings : List Finding) (all : List (Finding × Frame)) (f : Finding)
    (fr : Frame)
    → mode_findings scan_mode findings ≡ some all
    → Memᴰ (f, fr) all
    → IsModeFinding scan_mode findings f fr
unfolding mode_findings
mode_findings-of scan_mode [] all f fr h m =
    let none_left : all ≡ [] = cc in elim (rw none_left at m) [ ]
mode_findings-of scan_mode (g ∷ findings) all f fr h m =
    let (top, trace', rest, t, others, e) =
      add_finding-some scan_mode g g.trace (mode_findings scan_mode findings) h in
    elim (Bool-cases (in_mode scan_mode top)) [
      | inl in_it ↦
          let m' : Memᴰ (f, fr) ((g, top) ∷ rest) =
            subst (λ l. Memᴰ (f, fr) l)
              (chosen (in_mode scan_mode top) ((g, top) ∷ rest) rest in_it e) m in
          elim (Memᴰ.cases_cons m') [
            | inl same ↦
                let (ef, efr) = pair_path same in
                (trace', Memᴰ.head ef, rw (ef, efr) t, rw efr in_it)
            | inr later ↦
                IsModeFinding-tail scan_mode findings g f fr
                  (mode_findings-of scan_mode findings rest f fr others later)
          ]
      | inr out ↦ IsModeFinding-tail scan_mode findings g f fr (
          mode_findings-of scan_mode findings rest f fr others (
            subst (λ l. Memᴰ (f, fr) l)
              (passed (in_mode scan_mode top) ((g, top) ∷ rest) rest out e) m))
    ]

of-mode_findings :
    (scan_mode : Text) (findings : List Finding) (all : List (Finding × Frame)) (f : Finding)
    (fr : Frame)
    → mode_findings scan_mode findings ≡ some all
    → IsModeFinding scan_mode findings f fr
    → Memᴰ (f, fr) all
unfolding mode_findings
of-mode_findings scan_mode [] all f fr h (r, m, t, i) = elim m [ ]
of-mode_findings scan_mode (g ∷ findings) all f fr h (r, Memᴰ.head ef, t, i) =
    let (top, trace', rest, t', others, e) =
      add_finding-some scan_mode g g.trace (mode_findings scan_mode findings) h in
    let same : fr ≡ top = cc (ap (λ (x : Finding). x.trace) ef) in
    let in_it : in_mode scan_mode top ≡ true = rw (← same) i in
    subst (λ l. Memᴰ (f, fr) l)
      (sym (chosen (in_mode scan_mode top) ((g, top) ∷ rest) rest in_it e))
      (Memᴰ.head (λ j. (ef j, same j)))
of-mode_findings scan_mode (g ∷ findings) all f fr h (r, Memᴰ.tail m, t, i) =
    let (top, trace', rest, t', others, e) =
      add_finding-some scan_mode g g.trace (mode_findings scan_mode findings) h in
    let later = of-mode_findings scan_mode findings rest f fr others (r, m, t, i) in
    elim (Bool-cases (in_mode scan_mode top)) [
      | inl in_it ↦
          subst (λ l. Memᴰ (f, fr) l)
            (sym (chosen (in_mode scan_mode top) ((g, top) ∷ rest) rest in_it e)) (Memᴰ.tail later)
      | inr out ↦
          subst (λ l. Memᴰ (f, fr) l)
            (sym (passed (in_mode scan_mode top) ((g, top) ∷ rest) rest out e)) later
    ]

module _ (print : ℕ → Text) (osvs : Text → Option Entry) where
  convert_all-of :
      (all : List (Finding × Frame)) (v : Vuln)
      → Memᴰ v (convert_all print osvs all)
      → (f : Finding) × (fr : Frame) × Memᴰ (f, fr) all
        × (v ≡ convert_govulncheck_finding print f fr (osvs f.osv))
  unfolding convert_all
  convert_all-of [] v m = elim m [ ]
  convert_all-of ((f, fr) ∷ all) v (Memᴰ.head e) = (f, fr, Memᴰ.head refl, e)
  convert_all-of ((f, fr) ∷ all) v (Memᴰ.tail m) =
      let (g, gr, n, e) = convert_all-of all v m in (g, gr, Memᴰ.tail n, e)

  of-convert_all :
      (all : List (Finding × Frame)) (f : Finding) (fr : Frame)
      → Memᴰ (f, fr) all
      → Memᴰ (convert_govulncheck_finding print f fr (osvs f.osv)) (convert_all print osvs all)
  unfolding convert_all
  of-convert_all [] f fr m = elim m [ ]
  of-convert_all ((g, gr) ∷ all) f fr (Memᴰ.head e) =
      let (ef, efr) = pair_path e in Memᴰ.head (rw (ef, efr) refl)
  of-convert_all ((g, gr) ∷ all) f fr (Memᴰ.tail m) = Memᴰ.tail (of-convert_all all f fr m)

collect-some :
    (print : ℕ → Text) (osvs : Text → Option Entry) (o : Option (List (Finding × Frame)))
    {vs : List Vuln}
    → collect print osvs o ≡ some vs
    → (all : List (Finding × Frame)) × (o ≡ some all)
      × (vs ≡ distinct_vulns [] (convert_all print osvs all))
collect-some print osvs none h = cc
collect-some print osvs (some all) h = (all, refl, cc)

-- What vulnsForScanMode returns, when it does not panic on a finding with no trace: no
-- vulnerability twice, and exactly the conversions of the findings that count in the scan mode.
pub vulns_for_scan_mode-vulns :
    (print : ℕ → Text) (response : AnalysisResponse) (scan_mode : Text) {vs : List Vuln}
    → vulns_for_scan_mode print response scan_mode ≡ some vs
    → Distinct vs
      × ((v : Vuln)
          → Memᴰ v vs ↔ (
              (f : Finding) × (fr : Frame) × IsModeFinding scan_mode response.findings f fr
              × (v ≡ convert_govulncheck_finding print f fr (response.osvs f.osv))))
unfolding vulns_for_scan_mode was_seen
vulns_for_scan_mode-vulns print response scan_mode {vs} h =
    let osvs = response.osvs in
    let (all, found, e) = collect-some print osvs (mode_findings scan_mode response.findings) h in
    let converted = convert_all print osvs all in
    (
      rw e (distinct_vulns-Distinct converted []),
      λ v. (
        λ m.
            let in_all = (distinct_vulns-of converted [] v (subst (λ l. Memᴰ v l) e m)).0 in
            let (f, fr, n, made) = convert_all-of print osvs all v in_all in
            (f, fr, mode_findings-of scan_mode response.findings all f fr found n, made),
        λ (f, fr, counts, made).
            let n = of-mode_findings scan_mode response.findings all f fr found counts in
            let in_all = Memᴰ.cast made (of-convert_all print osvs all f fr n) in
            subst (λ l. Memᴰ v l) (sym e) (of-distinct_vulns converted [] v in_all refl),
      ),
    )
