-- ===== src/DeepAnalysis/Jobs.antt =====
-- What the scan jobs of a mail must show for its release.
use sentinel_mail_gateway.Prelude.{
  Bool, true, false, not, ◌||◌, ◌≡◌, ◌↔◌, refl, arith, some, List, [], ◌∷◌, any, keep, length, ltb,
  ◌==◌, All, str_eq,
}
use sentinel_mail_gateway.DeepAnalysis.{
  ScanJob, releasing, is_incomplete, is_failed, is_threat_verdict, is_unavailable_verdict, decision,
}

-- A job that is done, with a verdict that neither reports a threat nor that the scan was impossible.
abbrev pub IsClean : ScanJob → Type 0
IsClean j =
    (is_incomplete j.state ≡ false)
    × (is_failed j.state ≡ false)
    × (is_threat_verdict j.verdict ≡ false)
    × (is_unavailable_verdict j.verdict ≡ false)

abbrev pub is_ai : ScanJob → Bool
is_ai j = str_eq j.kind "ai"

length-keep-any {ℓ} :
    {A : Type ℓ} (p : A → Bool) (xs : List A) → ltb 0 (length (keep p xs)) ≡ any p xs
length-keep-any p [] = refl
length-keep-any p (x ∷ xs) = ground (arith, length-keep-any p xs)

length-keep-none {ℓ} :
    {A : Type ℓ} (p : A → Bool) (xs : List A) → (length (keep p xs) == 0) ≡ not (any p xs)
length-keep-none p [] = refl
length-keep-none p (x ∷ xs) = ground (arith, length-keep-none p xs)

-- a job that stands against the release
abbrev is_stained : ScanJob → Bool
is_stained j =
    is_threat_verdict j.verdict
    || (is_incomplete j.state || (is_failed j.state || is_unavailable_verdict j.verdict))

stained_split :
    (jobs : List ScanJob)
    → any is_stained jobs ≡ (
        any (λ (j : ScanJob). is_threat_verdict j.verdict) jobs
        || (any (λ (j : ScanJob). is_incomplete j.state) jobs
            || any (λ (j : ScanJob). is_failed j.state || is_unavailable_verdict j.verdict) jobs))
stained_split [] = refl
stained_split (j ∷ jobs) = ground (arith, stained_split jobs)

stained_iff : (jobs : List ScanJob) → (any is_stained jobs ≡ false) ↔ All IsClean jobs
stained_iff [] = ground arith
stained_iff (j ∷ jobs) =
    let (to, from) = stained_iff jobs in (ground (arith, to), ground (arith, from))

-- the test on the total adds nothing to the test on the AI jobs
decision_iff :
    (jobs : List ScanJob)
    → (decision jobs ≡ some releasing) ↔ ((any is_stained jobs ≡ false) × (any is_ai jobs ≡ true))
unfolding decision
decision_iff [] = ground arith
decision_iff (j ∷ jobs) =
    let all = j ∷ jobs in
    let incomplete = length-keep-any (λ (j : ScanJob). is_incomplete j.state) all in
    let ai = length-keep-none is_ai all in
    let stained = stained_split all in
    (ground (arith, incomplete, ai, stained), ground (arith, incomplete, ai, stained))

-- Reconciliation decides to release a mail exactly when every scan job of it is done, with a
-- verdict that reports neither a threat nor an impossible scan, and one of the jobs is an AI job.
pub decision-releasing_iff :
    (jobs : List ScanJob)
    → (decision jobs ≡ some releasing) ↔ (All IsClean jobs × (any is_ai jobs ≡ true))
decision-releasing_iff jobs =
    let (to, from) = decision_iff jobs in
    let (clean, unstained) = stained_iff jobs in
    (λ e. (clean ((to e).0), (to e).1), λ h. from (unstained (h.0), h.1))
