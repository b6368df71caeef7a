-- ===== src/DeepAnalysis/Clearance.antt =====
-- What must have been read of the scan jobs before the release loop is called.
use sentinel_mail_gateway.Prelude.{
  Bool, true, false, not, ◌||◌, ◌≡◌, arith, some, List, [], ◌∷◌, any, Option-cases, Bool-cases, inl,
  inr, All,
}
use sentinel_mail_gateway.DeepAnalysis.{
  Analysis, not_required, pending, threat, unavailable, releasing, released, Hold, Loop, idle,
  Action, enqueue, report, read_jobs, write_decision, take_snapshot, send_ok, send_failed, finish,
  pass_deadline, delete_entry, send_by_hand, mark_released, mark_deleted, step, Reaches, start,
  next, write, decision, same,
}
use sentinel_mail_gateway.DeepAnalysis.Jobs.{IsClean, is_ai, decision-releasing_iff}

abbrev is_idle : Loop → Bool
is_idle idle = true
is_idle _ = false

abbrev is_empty {ℓ} : {A : Type ℓ} → List A → Bool
is_empty [] = true
is_empty (x ∷ xs) = false

-- a release by the loop is on its way: it is decided, the loop has been called, or has sent
abbrev pub is_cleared : Hold → Bool
is_cleared h = any (same releasing) h.decided || (not (is_idle h.loop) || not (is_empty h.sent))

same_releasing : (d : Analysis) → same releasing d ≡ true → d ≡ releasing
same_releasing d s = ground arith

is_cleared-write :
    (d : Analysis) (h : Hold)
    → is_cleared h ≡ false
    → is_cleared (step (write_decision d) h) ≡ false
unfolding step write
is_cleared-write not_required h c = ground arith
is_cleared-write pending h c = ground arith
is_cleared-write threat h c = ground arith
is_cleared-write unavailable h c = ground arith
is_cleared-write releasing h c = ground arith
is_cleared-write released h c = ground arith

-- only reading clean jobs puts a mail on its way
step-is_cleared :
    (a : Action) (h : Hold)
    → is_cleared h ≡ false
    → is_cleared (step a h) ≡ true
    → decision h.jobs ≡ some releasing
unfolding step
step-is_cleared (enqueue j) h c c' = absurd (ground arith)
step-is_cleared (report n r) h c c' = absurd (ground arith)
step-is_cleared read_jobs h c c' = elim (Option-cases (decision h.jobs)) [
  | inl e ↦ absurd (ground arith)
  | inr (d, e) ↦ ground (arith, same_releasing d)
]
step-is_cleared (write_decision d) h c c' = absurd (ground (arith, is_cleared-write d h))
step-is_cleared take_snapshot h c c' = absurd (ground arith)
step-is_cleared send_ok h c c' = absurd (ground arith)
step-is_cleared send_failed h c c' = absurd (ground arith)
step-is_cleared finish h c c' = absurd (ground arith)
step-is_cleared pass_deadline h c c' = absurd (ground arith)
step-is_cleared (delete_entry n) h c c' = absurd (ground arith)
step-is_cleared (send_by_hand n) h c c' = absurd (ground arith)
step-is_cleared (mark_released n) h c c' = absurd (ground arith)
step-is_cleared (mark_deleted n) h c c' = absurd (ground arith)

-- If a release by the loop was not on its way, and now it is decided, the loop has been called, or
-- it has sent a message of the mail, then the mail passed through a state in which every scan job
-- was done with a clean verdict and one was an AI job, whatever users released or deleted by hand
-- meanwhile (which is no release by the loop).
pub Reaches-is_cleared :
    {h₀ h : Hold}
    → Reaches h₀ h
    → is_cleared h₀ ≡ false
    → is_cleared h ≡ true
    → (m : Hold) × Reaches h₀ m × All IsClean m.jobs × (any is_ai m.jobs ≡ true) × Reaches m h
Reaches-is_cleared {h₀} start c c' = absurd (ground arith)
Reaches-is_cleared (next {h'} r a) c c' = elim (Bool-cases (is_cleared h')) [
  | inl e ↦
      let (m, before, clean, ai, after) = Reaches-is_cleared r c e in
      (m, before, clean, ai, next after a)
  | inr e ↦
      let (clean, ai) = (decision-releasing_iff h'.jobs).0 (step-is_cleared a h' e c') in
      (h', r, clean, ai, next start a)
]
