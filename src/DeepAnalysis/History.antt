-- ===== src/DeepAnalysis/History.antt =====
-- Settled states.
use sentinel_mail_gateway.Prelude.{Bool, true, false, ◌≡◌, refl, arith, ◌∙◌}
use sentinel_mail_gateway.DeepAnalysis.{
  Analysis, threat, unavailable, released, Hold, Action, enqueue, report, read_jobs, write_decision,
  take_snapshot, send_ok, send_failed, finish, pass_deadline, delete_entry, send_by_hand,
  mark_released, mark_deleted, step, Reaches, start, next, write, expire, if_releasing,
}

-- threat, unavailable and released
abbrev pub is_settled : Analysis → Bool
is_settled threat = true
is_settled unavailable = true
is_settled released = true
is_settled _ = false

step-is_settled :
    (a : Action) (h : Hold) → is_settled h.analysis ≡ true → (step a h).analysis ≡ h.analysis
unfolding step write expire if_releasing
step-is_settled (enqueue j) h s = refl
step-is_settled (report n r) h s = refl
step-is_settled read_jobs h s = ground arith
step-is_settled (write_decision d) h s = ground arith
step-is_settled take_snapshot h s = ground arith
step-is_settled send_ok h s = ground arith
step-is_settled send_failed h s = ground arith
step-is_settled finish h s = ground arith
step-is_settled pass_deadline h s = ground arith
step-is_settled (delete_entry n) h s = refl
step-is_settled (send_by_hand n) h s = refl
step-is_settled (mark_released n) h s = refl
step-is_settled (mark_deleted n) h s = refl

-- Once the analysis is a threat, unavailable or released, it stays so, whatever else happens.
pub Reaches-is_settled :
    {h h' : Hold} → Reaches h h' → is_settled h.analysis ≡ true → h'.analysis ≡ h.analysis
Reaches-is_settled start s = refl
Reaches-is_settled (next {h'} r a) s =
    let ih = Reaches-is_settled r s in step-is_settled a h' (rw ih s) ∙ ih
