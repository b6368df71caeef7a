-- ===== src/DeepAnalysis/Tests.antt =====
-- A mail that is held, cleared and released, step by step.
use sentinel_mail_gateway.Strings.{lower}
use sentinel_mail_gateway.Prelude.{◌≡◌, refl, true, false, [], ◌∷◌, any, All}
use sentinel_mail_gateway.DeepAnalysis.{
  pending, unavailable, releasing, done, ScanJob, entry_held, entry_deleted, Hold, idle, read_jobs,
  write_decision, take_snapshot, send_ok, pass_deadline, finish, step, decision, Reaches, start,
  next, sending, report, report_done, released, finished, run_out, entry_released, mark_released,
  send_by_hand,
}
use sentinel_mail_gateway.DeepAnalysis.Jobs.{IsClean, is_ai}
use sentinel_mail_gateway.DeepAnalysis.History.{is_settled, Reaches-is_settled}
use sentinel_mail_gateway.DeepAnalysis.Clearance.{is_cleared, Reaches-is_cleared}
use sentinel_mail_gateway.DeepAnalysis.Once.{is_orderly, is_falling, Reaches-is_falling}
use sentinel_mail_gateway.DeepAnalysis.Late.{stack, run_out-pass_deadline}

abbrev ai_job : ScanJob
ai_job = record { kind = "ai"; state = done; verdict = "clean" }

-- two recipients, of whom one has deleted the mail
abbrev held_mail : Hold
held_mail = record {
  analysis = pending;
  jobs = ai_job ∷ [];
  entries = entry_held ∷ entry_deleted ∷ entry_held ∷ [];
  decided = [];
  loop = idle;
  sent = [];
  by_hand = [];
}

abbrev sending_mail : Hold
sending_mail = step take_snapshot (step (write_decision releasing) (step read_jobs held_mail))

abbrev half_sent : Hold
half_sent = step send_ok sending_mail

run_half : Reaches held_mail half_sent
run_half =
    next (next (next (next start read_jobs) (write_decision releasing)) take_snapshot) send_ok

test_all_sent : (step finish (step send_ok half_sent)).sent ≡ 2 ∷ 0 ∷ []
unfolding step decision lower
test_all_sent = refl

test_not_cleared : is_cleared held_mail ≡ false
test_not_cleared = refl

test_cleared : is_cleared half_sent ≡ true
unfolding step decision lower
test_cleared = refl

Reaches-is_cleared_example :
    (m : Hold) × Reaches held_mail m
    × All IsClean m.jobs
    × (any is_ai m.jobs ≡ true)
    × Reaches m half_sent
Reaches-is_cleared_example = Reaches-is_cleared run_half test_not_cleared test_cleared

test_orderly : is_orderly held_mail ≡ true
test_orderly = refl

Reaches-is_falling_example : is_falling half_sent.sent ≡ true
Reaches-is_falling_example = Reaches-is_falling run_half test_orderly

-- reviewed by hand after a failed scan
abbrev failed_mail : Hold
failed_mail = record held_mail { analysis = unavailable }

test_settled : is_settled failed_mail.analysis ≡ true
test_settled = refl

Reaches-is_settled_example :
    (step (report 0 (report_done "clean")) (step read_jobs failed_mail)).analysis
    ≡ failed_mail.analysis
Reaches-is_settled_example =
    Reaches-is_settled (next (next start read_jobs) (report 0 (report_done "clean"))) test_settled

test_loop : sending_mail.loop ≡ sending (0 ∷ 2 ∷ [])
unfolding step decision lower
test_loop = refl

test_releasing : sending_mail.analysis ≡ releasing
unfolding step decision lower
test_releasing = refl

run_out-pass_deadline_example :
    ((run_out (0 ∷ 2 ∷ []) sending_mail).analysis ≡ released)
    × ((run_out (0 ∷ 2 ∷ []) (step pass_deadline sending_mail)).analysis ≡ unavailable)
    × ((run_out (0 ∷ 2 ∷ []) (step pass_deadline sending_mail)).loop ≡ finished)
    × ((run_out (0 ∷ 2 ∷ []) (step pass_deadline sending_mail)).sent
        ≡ stack (0 ∷ 2 ∷ []) sending_mail.sent)
    × ((run_out (0 ∷ 2 ∷ []) sending_mail).sent ≡ stack (0 ∷ 2 ∷ []) sending_mail.sent)
run_out-pass_deadline_example =
    run_out-pass_deadline sending_mail (0 ∷ 2 ∷ []) test_loop test_releasing

-- a message that a recipient has released, and the mark that overwrites a deletion
test_by_hand :
    (step (mark_released 1) (step (send_by_hand 1) held_mail)).entries
    ≡ entry_held ∷ entry_released ∷ entry_held ∷ []
unfolding step
test_by_hand = refl
