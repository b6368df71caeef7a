-- ===== src/DeepAnalysis/Late.antt =====
-- The timer passes while the release loop sends.
use sentinel_mail_gateway.Prelude.{ℕ, ◌≡◌, refl, ap, ◌∙◌, List, [], ◌∷◌}
use sentinel_mail_gateway.DeepAnalysis.{
  releasing, released, unavailable, Hold, finished, sending, send_ok, pass_deadline, step, expire,
  if_releasing, run_out,
}

-- the numbers of a list, one after the other put on top
abbrev pub stack : List ℕ → List ℕ → List ℕ
stack [] sent = sent
stack (n ∷ left) sent = stack left (n ∷ sent)

-- a turn
turn :
    (n : ℕ) (left : List ℕ) (h : Hold)
    → h.loop ≡ sending (n ∷ left)
    → step send_ok h
      ≡ record h { sent = n ∷ h.sent; entries = (step send_ok h).entries; loop = sending left }
unfolding step
turn n left h e = rw e refl

-- what the loop leaves when no message fails
run_out_lem :
    (left : List ℕ) (h : Hold)
    → h.loop ≡ sending left
    → ((run_out left h).analysis ≡ if_releasing released h.analysis)
      × ((run_out left h).loop ≡ finished)
      × ((run_out left h).sent ≡ stack left h.sent)
unfolding run_out step
run_out_lem [] h e = rw (e, step) (refl, refl, refl)
run_out_lem (n ∷ left) h e =
    let (state, ends, sent) = run_out_lem left (step send_ok h) (rw e refl) in
    (
      state ∙ ap (if_releasing released) (ap (λ (k : Hold). k.analysis) (turn n left h e)),
      ends,
      sent ∙ ap (λ (k : Hold). stack left k.sent) (turn n left h e),
    )

-- The deadline passes while the release loop has entries left to send, however many, and no
-- message fails: the loop sends the messages that it sends without the deadline and returns, but
-- the mail ends as unavailable, marked as held for manual review, where it would have ended as
-- released.
pub run_out-pass_deadline :
    (h : Hold) (left : List ℕ)
    → h.loop ≡ sending left
    → h.analysis ≡ releasing
    → ((run_out left h).analysis ≡ released)
      × ((run_out left (step pass_deadline h)).analysis ≡ unavailable)
      × ((run_out left (step pass_deadline h)).loop ≡ finished)
      × ((run_out left (step pass_deadline h)).sent ≡ stack left h.sent)
      × ((run_out left h).sent ≡ stack left h.sent)
unfolding step expire if_releasing
run_out-pass_deadline h left e r =
    let (state, _, sent) = run_out_lem left h e in
    let (late, ends, sent') = run_out_lem left (step pass_deadline h) e in
    (state ∙ rw r refl, late ∙ rw r refl, ends, sent', sent)
