-- ===== src/DeepAnalysis/Once.antt =====
-- The order in which the release loop sends.
use sentinel_mail_gateway.Prelude.{
  ℕ, suc, Bool, true, false, not, ◌&&◌, ◌≡◌, refl, arith, List, [], ◌∷◌, leb,
}
use sentinel_mail_gateway.DeepAnalysis.{
  Analysis, not_required, pending, threat, unavailable, releasing, released, EntryState, entry_held,
  entry_released, entry_deleted, Hold, Loop, idle, claimed, finished, sending, Action, enqueue,
  report, read_jobs, write_decision, take_snapshot, send_ok, send_failed, finish, pass_deadline,
  delete_entry, send_by_hand, mark_released, mark_deleted, step, Reaches, start, next, write,
  expire, if_releasing, held_from, is_pending,
}

-- a number above those sent
abbrev bound : List ℕ → ℕ
bound [] = 0
bound (n ∷ ns) = suc n

-- each number is greater than the one behind it
abbrev pub is_falling : List ℕ → Bool
is_falling [] = true
is_falling (n ∷ ns) = leb (bound ns) n && is_falling ns

-- each number is at least `k` and greater than the one before it
abbrev rises_from : ℕ → List ℕ → Bool
rises_from k [] = true
rises_from k (n ∷ ns) = leb k n && rises_from (suc n) ns

abbrev fits : Loop → Analysis → List ℕ → Bool
fits idle a [] = true
fits claimed a [] = not (is_pending a)
fits (sending left) a sent = rises_from (bound sent) left && not (is_pending a)
fits finished a sent = not (is_pending a)
fits _ a (n ∷ ns) = false

-- What is sent is in order, what is left comes behind it, and a loop that has been called stands for
-- a mail that is no longer pending.
abbrev pub is_orderly : Hold → Bool
is_orderly h = is_falling h.sent && fits h.loop h.analysis h.sent

rises_from_weaken :
    (j k : ℕ) (ns : List ℕ) → leb j k ≡ true → rises_from k ns ≡ true → rises_from j ns ≡ true
rises_from_weaken j k [] l r = refl
rises_from_weaken j k (n ∷ ns) l r = ground arith

rises_from-held_from : (n : ℕ) (es : List EntryState) → rises_from n (held_from n es) ≡ true
unfolding held_from
rises_from-held_from n [] = refl
rises_from-held_from n (entry_held ∷ es) = ground (arith, rises_from-held_from (suc n) es)
rises_from-held_from n (entry_released ∷ es) =
    rises_from_weaken n (suc n) (held_from (suc n) es) (ground arith)
      (rises_from-held_from (suc n) es)
rises_from-held_from n (entry_deleted ∷ es) =
    rises_from_weaken n (suc n) (held_from (suc n) es) (ground arith)
      (rises_from-held_from (suc n) es)

step-is_orderly : (a : Action) (h : Hold) → is_orderly h ≡ true → is_orderly (step a h) ≡ true
unfolding step write expire if_releasing
step-is_orderly (enqueue j) h o = o
step-is_orderly (report n r) h o = o
step-is_orderly read_jobs h o = ground arith
step-is_orderly (write_decision not_required) h o = ground arith
step-is_orderly (write_decision pending) h o = ground arith
step-is_orderly (write_decision threat) h o = ground arith
step-is_orderly (write_decision unavailable) h o = ground arith
step-is_orderly (write_decision releasing) h o = ground arith
step-is_orderly (write_decision released) h o = ground arith
step-is_orderly take_snapshot h o = ground (arith, rises_from-held_from 0 h.entries)
step-is_orderly send_ok h o = ground arith
step-is_orderly send_failed h o = ground arith
step-is_orderly finish h o = ground arith
step-is_orderly pass_deadline h o = ground arith
step-is_orderly (delete_entry n) h o = o
step-is_orderly (send_by_hand n) h o = o
step-is_orderly (mark_released n) h o = o
step-is_orderly (mark_deleted n) h o = o

Reaches-is_orderly : {h₀ h : Hold} → Reaches h₀ h → is_orderly h₀ ≡ true → is_orderly h ≡ true
Reaches-is_orderly start o = o
Reaches-is_orderly (next {h'} r a) o = step-is_orderly a h' (Reaches-is_orderly r o)

-- However its statements mix with those of other requests, the release loop sends no entry's
-- message twice: from a state in order on, the entries are sent in rising order.
pub Reaches-is_falling :
    {h₀ h : Hold} → Reaches h₀ h → is_orderly h₀ ≡ true → is_falling h.sent ≡ true
Reaches-is_falling r o = ground (arith, Reaches-is_orderly r o)
