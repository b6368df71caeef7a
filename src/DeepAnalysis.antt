-- ===== src/DeepAnalysis.antt =====
-- internal/scan/scan.go and internal/quarantine/quarantine.go: a mail that is held until its scans
-- are done. `reconcileDeepAnalysis` reads the scan jobs and writes its decision in two statements,
-- and `ReleaseDeepAnalysisHold` sends one entry after the other, so other requests come in between:
-- the queries of a reconciliation are one step, each write is one, and so is each turn of the loop
-- that sends, with the update behind it. What users release or delete by hand meanwhile are steps
-- too.
pub mod Jobs
pub mod History
pub mod Tests
pub mod Late
pub mod Clearance
pub mod Once
use sentinel_mail_gateway.Prelude.{
  ℕ, zero, suc, ◌+◌, String, Bool, true, false, not, ◌&&◌, ◌||◌, Option, none, some, List, [], ◌∷◌,
  ◌++◌, length, any, keep, ltb, ◌==◌, str_eq, if◌then◌else◌,
}
use sentinel_mail_gateway.Strings.{lower}

-- mail_logs.deep_analysis_state
pub data Analysis : Type 0 where
  not_required pending threat unavailable releasing released : Analysis

pub data JobState : Type 0 where
  queued running done failed : JobState

-- what reconciliation reads of a row of scan_jobs; the verdict is "" where it is null
pub record ScanJob : Type 0 where
  pub kind : String
  pub state : JobState
  pub verdict : String

-- quarantine_entries.state
pub data EntryState : Type 0 where
  entry_held entry_released entry_deleted : EntryState

-- The body of a worker's report: the `state` with the verdict that goes with "done".
pub data Report : Type 0 where
  report_running report_failed : Report
  report_done : String → Report

-- the three UPDATE statements of `workerResult`
unfoldable pub apply_report : Report → ScanJob → ScanJob
apply_report report_running j = record j { state = running }
apply_report report_failed j = record j { state = failed }
apply_report (report_done verdict) j = record j { state = done; verdict = verdict }

abbrev pub is_incomplete : JobState → Bool
is_incomplete queued = true
is_incomplete running = true
is_incomplete _ = false

abbrev pub is_failed : JobState → Bool
is_failed failed = true
is_failed _ = false

unfoldable pub is_threat_verdict : String → Bool
is_threat_verdict verdict =
    any (str_eq (lower verdict)) ("suspicious" ∷ "malicious" ∷ "phishing" ∷ "malware" ∷ [])

unfoldable pub is_unavailable_verdict : String → Bool
is_unavailable_verdict verdict =
    any (str_eq (lower verdict)) ("unavailable" ∷ "inconclusive" ∷ "failed" ∷ [])

-- The counts and flags of the second query of `reconcileDeepAnalysis`, and what it decides to write;
-- `none` where it returns and leaves the state.
unfoldable pub decision : List ScanJob → Option Analysis
unfolding is_threat_verdict is_unavailable_verdict
decision jobs =
    let has_threat = any (λ (j : ScanJob). is_threat_verdict j.verdict) jobs in
    let has_unavailable =
      any (λ (j : ScanJob). is_failed j.state || is_unavailable_verdict j.verdict) jobs in
    let incomplete = length (keep (λ (j : ScanJob). is_incomplete j.state) jobs) in
    let ai_jobs = length (keep (λ (j : ScanJob). str_eq j.kind "ai") jobs) in
    if has_threat
    then some threat
    else if ltb 0 incomplete
    then none
    else if length jobs == 0 || (ai_jobs == 0 || has_unavailable)
    then some unavailable
    else some releasing

-- Where `ReleaseDeepAnalysisHold` stands: not called, before its query, with the entries left of its
-- snapshot, or returned.
pub data Loop : Type 0 where
  idle claimed finished : Loop
  sending : List ℕ → Loop

pub record Hold : Type 0 where
  pub analysis : Analysis
  pub jobs : List ScanJob
  pub entries : List EntryState
  -- the decisions of calls that have read the jobs and not yet written
  pub decided : List Analysis
  pub loop : Loop
  -- the entries whose message the loop has sent
  pub sent : List ℕ
  -- the entries whose message another request has sent
  pub by_hand : List ℕ

abbrev pub is_pending : Analysis → Bool
is_pending pending = true
is_pending _ = false

abbrev pub is_releasing : Analysis → Bool
is_releasing releasing = true
is_releasing _ = false

-- UPDATE … WHERE deep_analysis_state = 'releasing'
unfoldable pub if_releasing : Analysis → Analysis → Analysis
if_releasing next releasing = next
if_releasing next a = a

-- `ResolveExpiredDeepAnalysis`, for a mail whose deadline has passed
unfoldable pub expire : Analysis → Analysis
expire pending = unavailable
expire releasing = unavailable
expire a = a

abbrev update {ℓ} : {A : Type ℓ} → (A → A) → ℕ → List A → List A
update f n [] = []
update f zero (x ∷ xs) = f x ∷ xs
update f (suc n) (x ∷ xs) = x ∷ update f n xs

-- UPDATE quarantine_entries … WHERE state = 'held'
abbrev if_held : EntryState → EntryState → EntryState
if_held next entry_held = next
if_held next e = e

-- the numbers of the held entries, counted from `n`
held_from : ℕ → List EntryState → List ℕ
held_from n [] = []
held_from n (entry_held ∷ es) = n ∷ held_from (suc n) es
held_from n (e ∷ es) = held_from (suc n) es

-- One statement of some request.
pub data Action : Type 0 where
  -- a scan job is inserted
  enqueue : ScanJob → Action
  -- a worker reports on a job
  report : ℕ → Report → Action
  -- the two halves of `reconcileDeepAnalysis`
  read_jobs : Action
  write_decision : Analysis → Action
  -- the query, the two ends of a turn and the end of `ReleaseDeepAnalysisHold`
  take_snapshot send_ok send_failed finish : Action
  -- the timer
  pass_deadline : Action
  -- `DeleteHeldForRecipient`
  delete_entry : ℕ → Action
  -- a release by a user (`release`, `applyBulkAction`, `notSpam`, `ReleaseHeldForRecipient`): the
  -- message goes out, for an entry that was held when the request read it, then the row is written
  -- without that condition
  send_by_hand mark_released : ℕ → Action
  -- `del`, and the bulk deletion
  mark_deleted : ℕ → Action

abbrev same : Analysis → Analysis → Bool
same threat threat = true
same unavailable unavailable = true
same releasing releasing = true
same _ _ = false

-- reconciliation writes what it has decided, if the mail is still pending; a claim starts the loop
unfoldable pub write : Analysis → Hold → Hold
write d h =
    if is_pending h.analysis
    then record h { analysis = d; loop = if is_releasing d then claimed else h.loop }
    else h

-- The state after an action; an action whose request is not at that statement changes nothing.
unfoldable pub step : Action → Hold → Hold
unfolding write expire if_releasing held_from
step (enqueue j) h = record h { jobs = h.jobs ++ j ∷ [] }
step (report n r) h = record h { jobs = update (apply_report r) n h.jobs }
step read_jobs h =
    if is_pending h.analysis
    then elim (decision h.jobs) [ none ↦ h | some d ↦ record h { decided = d ∷ h.decided } ]
    else h
step (write_decision d) h = if any (same d) h.decided then write d h else h
step take_snapshot h = elim h.loop [
  | claimed ↦ record h { loop = sending (held_from 0 h.entries) }
  | _ ↦ h
]
step send_ok h = elim h.loop [
  | sending (n ∷ left) ↦ record h {
    sent = n ∷ h.sent;
    entries = update (if_held entry_released) n h.entries;
    loop = sending left;
  }
  | _ ↦ h
]
step send_failed h = elim h.loop [
  | sending (n ∷ left) ↦ record h {
    analysis = if_releasing unavailable h.analysis;
    loop = finished;
  }
  | _ ↦ h
]
step finish h = elim h.loop [
  | sending [] ↦ record h { analysis = if_releasing released h.analysis; loop = finished }
  | _ ↦ h
]
step pass_deadline h = record h { analysis = expire h.analysis }
step (delete_entry n) h = record h { entries = update (if_held entry_deleted) n h.entries }
step (send_by_hand n) h = record h { by_hand = n ∷ h.by_hand }
step (mark_released n) h = record h { entries = update (λ e. entry_released) n h.entries }
step (mark_deleted n) h = record h { entries = update (λ e. entry_deleted) n h.entries }

-- the turns of the loop for the entries left, where every message goes out, and its end
unfoldable pub run_out : List ℕ → Hold → Hold
unfolding step
run_out [] h = step finish h
run_out (n ∷ left) h = run_out left (step send_ok h)

-- The states that actions lead to.
pub data Reaches (h : Hold) : Hold → Type 0 where
  start : Reaches h h
  next : {h' : Hold} → Reaches h h' → (a : Action) → Reaches h (step a h')
