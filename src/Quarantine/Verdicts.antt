-- ===== src/Quarantine/Verdicts.antt =====
-- What a verdict on an entry writes: its class, its state, a report, and samples for the classifier.
use sentinel_mail_gateway.Prelude.{
  ℕ, String, Bool, false, not, ◌&&◌, ◌||◌, Option, none, some, List, any, keep, ◌==◌, str_eq,
  if◌then◌else◌, ◌⊎◌, inl, inr,
}
use sentinel_mail_gateway.Strings.{lower, upper, trim_space, contains}
use sentinel_mail_gateway.Learning.{Sample, insert_or_merge}
use sentinel_mail_gateway.Learning.Keys.{sender_domain_key, subject_fingerprint}
use sentinel_mail_gateway.Quarantine.{
  EntryState, deleted, is_held, Entry, Report, Store, Caller, change_entry,
}
use sentinel_mail_gateway.Quarantine.Delivery.{text_or_empty}

unfoldable pub normalize_quarantine_verdict : String → String
normalize_quarantine_verdict v = lower (trim_space v)

unfoldable pub valid_quarantine_verdict : String → Bool
valid_quarantine_verdict v = any (str_eq v) (
    List.◌∷◌ "not_spam"
      (List.◌∷◌ "spam" (List.◌∷◌ "phishing" (List.◌∷◌ "malware" (List.◌∷◌ "other" List.[])))))

unfoldable pub quarantine_threat_class : String → String
unfolding normalize_quarantine_verdict
quarantine_threat_class verdict =
    let v = normalize_quarantine_verdict verdict in
    if str_eq v "not_spam"
    then "NOT_SPAM"
    else if str_eq v "phishing"
    then "PHISHING"
    else if str_eq v "malware"
    then "MALWARE"
    else if str_eq v "other"
    then "OTHER"
    else "SPAM"

unfoldable pub verdict_of_class : String → String
verdict_of_class class =
    let c = upper (trim_space class) in
    if str_eq c "NOT_SPAM"
    then "not_spam"
    else if str_eq c "MALWARE"
    then "malware"
    else if str_eq c "PHISHING"
    then "phishing"
    else if str_eq c "OTHER"
    then "other"
    else "spam"

unfoldable pub current_entry_verdict : Entry → String
unfolding verdict_of_class
current_entry_verdict e = elim e.threat_class [
  | none ↦ "spam"
  | some class ↦ verdict_of_class class
]

-- the UPDATE of recordQuarantineVerdict, for a verdict in its normal form
unfoldable pub classed_state : String → EntryState → EntryState
unfolding is_held
classed_state verdict s = if not (str_eq verdict "not_spam") && is_held s then deleted else s

unfoldable pub to_class : String → Entry → Entry
unfolding quarantine_threat_class classed_state
to_class verdict e = record e {
  threat_class = some (quarantine_threat_class verdict);
  state = classed_state verdict e.state;
}

-- phishingreports: one report for an entry
unfoldable pub reportable_user_verdict : String → Bool
reportable_user_verdict v = str_eq v "phishing" || str_eq v "malware"

unfoldable pub put_report : Report → List Report → List Report
put_report r rs = List.◌∷◌ r (keep (λ (q : Report). not (q.entry_id == r.entry_id)) rs)

unfoldable pub record_from_quarantine : ℕ → String → ℕ → Store → Store
unfolding reportable_user_verdict put_report
record_from_quarantine id verdict reporter db =
    if reportable_user_verdict (lower (trim_space verdict))
    then record db {
      reports =
          put_report
            (record { entry_id = id; verdict = lower (trim_space verdict); reporter = reporter })
            db.reports;
    }
    else db

-- `recordQuarantineVerdict`
unfoldable pub record_quarantine_verdict : Caller → Entry → String → Store → String ⊎ Store
unfolding normalize_quarantine_verdict valid_quarantine_verdict to_class change_entry
    record_from_quarantine
record_quarantine_verdict c e verdict db =
    let v = normalize_quarantine_verdict verdict in
    if str_eq v "" || not (valid_quarantine_verdict v)
    then inl "invalid verdict"
    else inr (record_from_quarantine e.id v c.user_id (change_entry (to_class v) e.id db))

unfoldable pub sample_for : Entry → String → String → String → Sample
sample_for e from verdict fingerprint = record {
  organization_id = e.organization_id;
  user_email = lower (trim_space e.to_addr);
  from_addr = from;
  subject_fingerprint = fingerprint;
  verdict = verdict;
  sample_count = 1;
}

unfoldable pub add_sample : Sample → Store → Store
unfolding insert_or_merge
add_sample s db = record db { samples = insert_or_merge s db.samples }

-- `recordQuarantineClassification`
unfoldable pub record_quarantine_classification : Entry → String → String → Store → Store
unfolding sample_for add_sample normalize_quarantine_verdict text_or_empty subject_fingerprint
    sender_domain_key
record_quarantine_classification e sender verdict db =
    let v = normalize_quarantine_verdict verdict in
    let v' = if str_eq v "" || str_eq v "not_spam" then "spam" else v in
    let fingerprint = subject_fingerprint (text_or_empty e.subject) in
    let own = add_sample (sample_for e sender v' fingerprint) db in
    let both = if str_eq fingerprint "" then own else add_sample (sample_for e sender v' "") own in
    let pattern = sender_domain_key sender in
    if str_eq pattern "" then both else add_sample (sample_for e pattern v' "") both

-- the DELETE of recordQuarantineNotSpam
unfoldable pub is_sender_sample : Entry → String → Sample → Bool
unfolding sender_domain_key
is_sender_sample e sender s =
    s.organization_id == e.organization_id
    && (str_eq (lower s.user_email) (lower (trim_space e.to_addr))
        && ((str_eq (lower s.from_addr) (lower (trim_space sender))
              || str_eq (lower s.from_addr) (sender_domain_key sender))
            && str_eq s.subject_fingerprint ""))

unfoldable pub forget_sender : Entry → String → Store → Store
unfolding is_sender_sample
forget_sender e sender db = record db {
  samples = keep (λ s. not (is_sender_sample e sender s)) db.samples;
}

-- `recordQuarantineNotSpam`
unfoldable pub record_quarantine_not_spam : Caller → Entry → String → Store → String ⊎ Store
unfolding sample_for add_sample text_or_empty subject_fingerprint forget_sender
    record_quarantine_verdict
record_quarantine_not_spam c e sender db =
    let fingerprint = subject_fingerprint (text_or_empty e.subject) in
    let own =
      if str_eq fingerprint ""
      then db
      else add_sample (sample_for e sender "not_spam" fingerprint) db in
    record_quarantine_verdict c e "not_spam" (forget_sender e sender own)

-- `finishSenderBlock`
unfoldable pub finish_sender_block : Caller → Entry → String → String → Store → String ⊎ Store
unfolding record_quarantine_classification record_quarantine_verdict
finish_sender_block c e sender verdict db =
    record_quarantine_verdict c e verdict (record_quarantine_classification e sender verdict db)

-- `normalizedSenderAddress`, where `parse` is mail.ParseAddress
unfoldable pub parsed_or_value : Option String → String → String
parsed_or_value none value = value
parsed_or_value (some addr) value = if str_eq addr "" then value else addr

unfoldable pub is_address : Option String → String → Bool
is_address none value = false
is_address (some _) value = contains value "@"

unfoldable pub normalized_sender_address :
    (String → Option String) → Option String → String ⊎ String
unfolding parsed_or_value is_address text_or_empty
normalized_sender_address parse from =
    let raw = trim_space (text_or_empty from) in
    let value = lower (trim_space (parsed_or_value (parse raw) raw)) in
    if str_eq raw ""
    then inl "message has no sender address"
    else if not (is_address (parse value) value)
    then inl "sender address is invalid"
    else inr value
