-- ===== src/Learning.antt =====
-- internal/classifier/classifier.go: the verdicts that users give on mails, and what they say about
-- later mails. The table user_mail_classifications is a list of rows; its unique index allows one
-- row for each key, so that the order of a query's rows does not matter.
pub mod Keys
pub mod Laws
pub mod Tests
pub mod Verdicts
pub mod Pardons
use sentinel_mail_gateway.Prelude.{
  ℕ, suc, String, Bool, true, false, not, ◌&&◌, ◌||◌, Option, none, some, List, [], ◌∷◌, any, keep,
  leb, ◌==◌, str_eq, if◌then◌else◌,
}
use sentinel_mail_gateway.Strings.{lower, trim_space}
use sentinel_mail_gateway.Decision.{Match}
use sentinel_mail_gateway.Learning.Keys.{normalize_email, sender_domain_key, subject_fingerprint}

-- a row of user_mail_classifications: its key, the verdict and the count
pub record Sample : Type 0 where
  pub organization_id : ℕ
  pub user_email : String
  pub from_addr : String
  pub subject_fingerprint : String
  pub verdict : String
  pub sample_count : ℕ

-- what `Learn` reads of an Observation
pub record Observation : Type 0 where
  pub organization_id : ℕ
  pub user_email : String
  pub from_addr : String
  pub subject : String
  pub verdict : String

-- a row for a key whose addresses are in lower case
unfoldable pub matches : ℕ → String → String → String → Sample → Bool
matches org user from fingerprint r =
    r.organization_id == org
    && (str_eq (lower r.user_email) user
        && (str_eq (lower r.from_addr) from && str_eq r.subject_fingerprint fingerprint))

-- ON CONFLICT … DO UPDATE, for the row that INSERT proposes
unfoldable pub merge : Sample → Sample → Sample
merge new old = record old { verdict = new.verdict; sample_count = suc old.sample_count }

unfoldable pub conflicts_with : Sample → Sample → Bool
unfolding matches
conflicts_with new r =
    matches new.organization_id (lower new.user_email) (lower new.from_addr) new.subject_fingerprint
      r

unfoldable pub insert_or_merge : Sample → List Sample → List Sample
unfolding merge conflicts_with
insert_or_merge new [] = new ∷ []
insert_or_merge new (r ∷ rs) =
    let rest = insert_or_merge new rs in if conflicts_with new r then merge new r ∷ rs else r ∷ rest

-- `upsert`
unfoldable pub sample_of : Observation → String → String → String → Sample
sample_of obs from verdict fingerprint = record {
  organization_id = obs.organization_id;
  user_email = normalize_email obs.user_email;
  from_addr = normalize_email from;
  subject_fingerprint = fingerprint;
  verdict = verdict;
  sample_count = 1;
}

unfoldable pub is_threat_label : String → Bool
is_threat_label verdict = any (str_eq verdict) ("spam" ∷ "phishing" ∷ "malware" ∷ [])

unfoldable pub should_learn_sender_level : String → String → String → Bool
unfolding is_threat_label
should_learn_sender_level verdict fingerprint from_addr =
    not (str_eq fingerprint "" || str_eq (normalize_email from_addr) "") && is_threat_label verdict

-- the rows that a "not spam" verdict deletes: those of the sender, or of its domain, for any subject
unfoldable pub is_sender_level : Observation → Sample → Bool
unfolding matches
is_sender_level obs r =
    matches obs.organization_id (normalize_email obs.user_email) (normalize_email obs.from_addr) ""
      r
    || matches obs.organization_id (normalize_email obs.user_email)
        (sender_domain_key obs.from_addr) "" r

unfoldable pub learn : Observation → List Sample → List Sample
unfolding insert_or_merge sample_of should_learn_sender_level is_sender_level
learn obs table =
    let verdict = lower (trim_space obs.verdict) in
    let fingerprint = subject_fingerprint obs.subject in
    let own = insert_or_merge (sample_of obs obs.from_addr verdict fingerprint) table in
    let sender = insert_or_merge (sample_of obs obs.from_addr verdict "") own in
    let domain = sender_domain_key obs.from_addr in
    if str_eq verdict "" || str_eq verdict "unreviewed"
    then table
    else if str_eq verdict "not_spam"
    then keep (λ r. not (is_sender_level obs r)) own
    else if should_learn_sender_level verdict fingerprint obs.from_addr
    then (if str_eq domain ""
        then sender
        else insert_or_merge (sample_of obs domain verdict "") sender)
    else own

-- the first row that passes a test
unfoldable pub find : (Sample → Bool) → List Sample → Option Match
find test [] = none
find test (r ∷ rs) =
    let rest = find test rs in
    if test r then some (record { verdict = r.verdict; sample_count = r.sample_count }) else rest

-- `lookup` with `threatOnly`, and `lookupDomain`
abbrev pub threat_row : ℕ → String → String → Sample → Bool
threat_row org user from r = matches org user from "" r && is_threat_label r.verdict

abbrev pub domain_row : ℕ → String → String → Sample → Bool
domain_row org user from r = threat_row org user from r && leb 2 r.sample_count

unfoldable pub lookup : List Sample → ℕ → String → String → String → Option Match
unfolding find matches is_threat_label
lookup table org user_email from_addr subject =
    let user = normalize_email user_email in
    let from = normalize_email from_addr in
    let fingerprint = subject_fingerprint subject in
    let domain = sender_domain_key from_addr in
    let by_domain = if str_eq domain "" then none else find (domain_row org user domain) table in
    elim (find (matches org user from fingerprint) table) [
      | some m ↦ some m
      | none ↦
          if str_eq fingerprint ""
          then by_domain
          else elim (find (threat_row org user from) table) [ some m ↦ some m | none ↦ by_domain ]
    ]
