-- ===== src/Ingest/Tables.antt =====
-- internal/mail/ingest.go: the rows that `handle` writes, the mailbox copies, and when a mail is held
-- for deep analysis.
use sentinel_mail_gateway.Prelude.{
  ℕ, String, Bool, false, ◌&&◌, ◌||◌, Option, none, some, List, [], ◌∷◌, length, any, leb_ℤ, ◌==◌,
  str_eq, if◌then◌else◌,
}
use sentinel_mail_gateway.Strings.{lower, trim_space, equal_fold}
use sentinel_mail_gateway.Event.{Event, Score}
use sentinel_mail_gateway.Policy.{Policy}
use sentinel_mail_gateway.Disposition.{Disposition, Outcome, is_delivered, is_tagged}
use sentinel_mail_gateway.Brand.Profiles.{ProtectedBrandProfile}
use sentinel_mail_gateway.Threat.{ThreatClass}
use sentinel_mail_gateway.Ingest.Campaigns.{Campaign}
use sentinel_mail_gateway.Ingest.Scans.{AiConfig}

-- settings.DeepAnalysisConfig
pub record DeepAnalysisConfig : Type 0 where
  pub enabled : Bool
  pub min_score : Score

unfoldable pub deep_analysis_eligible : Disposition → Event → DeepAnalysisConfig → AiConfig → Bool
deep_analysis_eligible d ev config ai =
    length ev.to == 1
    && (equal_fold ev.direction "inbound"
        && (is_tagged d
            && (config.enabled
                && (leb_ℤ config.min_score ev.score
                    && (ai.available && (str_eq ai.mode "suspicious" || str_eq ai.mode "all"))))))

unfoldable pub should_hold_for_deep_analysis :
    Disposition → Event → DeepAnalysisConfig → AiConfig → Bool
unfolding deep_analysis_eligible
should_hold_for_deep_analysis d ev config ai =
    equal_fold ev.direction "inbound" && (is_tagged d && deep_analysis_eligible d ev config ai)

pub record MailLog : Type 0 where
  pub campaign_id : ℕ
  pub campaign_copy_number : ℕ
  pub disposition : Disposition
  pub reason : String
  pub analysis_pending : Bool

pub record QuarantineEntry : Type 0 where
  pub mail_log_id : ℕ
  pub to_addr : String
  pub threat_class : ThreatClass
  pub campaign_id : Option ℕ

pub data Alert : Type 0 where
  challenge_alert quarantine_alert : ℕ → Alert

-- The tables that `handle` writes; a row's number is its place.
pub record Store : Type 0 where
  pub campaigns : List Campaign
  pub mail_logs : List MailLog
  -- the mail log and the recipient of a mailbox message
  pub mailbox : List (ℕ × String)
  pub quarantine : List QuarantineEntry
  -- the mail log and the kind of a scan job
  pub scans : List (ℕ × String)
  pub alerts : List Alert

-- What `handle` knows before it stores anything.
pub record Context : Type 0 where
  pub policy : Policy
  pub profiles : List ProtectedBrandProfile
  pub organization_id : ℕ
  pub bucket_date : ℕ
  pub deep : DeepAnalysisConfig
  pub ai : AiConfig
  -- whether a queue takes the n-th job of the mail
  pub accepts : ℕ → Bool

abbrev pub append_end {ℓ} : {A : Type ℓ} → List A → A → List A
append_end [] a = a ∷ []
append_end (x ∷ xs) a = x ∷ append_end xs a

abbrev pub coalesce : Option ℕ → ℕ → Option ℕ
coalesce none n = some n
coalesce (some m) n = some m

abbrev pub is_campaign : ℕ → Option ℕ → Bool
is_campaign n none = false
is_campaign n (some m) = m == n

-- the loop of `insertMailboxCopies` over the recipients, `seen` holds those who have a copy
unfoldable pub copies : ℕ → List String → List String → List (ℕ × String)
copies log seen [] = []
copies log seen (to ∷ rest) =
    let addr = lower (trim_space to) in
    let skip = copies log seen rest in
    let store = (log, addr) ∷ copies log (addr ∷ seen) rest in
    if str_eq addr "" || any (str_eq addr) seen then skip else store

unfoldable pub should_create_mailbox_copy : Disposition → Bool
should_create_mailbox_copy d = is_delivered d || is_tagged d

-- The row that `handle` files for a mail, and what it has decided about it.
pub record Filed : Type 0 where
  pub outcome : Outcome
  pub held : Bool
  pub threat_class : ThreatClass
  pub high_confidence : Bool
  pub campaign_id : ℕ
  pub campaign : Campaign
  pub suppress_duplicate : Bool
