-- ===== src/Ingest.antt =====
-- internal/mail/ingest.go and internal/mail/campaign.go: what `handle` stores for a mail once its
-- disposition is decided. The tables are lists in a store that is passed on; every statement is
-- taken to succeed, and a new row's number is the length of its table.
pub mod Campaigns
pub mod Scans
pub mod Tables
pub mod Laws
pub mod Held
pub mod Tests
use sentinel_mail_gateway.Prelude.{
  ℕ, suc, String, Bool, true, false, not, ◌&&◌, ◌||◌, Option, none, some, List, [], ◌∷◌, ◌++◌,
  length, any, map, if◌then◌else◌,
}
use sentinel_mail_gateway.Platform.{Platform}
use sentinel_mail_gateway.Event.{Event}
use sentinel_mail_gateway.Disposition.{Outcome, quarantined, is_quarantined, is_pending_reason}
use sentinel_mail_gateway.Brand.{brand_analysis_options_from_policy}
use sentinel_mail_gateway.Threat.{
  ThreatClass, no_threat, pending_analysis, challenge_response, classify_threat_with_profiles,
}
use sentinel_mail_gateway.Ingest.Campaigns.{
  Campaign, high_confidence_campaign, new_campaign, upsert, row_of, apply_campaign, amend,
}
use sentinel_mail_gateway.Ingest.Scans.{wanted_scans, enqueued}
use sentinel_mail_gateway.Ingest.Tables.{
  Alert, challenge_alert, quarantine_alert, QuarantineEntry, Store, Context, Filed,
  should_hold_for_deep_analysis, append_end, coalesce, is_campaign, copies,
  should_create_mailbox_copy,
}

module _ (platform : Platform) (cx : Context) where
  -- the label that goes with a disposition; `held` says that the mail waits for its scans
  unfoldable pub threat_class_of : Outcome → Bool → Event → ThreatClass
  threat_class_of (d, reason) held ev =
      if not (is_quarantined d)
      then no_threat
      else if is_pending_reason reason
      then challenge_response
      else if held
      then pending_analysis
      else classify_threat_with_profiles platform ev
          (brand_analysis_options_from_policy (some cx.policy)) (some cx.policy) cx.profiles

  -- from the hold for deep analysis to the campaign's rule; `fingerprint` is the mail's
  unfoldable pub settle_campaign : String → Outcome → Event → Store → Filed
  unfolding threat_class_of
  settle_campaign fingerprint (d, reason) ev store =
      let held = should_hold_for_deep_analysis d ev cx.deep cx.ai in
      let o : Outcome = if held then (quarantined, "pending deep analysis") else (d, reason) in
      let label = threat_class_of o held ev in
      let high = high_confidence_campaign (o.0) (o.1) label in
      let new = new_campaign cx.organization_id fingerprint cx.bucket_date label (o.0) in
      let (id, row) = row_of new store.campaigns in
      let (o', suppress) = apply_campaign cx.policy high row o in
      record {
        outcome = o';
        held = held;
        threat_class = label;
        high_confidence = high;
        campaign_id = id;
        campaign = row;
        suppress_duplicate = suppress;
      }

  -- the campaign's row, the mail log and the copies in the mailboxes
  unfoldable pub store_log : Filed → Event → Store → Store
  unfolding copies should_create_mailbox_copy
  store_log f ev store =
      let log = length store.mail_logs in
      let new =
        new_campaign cx.organization_id f.campaign.fingerprint cx.bucket_date f.threat_class
          f.campaign.latest_disposition in
      record store {
        campaigns =
            amend f.campaign_id
              (λ (c : Campaign). record c {
                representative_mail_log_id = coalesce c.representative_mail_log_id log;
                latest_disposition = f.outcome.0;
              })
              (upsert new store.campaigns);
        mail_logs = append_end store.mail_logs (record {
          campaign_id = f.campaign_id;
          campaign_copy_number = f.campaign.message_count;
          disposition = f.outcome.0;
          reason = f.outcome.1;
          analysis_pending = f.held;
        });
        mailbox =
            if should_create_mailbox_copy (f.outcome.0)
            then store.mailbox ++ copies log [] ev.to
            else store.mailbox;
      }

  abbrev campaign_of_entry : Filed → Option ℕ
  campaign_of_entry f = if f.high_confidence then some f.campaign_id else none

  -- the unique index: an entry that stands for the same campaign
  abbrev conflicts : Filed → Store → Bool
  conflicts f store =
      f.high_confidence
      && any (λ (e : QuarantineEntry). is_campaign f.campaign_id e.campaign_id) store.quarantine

  -- the alert of a new entry
  abbrev alerts_for : ThreatClass → ℕ → List Alert
  alerts_for challenge_response log = challenge_alert log ∷ []
  alerts_for pending_analysis log = []
  alerts_for _ log = quarantine_alert log ∷ []

  abbrev pub entry_of : ℕ → Filed → Event → QuarantineEntry
  entry_of log f ev = record {
    mail_log_id = log;
    to_addr = elim ev.to [ [] ↦ "" | to ∷ rest ↦ to ];
    threat_class = f.threat_class;
    campaign_id = campaign_of_entry f;
  }

  -- the quarantine entry with its alert; `log` is the mail log's number
  unfoldable pub store_entry : ℕ → Filed → Event → Store → Store
  store_entry log f ev store = record store {
    quarantine = append_end store.quarantine (entry_of log f ev);
    campaigns =
        amend f.campaign_id
          (λ (c : Campaign). record c {
            representative_quarantine_id =
                coalesce c.representative_quarantine_id (length store.quarantine);
          })
          store.campaigns;
    alerts = store.alerts ++ alerts_for f.threat_class log;
  }

  -- whether the mail is a suppressed duplicate in the end
  unfoldable pub is_suppressed : Filed → Store → Bool
  is_suppressed f store =
      f.suppress_duplicate || (is_quarantined (f.outcome.0) && conflicts f store)

  -- the jobs of a mail that is no suppressed duplicate; the count of one that is
  unfoldable pub store_scans : ℕ → Filed → Event → Store → Store
  store_scans log f ev store = record store {
    scans =
        store.scans
        ++ map (λ (kind : String). (log, kind))
            (enqueued cx.accepts 0 (wanted_scans platform cx.ai (f.outcome.0) ev));
  }

  unfoldable pub count_suppressed : Filed → Store → Store
  count_suppressed f store = record store {
    campaigns =
        amend f.campaign_id
          (λ (c : Campaign). record c { suppressed_count = suc c.suppressed_count })
          store.campaigns;
  }

  -- the rows of a mail that is settled
  unfoldable pub store_mail : Filed → Event → Store → Store
  unfolding store_log store_entry is_suppressed store_scans count_suppressed
  store_mail f ev store =
      let log = length store.mail_logs in
      let logged = store_log f ev store in
      if is_suppressed f logged
      then count_suppressed f logged
      else if is_quarantined (f.outcome.0)
      then store_scans log f ev (store_entry log f ev logged)
      else store_scans log f ev logged

  -- everything that `handle` stores for a mail with this outcome of the decision stages
  unfoldable pub file_mail : String → Outcome → Event → Store → Filed × Store
  unfolding settle_campaign store_mail
  file_mail fingerprint o ev store =
      let f = settle_campaign fingerprint o ev store in (f, store_mail f ev store)
