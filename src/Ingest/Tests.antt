-- ===== src/Ingest/Tests.antt =====
-- Two mails that look alike, filed one after the other.
use sentinel_mail_gateway.Sandbox.{prioritized_sandbox_urls}
use sentinel_mail_gateway.Strings.{
  contains, contains_any, equal_fold, has_prefix, lower, trim_space,
}
use sentinel_mail_gateway.Prelude.{
  ℕ, ◌+◌, String, Bool, true, false, ◌≡◌, refl, [], ◌∷◌, length, pos,
}
use sentinel_mail_gateway.Samples.{small_platform, plain_mail, common_policy}
use sentinel_mail_gateway.Event.{Event, str, field, end}
use sentinel_mail_gateway.Policy.{Policy, campaign_action, campaign_threshold}
use sentinel_mail_gateway.Disposition.{tagged, quarantined, is_rejected, is_pending_reason}
use sentinel_mail_gateway.Threat.{phishing}
use sentinel_mail_gateway.Ingest.Scans.{AiConfig, wanted_scans, enqueue_all, enqueued}
use sentinel_mail_gateway.Ingest.Scans.Laws.{one_if, some_failure, enqueue_all-reported}
use sentinel_mail_gateway.Ingest.Campaigns.{
  Campaign, new_campaign, apply_campaign, row_of, high_confidence_campaign,
}
use sentinel_mail_gateway.Ingest.Tables.{Context, Store, should_hold_for_deep_analysis}
use sentinel_mail_gateway.Ingest.{file_mail}
use sentinel_mail_gateway.Ingest.Laws.{is_discard, IsAccounted, file_mail-IsAccounted}

abbrev ai_on : AiConfig
ai_on = record { mode = "all"; available = true }

abbrev holding : Context
holding = record {
  policy = common_policy;
  profiles = [];
  organization_id = 1;
  bucket_date = 20;
  deep = record { enabled = true; min_score = pos 4000 };
  ai = ai_on;
  accepts = λ n. true;
}

abbrev empty_store : Store
empty_store = record {
  campaigns = [];
  mail_logs = [];
  mailbox = [];
  quarantine = [];
  scans = [];
  alerts = [];
}

abbrev doubtful_mail : Event
doubtful_mail = record plain_mail { score = pos 6500 }

test_keeps : is_discard (campaign_action common_policy) ≡ false
unfolding campaign_action
test_keeps = refl

-- the first of the two
abbrev one_held : Store
one_held =
    (file_mail small_platform holding "f" (tagged, "score >= spam_threshold") doubtful_mail
      empty_store).1

test_one_entry : length one_held.quarantine ≡ 1
unfolding file_mail apply_campaign high_confidence_campaign should_hold_for_deep_analysis equal_fold
    is_pending_reason contains campaign_threshold row_of new_campaign
test_one_entry = refl

test_one_scans : one_held.scans ≡ (0, "ai") ∷ (0, "sandbox") ∷ []
unfolding file_mail apply_campaign high_confidence_campaign should_hold_for_deep_analysis equal_fold
    is_pending_reason contains campaign_threshold row_of new_campaign enqueued wanted_scans
    prioritized_sandbox_urls has_prefix trim_space contains_any
test_one_scans = refl

file_mail-IsAccounted_example :
    IsAccounted small_platform holding doubtful_mail
      ((file_mail small_platform holding "f"
        (tagged, "score >= spam_threshold")
        doubtful_mail
        empty_store).0)
      empty_store
      one_held
file_mail-IsAccounted_example =
    file_mail-IsAccounted small_platform holding "f" tagged "score >= spam_threshold" doubtful_mail
      empty_store test_keeps

abbrev accepts_none : ℕ → Bool
accepts_none n = false

-- no job is enqueued, and one is reported
test_report : enqueue_all accepts_none 0 false ("ai" ∷ "qr" ∷ []) ≡ ("qr" ∷ [], true)
unfolding enqueue_all
test_report = refl

enqueue_all-reported_example :
    length ((enqueue_all accepts_none 0 false ("ai" ∷ "qr" ∷ [])).0)
      + one_if (some_failure accepts_none 0 ("ai" ∷ "qr" ∷ []))
    ≡ length {A = String} ("ai" ∷ "qr" ∷ [])
enqueue_all-reported_example = enqueue_all-reported accepts_none ("ai" ∷ "qr" ∷ [])

abbrev row_f : Campaign
row_f = new_campaign 1 "f" 20 phishing quarantined

abbrev row_g : Campaign
row_g = new_campaign 1 "g" 20 phishing quarantined

test_first_row : row_f.message_count ≡ 1
unfolding new_campaign
test_first_row = refl

abbrev rejecting : Policy
rejecting = record common_policy { settings = field "campaign_action" (str "reject") end }

abbrev big_campaign : Campaign
big_campaign = record row_f { message_count = 25 }

test_rejects :
    is_rejected
      ((apply_campaign rejecting true big_campaign (quarantined, "phishing signal hit")).0.0)
    ≡ true
unfolding apply_campaign campaign_threshold campaign_action lower trim_space
test_rejects = refl
