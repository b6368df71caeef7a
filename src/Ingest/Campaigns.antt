-- ===== src/Ingest/Campaigns.antt =====
-- internal/mail/campaign.go: mails of one day that look alike are counted as one campaign.
pub mod Laws
use Prim.Native.Char.{Char, code}
use Prim.Native.String
use Prim.Native.String.{◌++◌}
use sentinel_mail_gateway.Prelude.{
  ℕ, zero, suc, ◌+◌, String, Bool, true, false, not, ◌&&◌, ◌||◌, Option, none, some, List, [], ◌∷◌,
  any, leb, ltb, ◌==◌, str_eq, if◌then◌else◌,
}
use sentinel_mail_gateway.Strings.{lower, trim_space, contains, has_prefix, fields, join}
use sentinel_mail_gateway.Event.{Event}
use sentinel_mail_gateway.Policy.{
  Policy, campaign_threshold, CampaignAction, aggregate, reject, discard, campaign_action,
}
use sentinel_mail_gateway.Disposition.{Disposition, Outcome, rejected, is_quarantined}
use sentinel_mail_gateway.Reputation.{email_domain}
use sentinel_mail_gateway.Threat.{ThreatClass, no_threat, challenge_response}

-- A row of mail_campaigns, less the key texts and the times.
pub record Campaign : Type 0 where
  pub organization_id : ℕ
  pub fingerprint : String
  pub bucket_date : ℕ
  pub threat_class : ThreatClass
  pub latest_disposition : Disposition
  pub message_count : ℕ
  pub suppressed_count : ℕ
  pub representative_mail_log_id : Option ℕ
  pub representative_quarantine_id : Option ℕ

-- the row that INSERT proposes
unfoldable pub new_campaign : ℕ → String → ℕ → ThreatClass → Disposition → Campaign
new_campaign organization_id fingerprint bucket_date threat_class d = record {
  organization_id = organization_id;
  fingerprint = fingerprint;
  bucket_date = bucket_date;
  threat_class = threat_class;
  latest_disposition = d;
  message_count = 1;
  suppressed_count = 0;
  representative_mail_log_id = none;
  representative_quarantine_id = none;
}

-- UNIQUE (organization_id, fingerprint, bucket_date)
unfoldable pub same_key : Campaign → Campaign → Bool
same_key a b =
    a.organization_id == b.organization_id
    && (str_eq a.fingerprint b.fingerprint && a.bucket_date == b.bucket_date)

abbrev class_or : ThreatClass → ThreatClass → ThreatClass
class_or no_threat old = old
class_or new old = new

-- DO UPDATE
unfoldable pub touch : Campaign → Campaign → Campaign
touch new old = record old {
  threat_class = class_or new.threat_class old.threat_class;
  latest_disposition = new.latest_disposition;
  message_count = suc old.message_count;
}

-- INSERT … ON CONFLICT DO UPDATE; the row's number and the row that it returns
unfoldable pub upsert : Campaign → List Campaign → List Campaign
unfolding same_key touch
upsert new [] = new ∷ []
upsert new (c ∷ cs) =
    let rest = upsert new cs in if same_key new c then touch new c ∷ cs else c ∷ rest

unfoldable pub row_of : Campaign → List Campaign → ℕ × Campaign
unfolding same_key touch
row_of new [] = (0, new)
row_of new (c ∷ cs) =
    let (n, row) = row_of new cs in if same_key new c then (0, touch new c) else (suc n, row)

-- an UPDATE of the row with a number
unfoldable pub amend : ℕ → (Campaign → Campaign) → List Campaign → List Campaign
amend n f [] = []
amend zero f (c ∷ cs) = f c ∷ cs
amend (suc n) f (c ∷ cs) = c ∷ amend n f cs

unfoldable pub high_confidence_campaign : Disposition → String → ThreatClass → Bool
high_confidence_campaign d reason challenge_response = false
high_confidence_campaign d reason threat_class =
    is_quarantined d
    && not (
        contains (lower reason) "failed spf/dkim/dmarc"
        || contains (lower reason) "authentication unavailable")

unfoldable pub has_representative : Campaign → Bool
has_representative c = elim c.representative_quarantine_id [ none ↦ false | some q ↦ true ]

abbrev pub rejected_reason : String
rejected_reason = "high-confidence campaign threshold reached; rejected by tenant policy"

abbrev pub discarded_reason : String
discarded_reason =
    "high-confidence campaign threshold reached; accepted and discarded by tenant policy"

-- the outcome under the tenant's rule, and whether the mail is a suppressed duplicate
unfoldable pub apply_campaign : Policy → Bool → Campaign → Outcome → Outcome × Bool
unfolding has_representative
apply_campaign pol high c (d, reason) =
    let duplicate = high && (ltb 1 c.message_count && has_representative c) in
    if high && leb (campaign_threshold pol) c.message_count
    then elim (campaign_action pol) [
      | aggregate ↦ ((d, reason), duplicate)
      | reject ↦ ((rejected, rejected_reason), true)
      | discard ↦ ((d, discarded_reason), ltb 1 c.message_count)
    ]
    else ((d, reason), duplicate)

module _ (is_letter is_digit : Char → Bool) where
  is_url : String → Bool
  is_url field =
      has_prefix field "http://" || (has_prefix field "https://" || has_prefix field "www.")

  normal_char : Char → String
  normal_char c =
      if is_letter c
      then String.◌∷◌ c String.[]
      else if is_digit c
      then "#"
      else if code c == 64 || (code c == 46 || (code c == 45 || code c == 95))
      then String.◌∷◌ c String.[]
      else " "

  -- A field with the space behind it, as far as `left` characters go: whether the function returns
  -- in it, the text, and what is left.
  normal_field : ℕ → String → Bool × String × ℕ
  normal_field left String.[] = (false, " ", left)
  normal_field zero (String.◌∷◌ c s) = (true, "", 0)
  normal_field (suc left) (String.◌∷◌ c s) =
      let (stop, out, left') = normal_field left s in (stop, normal_char c ++ out, left')

  normal_fields : ℕ → List String → Bool × String
  normal_fields left [] = (false, "")
  normal_fields left (field ∷ rest) =
      let (stop, out, left') = normal_field left (if is_url field then "<url>" else field) in
      let (stop', out') = normal_fields left' rest in
      if stop then (true, out) else (stop', out ++ out')

  unfoldable pub normalize_campaign_text : String → ℕ → String
  unfolding normal_fields normal_field normal_char is_url
  normalize_campaign_text value max_runes =
      let (stop, out) = normal_fields max_runes (fields (lower value)) in
      if stop then trim_space out else join " " (fields out)

  -- the fingerprint that `campaignFingerprint` returns; `digest` is sha256 in hexadecimal
  unfoldable pub campaign_fingerprint : (String → String) → Event → String
  unfolding normalize_campaign_text
  campaign_fingerprint digest ev =
      let from = lower (trim_space ev.from) in
      let recipient : String = elim ev.to [ [] ↦ "" | to ∷ rest ↦ lower (trim_space to) ] in
      digest (
        join "\0" (
          (from ++ ("|" ++ email_domain from))
          ∷ recipient
          ∷ normalize_campaign_text ev.subject 512
          ∷ digest (normalize_campaign_text ev.body_text 8192)
          ∷ []))
