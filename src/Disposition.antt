-- ===== src/Disposition.antt =====
-- internal/mail/ingest.go: dispositions of a mail (`mail_disposition`), and the classes of reasons
-- that later stages may not override. A reason is a text, as in the source.
pub mod Tests
pub mod Reasons
use Prim.Native.String.{◌++◌}
use sentinel_mail_gateway.Prelude.{String, Bool, true, false, ◌||◌, List, [], ◌∷◌, any, str_eq}
use sentinel_mail_gateway.Strings.{has_prefix, lower, trim_space}
use sentinel_mail_gateway.Prelude.{if◌then◌else◌}

pub data Disposition : Type 0 where
  delivered tagged quarantined rejected : Disposition

-- the pair that each stage of the pipeline takes and returns
abbrev pub Outcome : Type 0
Outcome = Disposition × String

abbrev pub is_delivered : Disposition → Bool
is_delivered delivered = true
is_delivered _ = false

abbrev pub is_tagged : Disposition → Bool
is_tagged tagged = true
is_tagged _ = false

abbrev pub is_quarantined : Disposition → Bool
is_quarantined quarantined = true
is_quarantined _ = false

abbrev pub is_rejected : Disposition → Bool
is_rejected rejected = true
is_rejected _ = false

-- `disposition == "rejected" || disposition == "quarantined"`, the guard of most stages
abbrev pub is_final : Disposition → Bool
is_final rejected = true
is_final quarantined = true
is_final _ = false

unfoldable pub disposition_text : Disposition → String
disposition_text delivered = "delivered"
disposition_text tagged = "tagged"
disposition_text quarantined = "quarantined"
disposition_text rejected = "rejected"

-- challenge.ReasonPendingApproval
abbrev pub pending_approval : String
pending_approval = "pending recipient challenge-response approval"

unfoldable pub is_pending_reason : String → Bool
is_pending_reason reason = str_eq reason pending_approval

-- the prefixes that both lists of protected reasons start with
abbrev hard_prefixes : List String
hard_prefixes =
    "sender authentication" ∷ "score >= quarantine_threshold" ∷ "score >= reject_threshold"
    ∷ "cached threat intelligence hit:" ∷ "sender failed DMARC" ∷ "sender failed SPF/DKIM"
    ∷ "malware signal hit" ∷ []

abbrev learned_prefixes : List String
learned_prefixes =
    "user classified similar mail as spam" ∷ "user classified similar mail as phishing"
    ∷ "user classified similar mail as malware" ∷ []

-- the whole reasons that both lists hold
abbrev hard_reasons : List String
hard_reasons =
    "sender authentication results missing" ∷ "sender matched blacklist"
    ∷ "reputation blocklist hit" ∷ pending_approval ∷ []

unfoldable pub is_hard_gate_reason : String → Bool
is_hard_gate_reason reason =
    any (has_prefix reason) hard_prefixes || any (str_eq reason) hard_reasons

unfoldable pub is_allowlist_override_blocked_reason : String → Bool
is_allowlist_override_blocked_reason reason =
    any (has_prefix reason) hard_prefixes
    || any (has_prefix reason) learned_prefixes
    || any (str_eq reason) hard_reasons

unfoldable pub disposition_for_policy_action : String → Disposition
disposition_for_policy_action action =
    let value = lower (trim_space action) in
    if str_eq value "deliver"
    then delivered
    else if str_eq value "tag"
    then tagged
    else if str_eq value "reject"
    then rejected
    else quarantined
