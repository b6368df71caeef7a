-- ===== src/Policy.antt =====
-- internal/policies/policies.go: the policy row and its settings.
pub mod Tests
pub mod Laws
pub mod Resolve
use Prim.Native.String
use Prim.Native.Char.{code}
use Prim.Native.Nat.{◌/◌}
use Prim.Native.String.{◌++◌}
use sentinel_mail_gateway.Prelude.{
  ℕ, zero, ◌+◌, ◌-◌, ◌*◌, String, Bool, true, false, ◌&&◌, ◌||◌, Option, none, some, ltb, leb, ◌==◌,
  ℤ, pos, negsuc, str_eq, if◌then◌else◌,
}
use sentinel_mail_gateway.Strings.{lower, trim_space}
use sentinel_mail_gateway.Event.{Value, bool, num, str, Fields, get_field, Score}

pub record Policy : Type 0 where
  pub id : ℕ
  pub organization_id : Option ℕ
  pub domain_id : Option ℕ
  pub name : String
  pub spam_threshold : Score
  pub quarantine_threshold : Score
  pub reject_threshold : Score
  pub quarantine_action : String
  pub settings : Fields
  pub is_default : Bool
  pub updated_at : ℕ

-- `boolSetting`: the settings object is never null in the model; a null one has no keys
unfoldable pub bool_setting : Policy → String → Bool → Bool
unfolding get_field
bool_setting p key fallback = elim (get_field key p.settings) [
  | none ↦ fallback
  | some (bool b) ↦ b
  | some (str s) ↦
      if str_eq s "false" || str_eq s "0" || str_eq s "off"
      then false
      else if str_eq s "true" || str_eq s "1" || str_eq s "on"
      then true
      else fallback
  | some _ ↦ fallback
]

unfoldable pub sender_blacklist_enabled : Policy → Bool
unfolding bool_setting
sender_blacklist_enabled p = bool_setting p "sender_blacklist_enabled" true

unfoldable pub challenge_response_enabled : Policy → Bool
unfolding bool_setting
challenge_response_enabled p = bool_setting p "challenge_response_enabled" false

unfoldable pub challenge_response_require_verified_source : Policy → Bool
unfolding bool_setting
challenge_response_require_verified_source p =
    bool_setting p "challenge_response_require_verified_source" true

unfoldable pub brand_impersonation_enabled : Policy → Bool
unfolding bool_setting
brand_impersonation_enabled p = bool_setting p "brand_impersonation_enabled" true

unfoldable pub brand_impersonation_display_name_enabled : Policy → Bool
unfolding bool_setting
brand_impersonation_display_name_enabled p =
    bool_setting p "brand_impersonation_display_name_enabled" true

unfoldable pub brand_impersonation_subject_enabled : Policy → Bool
unfolding bool_setting
brand_impersonation_subject_enabled p = bool_setting p "brand_impersonation_subject_enabled" true

unfoldable pub brand_impersonation_link_mismatch_enabled : Policy → Bool
unfolding bool_setting
brand_impersonation_link_mismatch_enabled p =
    bool_setting p "brand_impersonation_link_mismatch_enabled" true

unfoldable pub brand_impersonation_third_party_receipts_enabled : Policy → Bool
unfolding bool_setting
brand_impersonation_third_party_receipts_enabled p =
    bool_setting p "brand_impersonation_third_party_receipts_enabled" true

unfoldable pub common_scam_detection_enabled : Policy → Bool
unfolding bool_setting
common_scam_detection_enabled p = bool_setting p "common_scam_detection_enabled" true

unfoldable pub common_scam_category_enabled : Policy → String → Bool
unfolding bool_setting
common_scam_category_enabled p slug = bool_setting p ("common_scam_" ++ (slug ++ "_enabled")) true

-- decimal digits behind `n`, with no bound; `none` at any other character
digits_from : ℕ → String → Option ℕ
digits_from n String.[] = some n
digits_from n (String.◌∷◌ c s) =
    let rest = digits_from (n * 10 + (code c - 48)) s in
    if leb 48 (code c) && leb (code c) 57 then rest else none

or_zero : Option ℕ → ℕ
or_zero none = 0
or_zero (some n) = n

-- strconv.Atoi with its error read as 0, as far as the caller tells: a negative number is below 2,
-- and one that does not fit an int is above 10,000, as the value that Atoi returns then is.
atoi : String → ℕ
unfolding digits_from or_zero
atoi String.[] = 0
atoi (String.◌∷◌ c String.[]) = or_zero (digits_from 0 (String.◌∷◌ c String.[]))
atoi (String.◌∷◌ c (String.◌∷◌ d s)) =
    if code c == 43
    then or_zero (digits_from 0 (String.◌∷◌ d s))
    else or_zero (digits_from 0 (String.◌∷◌ c (String.◌∷◌ d s)))

-- the value that the switch on the setting's type assigns; the conversion of a float truncates
threshold_value : Value → ℕ
unfolding atoi
threshold_value (num (pos n)) = n / 1000
threshold_value (str s) = atoi (trim_space s)
threshold_value _ = 0

unfoldable pub campaign_threshold : Policy → ℕ
unfolding get_field threshold_value
campaign_threshold p = elim (get_field "campaign_threshold" p.settings) [
  | none ↦ 25
  | some raw ↦
      let value = threshold_value raw in if ltb value 2 || ltb 10000 value then 25 else value
]

pub data CampaignAction : Type 0 where
  aggregate reject discard : CampaignAction

action_of_text : String → CampaignAction
action_of_text value =
    if str_eq value "reject" then reject else if str_eq value "discard" then discard else aggregate

unfoldable pub campaign_action : Policy → CampaignAction
unfolding get_field action_of_text
campaign_action p = elim (get_field "campaign_action" p.settings) [
  | some (str s) ↦ action_of_text (lower (trim_space s))
  | _ ↦ aggregate
]
