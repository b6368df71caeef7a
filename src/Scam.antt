-- ===== src/Scam.antt =====
-- internal/classifier/classifier.go: `AnalyzeCommonScam` labels a mail by the first of its lures.
-- The label decides; the warning and the links that come with it are fixed texts and are left out.
pub mod Health
pub mod Lures
pub mod Tests
use Prim.Native.Char.{Char, code}
use Prim.Native.String
use sentinel_mail_gateway.Prelude.{String, Bool, true, false, List, [], ◌∷◌, if◌then◌else◌}
use sentinel_mail_gateway.Strings.{lower, in_set}
use Health.{is_health_lead_generation_spam}
use Lures.{
  looks_credential_phishing, looks_wallet_access_phishing, looks_package_delivery_scam,
  looks_business_email_compromise, looks_payment_scam, looks_payment_support_scam,
  looks_reward_refund_scam, looks_tax_document_phishing, looks_investment_scam,
  looks_medical_miracle_scam, looks_health_miracle_spam, looks_home_services_lead_gen_spam,
  looks_job_scam, looks_tech_support_scam, looks_malware_lure,
}

pub data EmailType : Type 0 where
  credential_phishing wallet_access_phishing package_delivery_scam business_email_compromise
        payment_scam payment_support_scam reward_refund_scam tax_document_phishing investment_scam
        medical_miracle_scam health_miracle_spam health_lead_generation_spam
        home_services_lead_gen_spam job_scam tech_support_scam malware_lure :
      EmailType
  clean : EmailType

unfoldable pub email_type_text : EmailType → String
email_type_text credential_phishing = "Credential phishing"
email_type_text wallet_access_phishing = "Wallet access phishing"
email_type_text package_delivery_scam = "Package delivery scam"
email_type_text business_email_compromise = "Business email compromise"
email_type_text payment_scam = "Payment scam"
email_type_text payment_support_scam = "Payment support scam"
email_type_text reward_refund_scam = "Reward/refund scam"
email_type_text tax_document_phishing = "Tax document phishing"
email_type_text investment_scam = "Investment scam"
email_type_text medical_miracle_scam = "Medical miracle scam"
email_type_text health_miracle_spam = "Health miracle spam"
email_type_text health_lead_generation_spam = "Health lead-generation spam"
email_type_text home_services_lead_gen_spam = "Home services lead-gen spam"
email_type_text job_scam = "Job scam"
email_type_text tech_support_scam = "Tech support scam"
email_type_text malware_lure = "Malware lure"
email_type_text clean = "Clean or uncategorized"

-- `normalizeSuspiciousText`: look-alike letters, by the Latin letter that replaces them
abbrev homoglyphs : List (String × String)
homoglyphs =
    ("ΑАᎪ", "A")
    ∷ ("ΒВ", "B")
    ∷ ("СϹ", "C")
    ∷ ("ЕΕ", "E")
    ∷ ("ΗН", "H")
    ∷ ("ΙІ", "I")
    ∷ ("ΚК", "K")
    ∷ ("ΜМ", "M")
    ∷ ("Ν", "N")
    ∷ ("ΟО", "O")
    ∷ ("ΡР", "P")
    ∷ ("ΤТ", "T")
    ∷ ("ΧХ", "X")
    ∷ ("ΥУ", "Y")
    ∷ ("ΖᏃ", "Z")
    ∷ ("Ԝ", "W")
    ∷ ("аα", "a")
    ∷ ("сϲ", "c")
    ∷ ("ԁ", "d")
    ∷ ("е", "e")
    ∷ ("һ", "h")
    ∷ ("іι", "i")
    ∷ ("ј", "j")
    ∷ ("κ", "k")
    ∷ ("ӏ", "l")
    ∷ ("м", "m")
    ∷ ("ո", "n")
    ∷ ("оο", "o")
    ∷ ("р", "p")
    ∷ ("ѕ", "s")
    ∷ ("τ", "t")
    ∷ ("υ", "u")
    ∷ ("ѵ", "v")
    ∷ ("ԝ", "w")
    ∷ ("х", "x")
    ∷ ("у", "y")
    ∷ []

-- the text of one rune of strings.Map
mapped : List (String × String) → Char → String
mapped [] c = String.◌∷◌ c String.[]
mapped ((runes, letter) ∷ rest) c = if in_set runes c then letter else mapped rest c

map_runes : String → String
map_runes String.[] = String.[]
map_runes (String.◌∷◌ c s) = String.◌++◌ (mapped homoglyphs c) (map_runes s)

unfoldable pub normalize_suspicious_text : String → String
unfolding map_runes mapped in_set
normalize_suspicious_text value = lower (map_runes value)

-- the switch, on the normalised text
unfoldable pub scam_of_text : String → EmailType
scam_of_text text =
    if looks_credential_phishing text
    then credential_phishing
    else if looks_wallet_access_phishing text
    then wallet_access_phishing
    else if looks_package_delivery_scam text
    then package_delivery_scam
    else if looks_business_email_compromise text
    then business_email_compromise
    else if looks_payment_scam text
    then payment_scam
    else if looks_payment_support_scam text
    then payment_support_scam
    else if looks_reward_refund_scam text
    then reward_refund_scam
    else if looks_tax_document_phishing text
    then tax_document_phishing
    else if looks_investment_scam text
    then investment_scam
    else if looks_medical_miracle_scam text
    then medical_miracle_scam
    else if looks_health_miracle_spam text
    then health_miracle_spam
    else if is_health_lead_generation_spam text
    then health_lead_generation_spam
    else if looks_home_services_lead_gen_spam text
    then home_services_lead_gen_spam
    else if looks_job_scam text
    then job_scam
    else if looks_tech_support_scam text
    then tech_support_scam
    else if looks_malware_lure text
    then malware_lure
    else clean

unfoldable pub analyze_common_scam : String → String → EmailType
unfolding normalize_suspicious_text scam_of_text
analyze_common_scam subject body =
    scam_of_text (normalize_suspicious_text (String.◌++◌ subject (String.◌++◌ "\n" body)))
