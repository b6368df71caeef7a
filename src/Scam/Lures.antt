-- ===== src/Scam/Lures.antt =====
-- internal/classifier/classifier.go: the tests of `AnalyzeCommonScam`, one for each case, over the
-- normalised text.
use Prim.Native.Char.{code}
use Prim.Native.String.{slice, len}
use sentinel_mail_gateway.Prelude.{String, Bool, false, not, ◌&&◌, ◌||◌, [], ◌∷◌, leb, ◌==◌}
use sentinel_mail_gateway.Strings.{contains_any, has_prefix}

-- the characters of `\b` in a regular expression: a word is [0-9A-Za-z_]+
is_word : String → Bool
is_word String.[] = false
is_word (String.◌∷◌ c s) =
    let n = code c in
    (leb 48 n && leb n 57) || (leb 65 n && leb n 90) || (leb 97 n && leb n 122) || n == 95

-- `after_word` says whether the character before `s` is a word's
locked_from : Bool → String → Bool
locked_from after_word String.[] = false
locked_from after_word (String.◌∷◌ c s) =
    (not after_word
      && (has_prefix (String.◌∷◌ c s) "locked"
          && not (is_word (slice (String.◌∷◌ c s) 6 (len (String.◌∷◌ c s))))))
    || locked_from (is_word (String.◌∷◌ c s)) s

-- lockedWordRE.MatchString
unfoldable pub locked_word : String → Bool
unfolding locked_from is_word
locked_word text = locked_from false text

unfoldable pub looks_credential_phishing : String → Bool
looks_credential_phishing text =
    contains_any text
      ("password" ∷ "verify your account" ∷ "confirm your account" ∷ "login" ∷ "sign in" ∷ [])
    && (contains_any text ("urgent" ∷ "suspended" ∷ "unusual activity" ∷ "security alert" ∷ [])
        || locked_word text)

unfoldable pub looks_wallet_access_phishing : String → Bool
looks_wallet_access_phishing text =
    contains_any text ("wallet" ∷ "digital wallet" ∷ "crypto wallet" ∷ [])
    && contains_any text (
        "restore access" ∷ "restore full" ∷ "sync now" ∷ "sync wallet" ∷ "verify wallet"
        ∷ "recover wallet" ∷ "unlock wallet" ∷ "connect wallet" ∷ [])

unfoldable pub looks_package_delivery_scam : String → Bool
looks_package_delivery_scam text =
    contains_any text ("package" ∷ "delivery" ∷ "shipment" ∷ "courier" ∷ "tracking number" ∷ [])
    && contains_any text
        ("missed" ∷ "unpaid postage" ∷ "reschedule" ∷ "shipping preferences" ∷ "tracking" ∷ [])

unfoldable pub looks_business_email_compromise : String → Bool
looks_business_email_compromise text =
    contains_any text (
      "invoice" ∷ "payment due" ∷ "wire transfer" ∷ "ach" ∷ "bank details" ∷ "payroll"
      ∷ "direct deposit" ∷ [])
    && contains_any text
        ("urgent" ∷ "overdue" ∷ "new account" ∷ "change" ∷ "update" ∷ "attached" ∷ [])

unfoldable pub looks_payment_scam : String → Bool
looks_payment_scam text =
    contains_any text (
      "gift card" ∷ "prepaid card" ∷ "crypto" ∷ "cryptocurrency" ∷ "digital wallet"
      ∷ "wire transfer" ∷ [])
    && contains_any text ("buy" ∷ "send" ∷ "payment" ∷ "refund" ∷ "fee" ∷ "tax" ∷ "utility" ∷ [])

unfoldable pub looks_payment_support_scam : String → Bool
looks_payment_support_scam text =
    contains_any text ("bank" ∷ "account" ∷ "payment" ∷ "transaction" ∷ "invoice" ∷ "merchant" ∷ [])
    && contains_any text (
        "deducted" ∷ "charged" ∷ "transaction" ∷ "invoice" ∷ "pending" ∷ "awaiting verification"
        ∷ [])
    && contains_any text
        ("did not authorize" ∷ "unauthorized" ∷ "cancel" ∷ "secure your account" ∷ "dispute" ∷ [])
    && contains_any text (
        "call support" ∷ "call our support" ∷ "support team" ∷ "helpline" ∷ "customer support" ∷ [])

unfoldable pub looks_reward_refund_scam : String → Bool
looks_reward_refund_scam text =
    contains_any text (
      "tax refund" ∷ "refund" ∷ "rebate" ∷ "prize" ∷ "reward" ∷ "points expiring" ∷ "free gift"
      ∷ [])
    && contains_any text ("claim" ∷ "expires" ∷ "limited time" ∷ "click" ∷ "confirm" ∷ [])

unfoldable pub looks_tax_document_phishing : String → Bool
looks_tax_document_phishing text =
    contains_any text (
      "tax document" ∷ "tax documents" ∷ "tax return" ∷ "tax forms" ∷ "tax statement" ∷ "tax refund"
      ∷ [])
    && contains_any text
        ("ready" ∷ "available" ∷ "view" ∷ "open" ∷ "download" ∷ "confirm" ∷ "verify" ∷ [])

unfoldable pub looks_investment_scam : String → Bool
looks_investment_scam text =
    contains_any text (
      "investment" ∷ "trading" ∷ "profit" ∷ "returns" ∷ "wallet" ∷ "crypto" ∷ "cryptocurrency" ∷ [])
    && contains_any text ("guaranteed" ∷ "exclusive" ∷ "limited" ∷ "mentor" ∷ "opportunity" ∷ [])

unfoldable pub looks_medical_miracle_scam : String → Bool
looks_medical_miracle_scam text =
    contains_any text (
      "vertigo" ∷ "dizziness" ∷ "brain damage" ∷ "blood sugar" ∷ "diabetes" ∷ "joint pain"
      ∷ "memory loss" ∷ "tinnitus" ∷ "hearing loss" ∷ [])
    && contains_any text (
        "miracle" ∷ "shocking cause" ∷ "secret" ∷ "breakthrough" ∷ "stop" ∷ "erase" ∷ "reverse"
        ∷ "cure" ∷ "ucla" ∷ "harvard" ∷ "scientists" ∷ [])
    && contains_any text (
        "watch the video" ∷ "video presentation" ∷ "click here" ∷ "find out" ∷ "research report"
        ∷ "essential nutrient" ∷ "crucial nutrient" ∷ [])

unfoldable pub looks_health_miracle_spam : String → Bool
looks_health_miracle_spam text =
    (contains_any text
        ("scientists reveal" ∷ "doctors reveal" ∷ "astonishing" ∷ "secret" ∷ "miracle" ∷ [])
      || (contains_any text ("breakthrough" ∷ "discovery" ∷ [])
          && contains_any text (
              "click here" ∷ "watch the video" ∷ "video presentation" ∷ "buy now" ∷ "order now"
              ∷ "limited offer" ∷ [])))
    && contains_any text (
        "back pain" ∷ "joint pain" ∷ "nerve pain" ∷ "blood sugar" ∷ "weight loss" ∷ "prostate"
        ∷ "tinnitus" ∷ "hearing" ∷ "vision" ∷ "neuropathy" ∷ [])

unfoldable pub looks_home_services_lead_gen_spam : String → Bool
looks_home_services_lead_gen_spam text =
    contains_any text (
      "septic system" ∷ "roof" ∷ "windows" ∷ "gutter" ∷ "gutters" ∷ "hvac" ∷ "solar"
      ∷ "water heater" ∷ "foundation" ∷ [])
    && contains_any text (
        "working properly" ∷ "repair" ∷ "replacement" ∷ "inspection" ∷ "estimate" ∷ "quote"
        ∷ "contractor" ∷ "service" ∷ "homeowner" ∷ [])

unfoldable pub looks_job_scam : String → Bool
looks_job_scam text =
    contains_any text (
      "remote job" ∷ "mystery shopper" ∷ "car wrap" ∷ "work from home" ∷ "training" ∷ "equipment"
      ∷ [])
    && contains_any text ("check" ∷ "deposit" ∷ "bank account" ∷ "payment" ∷ "upfront" ∷ [])

unfoldable pub looks_tech_support_scam : String → Bool
looks_tech_support_scam text = contains_any text (
    "virus" ∷ "infected" ∷ "tech support" ∷ "computer locked" ∷ "call support" ∷ "renew antivirus"
    ∷ [])

unfoldable pub looks_malware_lure : String → Bool
looks_malware_lure text = contains_any text (
    ".exe" ∷ ".scr" ∷ ".js" ∷ ".vbs" ∷ "enable macros" ∷ "protected document"
    ∷ "password protected attachment" ∷ [])
