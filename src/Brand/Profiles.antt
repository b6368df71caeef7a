-- ===== src/Brand/Profiles.antt =====
-- internal/mail/ingest.go: the built-in brand profiles and the phrase lists of the brand analysis.
use sentinel_mail_gateway.Prelude.{String, List, [], ◌∷◌}

pub record ProtectedBrandProfile : Type 0 where
  pub name : String
  pub terms : List String
  pub sender_domains : List String
  pub cues : List String

abbrev microsoft : ProtectedBrandProfile
microsoft = record {
  name = "microsoft";
  terms = "microsoft" ∷ "office 365" ∷ "microsoft 365" ∷ "onedrive" ∷ "sharepoint" ∷ [];
  sender_domains =
      "microsoft.com" ∷ "microsoftonline.com" ∷ "microsoftsupport.com" ∷ "office.com"
      ∷ "office365.com" ∷ "office365support.com" ∷ "outlook.com" ∷ "live.com"
      ∷ "mail.support.microsoft.com" ∷ "techsupport.microsoft.com" ∷ [];
  cues =
      "account" ∷ "password" ∷ "security" ∷ "verify" ∷ "verification" ∷ "sign in" ∷ "login"
      ∷ "document" ∷ "shared" ∷ "subscription" ∷ "invoice" ∷ "billing" ∷ "storage" ∷ [];
}

abbrev google : ProtectedBrandProfile
google = record {
  name = "google";
  terms = "google" ∷ "gmail" ∷ "google workspace" ∷ "google drive" ∷ [];
  sender_domains = "google.com" ∷ "accounts.google.com" ∷ "mail.google.com" ∷ "googlemail.com" ∷ [];
  cues =
      "account" ∷ "password" ∷ "security" ∷ "verify" ∷ "verification" ∷ "sign in" ∷ "login"
      ∷ "drive" ∷ "document" ∷ "shared" ∷ "storage" ∷ [];
}

abbrev docusign : ProtectedBrandProfile
docusign = record {
  name = "docusign";
  terms = "docusign" ∷ "docu sign" ∷ [];
  sender_domains = "docusign.net" ∷ "docusign.com" ∷ [];
  cues =
      "document" ∷ "documents" ∷ "envelope" ∷ "signature" ∷ "sign" ∷ "signed" ∷ "complete"
      ∷ "review" ∷ "view" ∷ "agreement" ∷ [];
}

abbrev adobe : ProtectedBrandProfile
adobe = record {
  name = "adobe";
  terms = "adobe" ∷ "acrobat" ∷ "adobe sign" ∷ [];
  sender_domains = "adobe.com" ∷ "email.adobe.com" ∷ "mail.adobe.com" ∷ [];
  cues =
      "document" ∷ "documents" ∷ "signature" ∷ "sign" ∷ "signed" ∷ "agreement" ∷ "review" ∷ "shared"
      ∷ "invoice" ∷ "subscription" ∷ "account" ∷ [];
}

abbrev dropbox : ProtectedBrandProfile
dropbox = record {
  name = "dropbox";
  terms = "dropbox" ∷ "dropbox paper" ∷ [];
  sender_domains =
      "dropbox.com" ∷ "dropboxmail.com" ∷ "docsend.com" ∷ "em-s.dropbox.com" ∷ "em.dropbox.com"
      ∷ "dropbox.zendesk.com" ∷ "dropboxpartners.com" ∷ "dropboxteam.com" ∷ [];
  cues =
      "file" ∷ "files" ∷ "folder" ∷ "shared" ∷ "document" ∷ "documents" ∷ "view" ∷ "download"
      ∷ "sign in" ∷ "login" ∷ "storage" ∷ [];
}

abbrev paypal : ProtectedBrandProfile
paypal = record {
  name = "paypal";
  terms = "paypal" ∷ "pay pal" ∷ [];
  sender_domains = "paypal.com" ∷ "mail.paypal.com" ∷ [];
  cues =
      "account" ∷ "payment" ∷ "invoice" ∷ "transaction" ∷ "receipt" ∷ "refund" ∷ "charged"
      ∷ "charge" ∷ "billing" ∷ "verify" ∷ "verification" ∷ "limited" ∷ "dispute" ∷ "support" ∷ [];
}

abbrev intuit : ProtectedBrandProfile
intuit = record {
  name = "intuit";
  terms = "intuit" ∷ "quickbooks" ∷ "quick books" ∷ "turbotax" ∷ "turbo tax" ∷ [];
  sender_domains =
      "intuit.com" ∷ "quickbooks.intuit.com" ∷ "notification.intuit.com" ∷ "selfemployed.intuit.com"
      ∷ "workforce.intuit.com" ∷ "tsheets.com" ∷ "macpayroll.com" ∷ [];
  cues =
      "invoice" ∷ "payment" ∷ "payroll" ∷ "tax" ∷ "refund" ∷ "account" ∷ "billing" ∷ "statement"
      ∷ "verify" ∷ "verification" ∷ "document" ∷ [];
}

abbrev amazon : ProtectedBrandProfile
amazon = record {
  name = "amazon";
  terms = "amazon" ∷ "amazon business" ∷ "amazon prime" ∷ [];
  sender_domains = "amazon.com" ∷ "amazonbusiness.com" ∷ [];
  cues =
      "order" ∷ "shipment" ∷ "delivery" ∷ "payment" ∷ "invoice" ∷ "receipt" ∷ "refund" ∷ "account"
      ∷ "password" ∷ "billing" ∷ "prime" ∷ "subscription" ∷ [];
}

abbrev apple : ProtectedBrandProfile
apple = record {
  name = "apple";
  terms = "apple" ∷ "apple id" ∷ "apple account" ∷ "icloud" ∷ "itunes" ∷ "app store" ∷ [];
  sender_domains = "apple.com" ∷ "email.apple.com" ∷ "icloud.com" ∷ "itunes.com" ∷ [];
  cues =
      "account" ∷ "password" ∷ "security" ∷ "verify" ∷ "verification" ∷ "receipt" ∷ "purchase"
      ∷ "invoice" ∷ "icloud" ∷ "billing" ∷ "payment" ∷ "subscription" ∷ [];
}

abbrev netflix : ProtectedBrandProfile
netflix = record {
  name = "netflix";
  terms = "netflix" ∷ [];
  sender_domains = "netflix.com" ∷ [];
  cues =
      "account" ∷ "password" ∷ "billing" ∷ "payment" ∷ "subscription" ∷ "update" ∷ "verify"
      ∷ "verification" ∷ "sign in" ∷ "login" ∷ "membership" ∷ [];
}

-- the built-in table, used where the catalogue gives none
abbrev pub protected_brand_profiles : List ProtectedBrandProfile
protected_brand_profiles =
    microsoft ∷ google ∷ docusign ∷ adobe ∷ dropbox ∷ paypal ∷ intuit ∷ amazon ∷ apple ∷ netflix
    ∷ []

abbrev pub account_loss_pressure_phrases : List String
account_loss_pressure_phrases =
    "payment failed" ∷ "can't process your payment" ∷ "cannot process your payment"
    ∷ "payment declined" ∷ "billing issue" ∷ "account suspended" ∷ "account locked"
    ∷ "account restricted" ∷ "account will be closed" ∷ "lose access" ∷ "loss of access"
    ∷ "subscription will end" ∷ "subscription expired" ∷ "final reminder" ∷ "action required"
    ∷ "pending verification" ∷ "permanent loss" ∷ []

abbrev pub update_details_cta_phrases : List String
update_details_cta_phrases =
    "update details" ∷ "update your details" ∷ "update payment" ∷ "update billing"
    ∷ "verify account" ∷ "verify your account" ∷ "confirm account" ∷ "confirm your information"
    ∷ "restore access" ∷ "reactivate" ∷ "sign in" ∷ "log in" ∷ "login" ∷ "click below" ∷ []
