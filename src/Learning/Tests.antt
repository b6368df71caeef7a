-- ===== src/Learning/Tests.antt =====
-- Verdicts that are learned, and one that is not.
use sentinel_mail_gateway.Prelude.{true, false, ◌≡◌, refl, none, [], List, str_eq}
use sentinel_mail_gateway.Strings.{lower, trim_space, contains, join, cut_last}
use sentinel_mail_gateway.Learning.Keys.{normalize_email, sender_domain_key, subject_fingerprint}
use sentinel_mail_gateway.Learning.{Sample, Observation, matches, learn, find, lookup}
use sentinel_mail_gateway.Learning.Laws.{says}
use sentinel_mail_gateway.Learning.Pardons.{blank, taught, lookup-not_spam}
use sentinel_mail_gateway.Learning.Verdicts.{says-lookup-learn, lookup-learn_of_bare_subject}

abbrev invoice : Observation
invoice = record {
  organization_id = 1;
  user_email = "Bob@home.example";
  from_addr = "ann@shop.example";
  subject = "Your Invoice #42 is ready";
  verdict = "Not_Spam";
}

-- a subject without an ASCII letter or digit
abbrev greeting : Observation
greeting = record invoice { subject = "Привет"; verdict = "not_spam" }

abbrev no_samples : List Sample
no_samples = []

test_fingerprint : subject_fingerprint "Your Invoice #42 is ready" ≡ "your invoice ready"
unfolding subject_fingerprint join lower
test_fingerprint = refl

test_domain_key : sender_domain_key "Ann@Shop.example." ≡ "*@shop.example"
unfolding sender_domain_key cut_last lower trim_space contains
test_domain_key = refl

test_given : str_eq (lower (trim_space invoice.verdict)) "" ≡ false
unfolding lower trim_space
test_given = refl

test_reviewed : str_eq (lower (trim_space invoice.verdict)) "unreviewed" ≡ false
unfolding lower trim_space
test_reviewed = refl

test_keyed : str_eq (subject_fingerprint invoice.subject) "" ≡ false
unfolding subject_fingerprint join lower
test_keyed = refl

says-lookup-learn_example :
    says (lower (trim_space invoice.verdict)) (
      lookup
        (learn invoice no_samples)
        invoice.organization_id
        invoice.user_email
        invoice.from_addr
        invoice.subject)
    ≡ true
says-lookup-learn_example = says-lookup-learn invoice no_samples test_given test_reviewed test_keyed

test_pardon : lower (trim_space greeting.verdict) ≡ "not_spam"
unfolding lower trim_space
test_pardon = refl

test_bare : str_eq (subject_fingerprint greeting.subject) "" ≡ true
unfolding subject_fingerprint join lower
test_bare = refl

lookup-learn_of_bare_subject_example :
    lookup
      (learn greeting no_samples)
      greeting.organization_id
      greeting.user_email
      greeting.from_addr
      greeting.subject
    ≡ none
lookup-learn_of_bare_subject_example =
    lookup-learn_of_bare_subject greeting no_samples test_pardon test_bare

abbrev pardons : List Sample
pardons = learn invoice no_samples

test_pardoned :
    says "not_spam" (lookup pardons 1 "bob@home.example" "ann@shop.example" "Your invoice is ready")
    ≡ true
unfolding learn lookup lower normalize_email trim_space subject_fingerprint join sender_domain_key
    cut_last contains
test_pardoned = refl

lookup-not_spam_example :
    (str_eq (subject_fingerprint "Your invoice is ready") "" ≡ false)
    × (says "not_spam" (
          find
            (matches 1
              (normalize_email "bob@home.example")
              (normalize_email "ann@shop.example")
              (subject_fingerprint "Your invoice is ready"))
            pardons)
        ≡ true)
lookup-not_spam_example =
    lookup-not_spam (taught blank invoice) 1 "bob@home.example" "ann@shop.example"
      "Your invoice is ready" test_pardoned
