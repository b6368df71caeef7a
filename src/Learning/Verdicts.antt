-- ===== src/Learning/Verdicts.antt =====
-- What the next mail like a mail is classified as, after a verdict on it.
use sentinel_mail_gateway.Prelude.{
  ℕ, String, Bool, true, false, not, ◌≡◌, refl, subst, arith, none, List, keep, str_eq, str_eq_iff,
}
use sentinel_mail_gateway.Strings.{lower, trim_space}
use sentinel_mail_gateway.Learning.Keys.{normalize_email, sender_domain_key, subject_fingerprint}
use sentinel_mail_gateway.Learning.{
  Sample, Observation, matches, insert_or_merge, sample_of, is_sender_level, learn, find,
  domain_row, lookup,
}
use sentinel_mail_gateway.Learning.Laws.{
  says, new, conflicts_with-sample_of, conflicts_with_refl, says-insert_or_merge,
  find-insert_or_merge, find-keep, find-keep-none,
}

-- the row of the mail itself decides, if there is one
says-lookup :
    (verdict : String) (table : List Sample) (org : ℕ) (user_email from_addr subject : String)
    → says verdict (
        find
          (matches org
            (normalize_email user_email)
            (normalize_email from_addr)
            (subject_fingerprint subject))
          table)
      ≡ true
    → says verdict (lookup table org user_email from_addr subject) ≡ true
unfolding lookup
says-lookup verdict table org user_email from_addr subject h = ground arith

module _ (obs : Observation) (table : List Sample) where
  abbrev pub verdict_of : String
  verdict_of = lower (trim_space obs.verdict)

  abbrev pub fingerprint_of : String
  fingerprint_of = subject_fingerprint obs.subject

  -- the query for the row of the mail itself
  abbrev pub own_row : Sample → Bool
  own_row =
      matches obs.organization_id (normalize_email obs.user_email) (normalize_email obs.from_addr)
        fingerprint_of

  abbrev pub own : List Sample
  own = insert_or_merge (new obs obs.from_addr verdict_of fingerprint_of) table

  says-own : says verdict_of (find own_row own) ≡ true
  unfolding sample_of
  says-own =
      subst (λ p. says verdict_of (find p own) ≡ true)
        (conflicts_with-sample_of obs obs.from_addr verdict_of fingerprint_of)
        (says-insert_or_merge (new obs obs.from_addr verdict_of fingerprint_of) table
          (conflicts_with_refl obs obs.from_addr verdict_of fingerprint_of))

  not_sender_level :
      (r : Sample)
      → str_eq fingerprint_of "" ≡ false
      → own_row r ≡ true
      → not (is_sender_level obs r) ≡ true
  unfolding is_sender_level matches
  not_sender_level r keyed o =
      ground (
        arith,
        str_eq_iff r.subject_fingerprint "",
        str_eq_iff r.subject_fingerprint fingerprint_of,
      )

  other_key : str_eq fingerprint_of "" ≡ false → str_eq "" fingerprint_of ≡ false
  other_key keyed = ground (arith, str_eq_iff "" fingerprint_of, str_eq_iff fingerprint_of "")

  says-learn :
      str_eq verdict_of "" ≡ false
      → str_eq verdict_of "unreviewed" ≡ false
      → str_eq fingerprint_of "" ≡ false
      → says verdict_of (find own_row (learn obs table)) ≡ true
  unfolding learn sample_of
  says-learn given reviewed keyed =
      let level = other_key keyed in
      let sender = new obs obs.from_addr verdict_of "" in
      let domain = new obs (sender_domain_key obs.from_addr) verdict_of "" in
      let user = normalize_email obs.user_email in
      let from = normalize_email obs.from_addr in
      ground (
        arith,
        says-own,
        find-keep own_row (λ r. not (is_sender_level obs r)) own (λ r. not_sender_level r keyed),
        find-insert_or_merge obs.organization_id user from fingerprint_of sender own level,
        find-insert_or_merge obs.organization_id user from fingerprint_of domain
            (insert_or_merge sender own) level,
      )

  -- A verdict that is given on a mail whose subject has a fingerprint is what the next mail of
  -- that sender to that user with that subject is classified as.
  pub says-lookup-learn :
      str_eq verdict_of "" ≡ false
      → str_eq verdict_of "unreviewed" ≡ false
      → str_eq fingerprint_of "" ≡ false
      → says verdict_of
          (lookup (learn obs table) obs.organization_id obs.user_email obs.from_addr obs.subject)
        ≡ true
  says-lookup-learn given reviewed keyed =
      says-lookup verdict_of (learn obs table) obs.organization_id obs.user_email obs.from_addr
        obs.subject (says-learn given reviewed keyed)

  learn_of_pardon :
      verdict_of ≡ "not_spam"
      → learn obs table ≡ keep (λ (r : Sample). not (is_sender_level obs r)) own
  unfolding learn
  learn_of_pardon pardon =
      let given : str_eq verdict_of "" ≡ false = rw pardon refl in
      let reviewed : str_eq verdict_of "unreviewed" ≡ false = rw pardon refl in
      let spam : str_eq verdict_of "not_spam" ≡ true = rw pardon refl in
      ground (arith, given, reviewed, spam)

  pub sender_level_of_own :
      (r : Sample)
      → str_eq fingerprint_of "" ≡ true
      → own_row r ≡ true
      → not (is_sender_level obs r) ≡ false
  unfolding is_sender_level matches
  sender_level_of_own r bare o = ground (
    arith,
    str_eq_iff fingerprint_of "",
    str_eq_iff r.subject_fingerprint fingerprint_of,
    str_eq_iff r.subject_fingerprint "",
  )

  sender_level_of_domain :
      (r : Sample)
      → domain_row obs.organization_id
          (normalize_email obs.user_email)
          (sender_domain_key obs.from_addr)
          r
        ≡ true
      → not (is_sender_level obs r) ≡ false
  unfolding is_sender_level
  sender_level_of_domain r o = ground arith

  -- A "not spam" verdict on a mail whose subject has no fingerprint is forgotten at once: the next
  -- mail like it is not classified at all.
  pub lookup-learn_of_bare_subject :
      verdict_of ≡ "not_spam"
      → str_eq fingerprint_of "" ≡ true
      → lookup (learn obs table) obs.organization_id obs.user_email obs.from_addr obs.subject ≡ none
  unfolding lookup
  lookup-learn_of_bare_subject pardon bare =
      let cleared = λ (r : Sample). not (is_sender_level obs r) in
      let domain =
        domain_row obs.organization_id (normalize_email obs.user_email)
          (sender_domain_key obs.from_addr) in
      ground (
        arith,
        find-keep-none own_row cleared own (λ r. sender_level_of_own r bare),
        find-keep-none domain cleared own sender_level_of_domain,
        learn_of_pardon pardon,
      )
