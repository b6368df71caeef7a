-- ===== src/Learning/Pardons.antt =====
-- The rows that a pardon rests on: classifier.Learn and Lookup of internal/classifier/classifier.go.
use sentinel_mail_gateway.Prelude.{
  ℕ, String, Bool, true, false, not, ◌&&◌, ◌≡◌, ◌≢◌, inl, inr, refl, sym, subst, arith, List, [],
  ◌∷◌, any, keep, str_eq, str_eq_iff, Bool-cases,
}
use sentinel_mail_gateway.Learning.Keys.{normalize_email, sender_domain_key, subject_fingerprint}
use sentinel_mail_gateway.Learning.{
  Sample, Observation, matches, merge, conflicts_with, insert_or_merge, sample_of, is_threat_label,
  is_sender_level, learn, find, threat_row, domain_row, lookup,
}
use sentinel_mail_gateway.Learning.Laws.{says, new, conflicts_with-sample_of, conflicts_with_refl}
use sentinel_mail_gateway.Learning.Verdicts.{
  own_row, own, verdict_of, fingerprint_of, sender_level_of_own,
}

threat_is_no_pardon : (v : String) → is_threat_label v ≡ true → str_eq v "not_spam" ≡ false
unfolding is_threat_label
threat_is_no_pardon v t = elim (Bool-cases (str_eq v "not_spam")) [
  | inl e ↦ absurd (
      subst (λ s. is_threat_label s ≢ true) (sym ((str_eq_iff v "not_spam").0 e))
        (λ h. ground arith) t)
  | inr e ↦ e
]

find-threat :
    (p : Sample → Bool) (table : List Sample)
    → ((r : Sample) → p r ≡ true → is_threat_label r.verdict ≡ true)
    → says "not_spam" (find p table) ≡ false
unfolding find
find-threat p [] h = refl
find-threat p (r ∷ rs) h = ground (arith, find-threat p rs h, h r, threat_is_no_pardon r.verdict)

-- only the row of the mail itself can pardon it
lookup-own_row :
    (table : List Sample) (org : ℕ) (user_email from_addr subject : String)
    → says "not_spam" (lookup table org user_email from_addr subject) ≡ true
    → says "not_spam" (
        find
          (matches org
            (normalize_email user_email)
            (normalize_email from_addr)
            (subject_fingerprint subject))
          table)
      ≡ true
unfolding lookup
lookup-own_row table org user_email from_addr subject h =
    let user = normalize_email user_email in
    let from = normalize_email from_addr in
    let domain = sender_domain_key from_addr in
    ground (
      arith,
      find-threat (threat_row org user from) table (λ r t. ground arith),
      find-threat (domain_row org user domain) table (λ r t. ground arith),
    )

-- a pardon without a subject
abbrev is_bare_pardon : Sample → Bool
is_bare_pardon r = str_eq r.subject_fingerprint "" && str_eq r.verdict "not_spam"

any-insert_or_merge :
    (p : Sample → Bool) (s : Sample) (table : List Sample)
    → any p table ≡ false
    → p s ≡ false
    → ((r : Sample) → conflicts_with s r ≡ true → p (merge s r) ≡ false)
    → any p (insert_or_merge s table) ≡ false
unfolding insert_or_merge
any-insert_or_merge p s [] h k m = ground arith
any-insert_or_merge p s (r ∷ rs) h k m = ground (arith, any-insert_or_merge p s rs, m r)

any-keep {ℓ} :
    {A : Type ℓ} (p q : A → Bool) (xs : List A) → any p (keep q xs) ≡ any (λ x. p x && q x) xs
any-keep p q [] = refl
any-keep p q (x ∷ xs) = ground (arith, any-keep p q xs)

any-and {ℓ} :
    {A : Type ℓ} (p q : A → Bool) (xs : List A)
    → any p xs ≡ false
    → any (λ x. p x && q x) xs ≡ false
any-and p q [] h = refl
any-and p q (x ∷ xs) h = ground (arith, any-and p q xs)

-- a row of another verdict
insert_or_merge-bare_free :
    (s : Sample) (table : List Sample)
    → str_eq s.verdict "not_spam" ≡ false
    → any is_bare_pardon table ≡ false
    → any is_bare_pardon (insert_or_merge s table) ≡ false
unfolding merge
insert_or_merge-bare_free s table other h =
    any-insert_or_merge is_bare_pardon s table h (ground (arith, other))
      (λ r c. ground (arith, other))

module _ (obs : Observation) (table : List Sample) where
  abbrev is_left : Sample → Bool
  is_left r = is_bare_pardon r && not (is_sender_level obs r)

  own_row-is_left : (r : Sample) → own_row obs table r ≡ true → is_left r ≡ false
  unfolding matches
  own_row-is_left r o = elim (Bool-cases (str_eq (fingerprint_of obs table) "")) [
    | inl bare ↦ ground (arith, sender_level_of_own obs table r bare o)
    | inr keyed ↦ ground (
      arith,
      o,
      keyed,
      str_eq_iff r.subject_fingerprint "",
      str_eq_iff r.subject_fingerprint (fingerprint_of obs table),
    )
  ]

  -- the pardon itself, before the deletion
  own-is_left : any is_bare_pardon table ≡ false → any is_left (own obs table) ≡ false
  unfolding merge matches sample_of
  own-is_left h =
      let s = new obs obs.from_addr (verdict_of obs table) (fingerprint_of obs table) in
      let same =
        conflicts_with-sample_of obs obs.from_addr (verdict_of obs table)
          (fingerprint_of obs table) in
      let self =
        conflicts_with_refl obs obs.from_addr (verdict_of obs table) (fingerprint_of obs table) in
      any-insert_or_merge is_left s table
        (any-and is_bare_pardon (λ r. not (is_sender_level obs r)) table h)
        (own_row-is_left s (subst (λ p. p s ≡ true) same self))
        (λ r c. own_row-is_left (merge s r) (subst (λ p. p r ≡ true) same c))

  learn-bare_free : any is_bare_pardon table ≡ false → any is_bare_pardon (learn obs table) ≡ false
  unfolding learn sample_of
  learn-bare_free h =
      let v = verdict_of obs table in
      let from = new obs obs.from_addr v "" in
      let domain = new obs (sender_domain_key obs.from_addr) v "" in
      let first = own obs table in
      elim (Bool-cases (str_eq v "not_spam")) [
        | inl e ↦ ground (
          arith,
          e,
          h,
          any-keep is_bare_pardon (λ r. not (is_sender_level obs r)) first,
          own-is_left h,
        )
        | inr e ↦
            let one =
              insert_or_merge-bare_free (new obs obs.from_addr v (fingerprint_of obs table)) table e
                h in
            let two = insert_or_merge-bare_free from first e one in
            ground (
              arith,
              h,
              e,
              one,
              two,
              insert_or_merge-bare_free domain (insert_or_merge from first) e two,
            )
      ]

-- the tables that calls of Learn fill
pub data Learned : List Sample → Type 0 where
  blank : Learned []
  taught : {table : List Sample} → Learned table → (obs : Observation) → Learned (learn obs table)

Learned-bare_free : {table : List Sample} → Learned table → any is_bare_pardon table ≡ false
Learned-bare_free blank = refl
Learned-bare_free (taught {table} l obs) = learn-bare_free obs table (Learned-bare_free l)

find-bare_free :
    (p : Sample → Bool) (table : List Sample)
    → ((r : Sample) → p r ≡ true → str_eq r.subject_fingerprint "" ≡ true)
    → any is_bare_pardon table ≡ false
    → says "not_spam" (find p table) ≡ false
unfolding find
find-bare_free p [] h k = refl
find-bare_free p (r ∷ rs) h k = ground (arith, find-bare_free p rs h, h r)

matches-bare :
    (org : ℕ) (user from fingerprint : String)
    → str_eq fingerprint "" ≡ true
    → (r : Sample) → matches org user from fingerprint r ≡ true
    → str_eq r.subject_fingerprint "" ≡ true
unfolding matches
matches-bare org user from fingerprint bare r m = ground (
  arith,
  bare,
  m,
  str_eq_iff fingerprint "",
  str_eq_iff r.subject_fingerprint fingerprint,
  str_eq_iff r.subject_fingerprint "",
)

-- In a table that calls of Learn have filled, a mail is pardoned only if its subject has a
-- fingerprint, and only by the row for its sender, its user and that fingerprint; so no row for a
-- sender or a domain as a whole pardons a mail.
pub lookup-not_spam :
    {table : List Sample}
    → Learned table
    → (org : ℕ) (user_email from_addr subject : String)
    → says "not_spam" (lookup table org user_email from_addr subject) ≡ true
    → (str_eq (subject_fingerprint subject) "" ≡ false)
      × (says "not_spam" (
            find
              (matches org
                (normalize_email user_email)
                (normalize_email from_addr)
                (subject_fingerprint subject))
              table)
          ≡ true)
lookup-not_spam {table} l org user_email from_addr subject h =
    let user = normalize_email user_email in
    let from = normalize_email from_addr in
    let fingerprint = subject_fingerprint subject in
    let row = lookup-own_row table org user_email from_addr subject h in
    elim (Bool-cases (str_eq fingerprint "")) [
      | inr keyed ↦ (keyed, row)
      | inl bare ↦
          let none_such =
            find-bare_free (matches org user from fingerprint) table
              (matches-bare org user from fingerprint bare) (Learned-bare_free l) in
          absurd (ground (arith, row, none_such))
    ]
