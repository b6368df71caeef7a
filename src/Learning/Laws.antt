-- ===== src/Learning/Laws.antt =====
-- What a verdict on a mail says about the next mail like it.
use sentinel_mail_gateway.Prelude.{
  ℕ, String, Bool, true, false, ◌≡◌, refl, arith, Option, none, some, List, [], ◌∷◌, keep, ==_iff,
  str_eq, str_eq_iff,
}
use sentinel_mail_gateway.Strings.{lower, trim_space}
use sentinel_mail_gateway.Strings.Laws.{lower_idem}
use sentinel_mail_gateway.Decision.{Match}
use sentinel_mail_gateway.Learning.Keys.{normalize_email}
use sentinel_mail_gateway.Learning.{
  Sample, Observation, matches, merge, conflicts_with, insert_or_merge, sample_of, find,
}

-- a row was found, and it has this verdict
abbrev pub says : String → Option Match → Bool
says verdict none = false
says verdict (some m) = str_eq m.verdict verdict

lower-normalize_email : (s : String) → lower (normalize_email s) ≡ normalize_email s
unfolding normalize_email
lower-normalize_email s = lower_idem (trim_space s)

str_eq_refl : (s : String) → str_eq s s ≡ true
str_eq_refl s = (str_eq_iff s s).1 refl

module _ (obs : Observation) (from verdict fingerprint : String) where
  abbrev pub new : Sample
  new = sample_of obs from verdict fingerprint

  -- the index compares the keys as the queries do
  pub conflicts_with-sample_of :
      conflicts_with new
      ≡ matches obs.organization_id
          (normalize_email obs.user_email)
          (normalize_email from)
          fingerprint
  unfolding conflicts_with sample_of
  conflicts_with-sample_of = λ i.
      matches obs.organization_id (lower-normalize_email obs.user_email i)
        (lower-normalize_email from i) fingerprint

  pub conflicts_with_refl : conflicts_with new new ≡ true
  unfolding conflicts_with sample_of matches
  conflicts_with_refl =
      rw (lower-normalize_email obs.user_email, lower-normalize_email from)
        (ground (
          arith,
          (==_iff obs.organization_id obs.organization_id).1 refl,
          str_eq_refl (normalize_email obs.user_email),
          str_eq_refl (normalize_email from),
          str_eq_refl fingerprint,
        ))

pub says-insert_or_merge :
    (new : Sample) (table : List Sample)
    → conflicts_with new new ≡ true
    → says new.verdict (find (conflicts_with new) (insert_or_merge new table)) ≡ true
unfolding insert_or_merge find conflicts_with merge
says-insert_or_merge new [] self = ground (arith, str_eq_refl new.verdict)
says-insert_or_merge new (r ∷ rs) self =
    ground (arith, says-insert_or_merge new rs self, str_eq_refl new.verdict)

-- a row with another fingerprint is not in the way
pub find-insert_or_merge :
    (org : ℕ) (user from fingerprint : String) (new : Sample) (table : List Sample)
    → str_eq new.subject_fingerprint fingerprint ≡ false
    → find (matches org user from fingerprint) (insert_or_merge new table)
      ≡ find (matches org user from fingerprint) table
unfolding insert_or_merge find conflicts_with merge matches
find-insert_or_merge org user from fingerprint new [] other = ground arith
find-insert_or_merge org user from fingerprint new (r ∷ rs) other = ground (
  arith,
  find-insert_or_merge org user from fingerprint new rs other,
  str_eq_iff r.subject_fingerprint new.subject_fingerprint,
  str_eq_iff r.subject_fingerprint fingerprint,
  str_eq_iff new.subject_fingerprint fingerprint,
)

-- deletion of other rows, and of all such rows
pub find-keep :
    (p q : Sample → Bool) (table : List Sample)
    → ((r : Sample) → p r ≡ true → q r ≡ true)
    → find p (keep q table) ≡ find p table
unfolding find
find-keep p q [] h = refl
find-keep p q (r ∷ rs) h = ground (arith, find-keep p q rs h, h r)

pub find-keep-none :
    (p q : Sample → Bool) (table : List Sample)
    → ((r : Sample) → p r ≡ true → q r ≡ false)
    → find p (keep q table) ≡ none
unfolding find
find-keep-none p q [] h = refl
find-keep-none p q (r ∷ rs) h = ground (arith, find-keep-none p q rs h, h r)
