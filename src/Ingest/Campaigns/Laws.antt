-- ===== src/Ingest/Campaigns/Laws.antt =====
-- How a campaign counts, and what it may do to a mail.
use sentinel_mail_gateway.Prelude.{
  ℕ, suc, ◌+◌, ◌≤◌, String, Bool, true, false, ◌≡◌, refl, arith, List, [], ◌∷◌, ==_iff, str_eq_iff,
  if◌then◌else◌,
}
use sentinel_mail_gateway.Policy.{Policy, campaign_threshold, campaign_action, reject}
use sentinel_mail_gateway.Disposition.{Disposition, is_rejected}
use sentinel_mail_gateway.Ingest.Campaigns.{Campaign, same_key, touch, upsert, apply_campaign}

-- the mails that the rows with a key count
abbrev pub mails_of : Campaign → List Campaign → ℕ
mails_of key [] = 0
mails_of key (c ∷ cs) =
    let rest = mails_of key cs in if same_key key c then c.message_count + rest else rest

same_key_refl : (c : Campaign) → same_key c c ≡ true
unfolding same_key
same_key_refl c = ground (
  arith,
  (==_iff c.organization_id c.organization_id).1 refl,
  (==_iff c.bucket_date c.bucket_date).1 refl,
  (str_eq_iff c.fingerprint c.fingerprint).1 refl,
)

same_key-touch : (new key c : Campaign) → same_key key (touch new c) ≡ same_key key c
unfolding same_key touch
same_key-touch new key c = refl

-- two keys that agree with one row agree with each other
same_key_join : (a b c : Campaign) → same_key a c ≡ true → same_key b c ≡ true → same_key b a ≡ true
unfolding same_key
same_key_join a b c p q = ground (
  arith,
  ==_iff a.organization_id c.organization_id,
  ==_iff b.organization_id c.organization_id,
  ==_iff b.organization_id a.organization_id,
  ==_iff a.bucket_date c.bucket_date,
  ==_iff b.bucket_date c.bucket_date,
  ==_iff b.bucket_date a.bucket_date,
  str_eq_iff a.fingerprint c.fingerprint,
  str_eq_iff b.fingerprint c.fingerprint,
  str_eq_iff b.fingerprint a.fingerprint,
)

same_key_trans :
    (a b c : Campaign) → same_key a b ≡ true → same_key b c ≡ true → same_key a c ≡ true
unfolding same_key
same_key_trans a b c p q = ground (
  arith,
  ==_iff a.organization_id b.organization_id,
  ==_iff b.organization_id c.organization_id,
  ==_iff a.organization_id c.organization_id,
  ==_iff a.bucket_date b.bucket_date,
  ==_iff b.bucket_date c.bucket_date,
  ==_iff a.bucket_date c.bucket_date,
  str_eq_iff a.fingerprint b.fingerprint,
  str_eq_iff b.fingerprint c.fingerprint,
  str_eq_iff a.fingerprint c.fingerprint,
)

touch-message_count : (new c : Campaign) → (touch new c).message_count ≡ suc c.message_count
unfolding touch
touch-message_count new c = refl

-- A new mail adds one to the count of its own campaign and nothing to that of any other.
pub mails_of-upsert :
    (new : Campaign) (cs : List Campaign) (key : Campaign)
    → new.message_count ≡ 1
    → mails_of key (upsert new cs) ≡ mails_of key cs + (if same_key key new then 1 else 0)
unfolding upsert
mails_of-upsert new [] key one = ground arith
mails_of-upsert new (c ∷ cs) key one = ground (
  arith,
  mails_of-upsert new cs key one,
  same_key-touch new key c,
  touch-message_count new c,
  same_key_join new key c,
  same_key_trans key new c,
)

-- The campaign's rule rejects a mail only if the mail is of high confidence, the threshold of the
-- tenant is reached, and the tenant's action is to reject.
pub apply_campaign-reject :
    (pol : Policy) (high : Bool) (c : Campaign) (d : Disposition) (reason : String)
    → is_rejected d ≡ false
    → is_rejected ((apply_campaign pol high c (d, reason)).0.0) ≡ true
    → (high ≡ true) × (campaign_threshold pol ≤ c.message_count) × (campaign_action pol ≡ reject)
unfolding apply_campaign
apply_campaign-reject pol high c d reason n r = ground arith
