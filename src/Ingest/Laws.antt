-- ===== src/Ingest/Laws.antt =====
-- Where a mail can be found after it is filed.
use sentinel_mail_gateway.Prelude.{
  ℕ, String, Bool, true, false, ◌||◌, ◌≡◌, ◌⊎◌, inl, inr, refl, arith, List, [], ◌∷◌, ◌++◌, length,
  any, ◌==◌, ==_iff, str_eq, str_eq_iff, not, ◌&&◌, Bool-cases, ap, any-append,
}
use sentinel_mail_gateway.Strings.{lower, trim_space}
use sentinel_mail_gateway.Platform.{Platform}
use sentinel_mail_gateway.Event.{Event}
use sentinel_mail_gateway.Policy.{CampaignAction, aggregate, discard, campaign_action}
use sentinel_mail_gateway.Disposition.{Disposition, is_quarantined}
use sentinel_mail_gateway.Ingest.Campaigns.{has_representative, apply_campaign}
use sentinel_mail_gateway.Ingest.Tables.{
  Context, Store, Filed, QuarantineEntry, append_end, is_campaign, copies,
  should_create_mailbox_copy,
}
use sentinel_mail_gateway.Ingest.{
  settle_campaign, store_log, store_entry, is_suppressed, store_scans, count_suppressed, store_mail,
  entry_of, file_mail,
}

abbrev pub is_discard : CampaignAction → Bool
is_discard discard = true
is_discard _ = false

abbrev pub is_aggregate : CampaignAction → Bool
is_aggregate aggregate = true
is_aggregate _ = false

-- an entry for this mail log; an entry for this campaign
abbrev pub has_entry : ℕ → List QuarantineEntry → Bool
has_entry log entries = any (λ (e : QuarantineEntry). e.mail_log_id == log) entries

abbrev pub has_campaign_entry : ℕ → List QuarantineEntry → Bool
has_campaign_entry id entries = any (λ (e : QuarantineEntry). is_campaign id e.campaign_id) entries

-- the mailbox row of a mail log for an address
abbrev pub has_copy : ℕ → String → List (ℕ × String) → Bool
has_copy log addr rows = any (λ (r : ℕ × String). r.0 == log && str_eq (r.1) addr) rows

-- an address, in lower case and not empty, that the envelope names
abbrev pub is_addressed : String → List String → Bool
is_addressed addr to =
    not (str_eq addr "") && any (λ (r : String). str_eq (lower (trim_space r)) addr) to

has_copy-copies :
    (log : ℕ) (addr : String) (seen to : List String)
    → has_copy log addr (copies log seen to)
      ≡ (not (any (str_eq addr) seen) && is_addressed addr to)
unfolding copies
has_copy-copies log addr seen [] = ground arith
has_copy-copies log addr seen (r ∷ to) =
    let a = lower (trim_space r) in
    elim (Bool-cases (str_eq a addr)) [
      | inl e ↦
          let same : any (str_eq a) seen ≡ any (str_eq addr) seen =
            ap (λ x. any (str_eq x) seen) ((str_eq_iff a addr).0 e) in
          let empty : str_eq a "" ≡ str_eq addr "" =
            ap (λ x. str_eq x "") ((str_eq_iff a addr).0 e) in
          ground (arith, e, same, empty, has_copy-copies log addr seen to, (==_iff log log).1 refl)
      | inr e ↦
          let other : str_eq addr a ≡ false =
            ground (arith, e, str_eq_iff a addr, str_eq_iff addr a) in
          ground (
            arith,
            e,
            other,
            has_copy-copies log addr seen to,
            has_copy-copies log addr (a ∷ seen) to,
            (==_iff log log).1 refl,
          )
    ]

any-append_end {ℓ} :
    {A : Type ℓ} (p : A → Bool) (xs : List A) (x : A) → any p (append_end xs x) ≡ (any p xs || p x)
any-append_end p [] x = ground arith
any-append_end p (y ∷ xs) x = ground (arith, any-append_end p xs x)

module _ (platform : Platform) (cx : Context) where
  -- a suppressed mail has a campaign with a representative, unless the policy discards or rejects
  suppressed_has_representative :
      (fingerprint : String) (d : Disposition) (reason : String) (ev : Event) (store : Store)
      → is_discard (campaign_action cx.policy) ≡ false
      → is_quarantined ((settle_campaign platform cx fingerprint (d, reason) ev store).outcome.0)
        ≡ true
      → (settle_campaign platform cx fingerprint (d, reason) ev store).suppress_duplicate ≡ true
      → has_representative ((settle_campaign platform cx fingerprint (d, reason) ev store).campaign)
        ≡ true
  unfolding settle_campaign apply_campaign
  suppressed_has_representative fingerprint d reason ev store keeps q s = ground arith

  -- The mail log stands behind the earlier ones. A delivered or tagged mail has a copy for exactly
  -- the addresses of its envelope, besides the copies that were there before; a quarantined one has
  -- an entry, or its campaign has a representative or an entry.
  pub record IsAccounted (ev : Event) (f : Filed) (store store' : Store) : Type 0 where
    pub logged :
        store'.mail_logs
        ≡ append_end store.mail_logs (record {
          campaign_id = f.campaign_id;
          campaign_copy_number = f.campaign.message_count;
          disposition = f.outcome.0;
          reason = f.outcome.1;
          analysis_pending = f.held;
        })
    pub copied :
        should_create_mailbox_copy (f.outcome.0) ≡ true
        → (addr : String)
        → has_copy (length store.mail_logs) addr store'.mailbox
          ≡ (has_copy (length store.mail_logs) addr store.mailbox || is_addressed addr ev.to)
    pub entered :
        is_quarantined (f.outcome.0) ≡ true
        → (has_entry (length store.mail_logs) store'.quarantine ≡ true)
          ⊎ ((has_representative f.campaign ≡ true)
              ⊎ (has_campaign_entry f.campaign_id store.quarantine ≡ true))

  store_mail-logged :
      (f : Filed) (ev : Event) (store : Store)
      → (store_mail platform cx f ev store).mail_logs
        ≡ append_end store.mail_logs (record {
          campaign_id = f.campaign_id;
          campaign_copy_number = f.campaign.message_count;
          disposition = f.outcome.0;
          reason = f.outcome.1;
          analysis_pending = f.held;
        })
  unfolding store_mail store_log is_suppressed store_entry store_scans count_suppressed
  store_mail-logged f ev store = ground arith

  store_mail-copied :
      (f : Filed) (ev : Event) (store : Store)
      → should_create_mailbox_copy (f.outcome.0) ≡ true
      → (store_mail platform cx f ev store).mailbox
        ≡ store.mailbox ++ copies (length store.mail_logs) [] ev.to
  unfolding store_mail store_log is_suppressed store_entry store_scans count_suppressed
  store_mail-copied f ev store c = ground arith

  store_mail-has_copy :
      (f : Filed) (ev : Event) (store : Store)
      → should_create_mailbox_copy (f.outcome.0) ≡ true
      → (addr : String)
      → has_copy (length store.mail_logs) addr (store_mail platform cx f ev store).mailbox
        ≡ (has_copy (length store.mail_logs) addr store.mailbox || is_addressed addr ev.to)
  store_mail-has_copy f ev store c addr =
      let log = length store.mail_logs in
      rw
        (
          store_mail-copied f ev store c,
          any-append _ store.mailbox (copies log [] ev.to),
          has_copy-copies log addr [] ev.to,
        )
        refl

  -- an entry is missing only where the mail is suppressed or the unique index refuses it
  store_mail-has_entry :
      (f : Filed) (ev : Event) (store : Store)
      → is_quarantined (f.outcome.0) ≡ true
      → (has_entry (length store.mail_logs) ((store_mail platform cx f ev store).quarantine) ≡ true)
        ⊎ ((f.suppress_duplicate ≡ true)
            ⊎ (has_campaign_entry f.campaign_id store.quarantine ≡ true))
  unfolding store_mail store_log is_suppressed store_entry store_scans count_suppressed
  store_mail-has_entry f ev store q =
      let log = length store.mail_logs in
      let added =
        any-append_end (λ (e : QuarantineEntry). e.mail_log_id == log) store.quarantine
          (entry_of platform cx log f ev) in
      ground (arith, added, (==_iff log log).1 refl)

  -- Unless the tenant discards the campaign, every mail is accounted for: it has a log; after a
  -- delivered or tagged mail, an address has a mailbox copy of it exactly when the envelope names
  -- the address (trimmed, in lower case, not empty) or the copy was there before; a quarantined
  -- one has an entry, or its campaign has a representative or an entry.
  pub file_mail-IsAccounted :
      (fingerprint : String) (d : Disposition) (reason : String) (ev : Event) (store : Store)
      → is_discard (campaign_action cx.policy) ≡ false
      → IsAccounted ev
          ((file_mail platform cx fingerprint (d, reason) ev store).0)
          store
          ((file_mail platform cx fingerprint (d, reason) ev store).1)
  unfolding file_mail
  file_mail-IsAccounted fingerprint d reason ev store keeps =
      let f = settle_campaign platform cx fingerprint (d, reason) ev store in
      let old = suppressed_has_representative fingerprint d reason ev store keeps in
      record {
        logged = store_mail-logged f ev store;
        copied = λ c addr. store_mail-has_copy f ev store c addr;
        entered = λ q. elim (store_mail-has_entry f ev store q) [
          | inl e ↦ inl e
          | inr (inl s) ↦ inr (inl (old q s))
          | inr (inr c) ↦ inr (inr c)
        ];
      }
