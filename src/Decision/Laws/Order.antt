-- ===== src/Decision/Laws/Order.antt =====
-- The first stages and the order in which the runtime visits the symbols.
use mathlib.Core.List.{Permᴰ}
use sentinel_mail_gateway.Prelude.{String, ◌≡◌, ap, ◌∙◌, any-permᴰ, [], ◌∷◌}
use sentinel_mail_gateway.Platform.{Platform}
use sentinel_mail_gateway.Event.{Event, Symbols}
use sentinel_mail_gateway.Event.Order.{
  has_symbol-perm, has_any_symbol-perm, has_symbol_containing-perm,
}
use sentinel_mail_gateway.Policy.{Policy}
use sentinel_mail_gateway.Disposition.{Disposition}
use sentinel_mail_gateway.MailAuth.{
  auth_signals, has_auth_signal, has_delivery_status_notification_symbol,
  is_delivery_status_notification, apply_delivery_status_notification_disposition,
  apply_auth_enforcement,
}
use sentinel_mail_gateway.Decision.{decide}
use sentinel_mail_gateway.Decision.Stages.{Lookups, screen}

module _ (platform : Platform) {xs ys : Symbols} (p : Permᴰ xs ys) where
  auth_signals-perm : auth_signals xs ≡ auth_signals ys
  unfolding auth_signals
  auth_signals-perm = λ i. record {
    spf_pass = has_symbol_containing-perm p "SPF" ("ALLOW" ∷ "PASS" ∷ []) i;
    dkim_pass = has_symbol_containing-perm p "DKIM" ("ALLOW" ∷ "PASS" ∷ []) i;
    dmarc_pass = has_symbol_containing-perm p "DMARC" ("ALLOW" ∷ "PASS" ∷ []) i;
    spf_fail = has_any_symbol-perm p ("R_SPF_FAIL" ∷ "R_SPF_PERMFAIL" ∷ []) i;
    dkim_fail = has_symbol_containing-perm p "DKIM" ("FAIL" ∷ "REJECT" ∷ []) i;
    dmarc_fail = has_any_symbol-perm p ("DMARC_POLICY_REJECT" ∷ "DMARC_POLICY_QUARANTINE" ∷ []) i;
  }

  has_auth_signal-perm : has_auth_signal xs ≡ has_auth_signal ys
  unfolding has_auth_signal
  has_auth_signal-perm = any-permᴰ _ p

  dsn_symbol-perm :
      has_delivery_status_notification_symbol xs ≡ has_delivery_status_notification_symbol ys
  unfolding has_delivery_status_notification_symbol
  dsn_symbol-perm = any-permᴰ _ p

  module _ (ev : Event) where
    dsn-perm :
        is_delivery_status_notification platform (record ev { symbols = xs })
        ≡ is_delivery_status_notification platform (record ev { symbols = ys })
    unfolding is_delivery_status_notification
    dsn-perm = rw dsn_symbol-perm

    apply_dsn-perm :
        (d : Disposition) (reason : String)
        → apply_delivery_status_notification_disposition platform
            (d, reason)
            (record ev { symbols = xs })
          ≡ apply_delivery_status_notification_disposition platform
              (d, reason)
              (record ev { symbols = ys })
    unfolding apply_delivery_status_notification_disposition
    apply_dsn-perm d reason = rw dsn-perm

    apply_auth-perm :
        (d : Disposition) (reason : String)
        → apply_auth_enforcement platform (d, reason) (record ev { symbols = xs })
          ≡ apply_auth_enforcement platform (d, reason) (record ev { symbols = ys })
    unfolding apply_auth_enforcement
    apply_auth-perm d reason = rw (
      dsn-perm,
      auth_signals-perm,
      has_auth_signal-perm,
      has_symbol-perm p "DMARC_POLICY_REJECT",
      has_symbol-perm p "DMARC_POLICY_QUARANTINE",
      has_symbol-perm p "R_SPF_SOFTFAIL",
    )

    -- The outcome of the score, notification and authentication stages is one and the same for all
    -- orders of the symbols.
    pub screen-perm :
        (pol : Policy) (lookups : Lookups) (action : String)
        → screen platform pol lookups action (record ev { symbols = xs })
          ≡ screen platform pol lookups action (record ev { symbols = ys })
    unfolding screen decide
    screen-perm pol lookups action =
        let o = decide pol ev in
        let reported =
          apply_delivery_status_notification_disposition platform o (record ev { symbols = ys }) in
        ap (λ r. apply_auth_enforcement platform r (record ev { symbols = xs }))
          (apply_dsn-perm (o.0) (o.1))
        ∙ apply_auth-perm (reported.0) (reported.1)
