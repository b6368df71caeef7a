-- ===== src/MailAuth/Laws.antt =====
-- When an inbound mail passes the authentication stage, and when a notification bypasses it.
use sentinel_mail_gateway.Prelude.{String, true, false, [], ◌∷◌, ◌≡◌, ◌↔◌, ◌⊎◌, arith, refl}
use sentinel_mail_gateway.Strings.{equal_fold}
use sentinel_mail_gateway.Platform.{Platform}
use sentinel_mail_gateway.Event.{Event, Symbols, has_symbol}
use sentinel_mail_gateway.Disposition.{Disposition, is_final}
use sentinel_mail_gateway.MailAuth.{
  auth_signals, has_auth_signal, is_delivery_status_notification,
  has_delivery_status_notification_symbol, apply_auth_enforcement,
}

module _ (platform : Platform) where
  -- What an inbound mail that is no notification must show to pass.
  pub record IsAuthenticated (ev : Event) : Type 0 where
    pub signalled : has_auth_signal ev.symbols ≡ true
    pub no_reject : has_symbol ev.symbols "DMARC_POLICY_REJECT" ≡ false
    pub no_quarantine : has_symbol ev.symbols "DMARC_POLICY_QUARANTINE" ≡ false
    pub passed :
        ((auth_signals ev.symbols).dmarc_pass ≡ true)
        ⊎ ((auth_signals ev.symbols).spf_pass ≡ true)
        ⊎ ((auth_signals ev.symbols).dkim_pass ≡ true)

  -- An inbound mail that is no delivery status notification leaves the stage neither quarantined
  -- nor rejected exactly when it entered so and is authenticated.
  pub apply_auth_enforcement-is_final_iff :
      (ev : Event) (d : Disposition) (reason : String)
      → equal_fold ev.direction "outbound" ≡ false
      → is_delivery_status_notification platform ev ≡ false
      → (is_final ((apply_auth_enforcement platform (d, reason) ev).0) ≡ false)
        ↔ ((is_final d ≡ false) × IsAuthenticated ev)
  unfolding apply_auth_enforcement
  apply_auth_enforcement-is_final_iff ev d reason inbound mail = (ground arith, ground arith)

-- Whether a BOUNCE symbol is a delivery status notification does not depend on its options.
pub bounce-ignores_options :
    (symbols : Symbols)
    → has_delivery_status_notification_symbol symbols ≡ has_symbol symbols "BOUNCE"
unfolding has_delivery_status_notification_symbol has_symbol
bounce-ignores_options [] = refl
bounce-ignores_options (s ∷ rest) = ground (arith, bounce-ignores_options rest)
