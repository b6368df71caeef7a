-- ===== src/Ingest/Held.antt =====
-- A mail that waits for its scans and repeats an earlier one.
use sentinel_mail_gateway.Prelude.{String}
use sentinel_mail_gateway.Platform.{Platform}
use sentinel_mail_gateway.Event.{Event}
use sentinel_mail_gateway.Disposition.{Disposition}
use sentinel_mail_gateway.Ingest.Tables.{Context, Store, Filed}
use sentinel_mail_gateway.Ingest.{settle_campaign}

module _ (platform : Platform) (cx : Context) (fingerprint : String) (d : Disposition)
    (reason : String) (ev : Event) (store : Store) where
  abbrev pub filed : Filed
  filed = settle_campaign platform cx fingerprint (d, reason) ev store
