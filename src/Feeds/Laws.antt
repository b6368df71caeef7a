-- ===== src/Feeds/Laws.antt =====
-- What the registry stores, and what LookupCached reads.
use sentinel_mail_gateway.Prelude.{String}
