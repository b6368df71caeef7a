-- ===== src/Lib.antt =====
-- SentinelMail Gateway: the path of a mail through the Go service, from the scan event that Rspamd
-- posts to the disposition that the service gives the mail, with what follows for a held mail, and
-- the service's sign-in, sender rules and quarantine.
--
-- Rspamd scans a mail and posts an event. `IngestHandler.handle` in internal/mail/ingest.go resolves
-- the policy of the recipient's domain and passes a disposition (delivered, tagged, quarantined or
-- rejected) with a reason through a row of stages; each reads the event, the policy and some answers
-- of the database, and may change the pair. The files follow that row.
--
-- - Event, Platform, Strings: the event with its symbols (JSON values), the standard library's
--   parsers as parameters, and the string functions of package strings that the code calls.
-- - Disposition, Policy: the outcomes and the classes of reasons (isHardGateReason,
--   isAllowlistOverrideBlockedReason); internal/policies/policies.go with its JSON settings.
-- - MailAuth: authSignals, isDeliveryStatusNotification, applyAuthEnforcement.
-- - Reputation: blocklist symbols, applyReputationBlocklist, applyRspamdSenderBlocklist.
-- - ThreatIntel: threatCandidates and applyCachedThreatIntelligence.
-- - Scam: AnalyzeCommonScam of internal/classifier/classifier.go.
-- - Brand, Sandbox: analyzeBrandImpersonationWithProfiles and prioritizedSandboxURLs.
-- - Threat: classifyThreatWithProfiles and the stages that act on its label.
-- - SenderList: internal/senderlists/senderlists.go (PatternsForAddress) and
--   internal/mail/sender_policy.go (lookupSenderListWithIP, and lookupSenderListAddress as a query
--   on a list of rows).
-- - Decision: decide, applySenderListAction, applyLearnedClassification, applyQuarantineFirst and
--   the challenge hold; Decision.Stages composes all stages in the order of `handle`.
-- - Ingest (Tables, Campaigns, Scans): what `handle` stores after the decision,
--   internal/mail/campaign.go and spawnScans, as a function from a store to a store.
-- - DnsLists: internal/threatfeed/codes.go and the lookup in dnsbl.go, with net.ParseIP and the
--   resolver's answer as arguments.
-- - Policy.Resolve: Resolve of internal/policies/resolve.go. The recursive query up the tree of
--   organizations takes a depth as fuel; any depth above the tree's height is enough.
-- - Tenant: internal/tenant/scope.go, whose recursive query goes down the tree, with the same fuel.
-- - Learning (Keys): Learn, Lookup and SubjectFingerprint of internal/classifier/classifier.go, the
--   table of verdicts as a list of rows.
-- - DeepAnalysis: reconcileDeepAnalysis and ResolveExpiredDeepAnalysis of internal/scan/scan.go with
--   ReleaseDeepAnalysisHold of internal/quarantine/quarantine.go, as steps on the state of one mail, with
--   the releases and deletions by users; `Reaches` holds every interleaving of them.
-- - Auth (Scan, Sessions, Mfa, Passwords, Challenge, Login, Impersonation, Guards): internal/auth, a
--   handler as a function from a request and the store of users, sessions and audit entries to an
--   outcome. History: the routes of internal/httpapi/server.go; `Reaches` holds every series of
--   requests. sha256, argon2, base64, the authenticator codes and uuid are the fields of
--   `Primitives`; what a theorem takes of them is among its hypotheses.
-- - SenderList.Rules, SenderList.Admin: UpsertDecision, UpsertUserDecision, NormalizeRule and the
--   endpoints create and del of internal/senderlists/senderlists.go, over the rows of list_entries.
-- - Quarantine (Delivery, Verdicts, Handlers, Bulk, Senders, Batches): the endpoints and bulk
--   actions of internal/quarantine/quarantine.go on a store of entries, rules, samples, reports and
--   deliveries.
--   Courses: `Follows` holds every series of the requests of `Order`, each carried out before the
--   next; the loop ReleaseDeepAnalysisHold is not among them, but in DeepAnalysis.
-- - Spoofing: Analyze of internal/spoofing/spoofing.go, what is shown beside a stored message.
-- - Feeds: Lookup, LookupCached and the cache of internal/threatfeed/threatfeed.go, the list of
--   internal/threatfeed/urlhaus.go.
--
-- They meet so: SenderList, the cached feeds and the answer of Learning's `lookup` give `Lookups`;
-- `decide_disposition` turns event and lookups into an outcome; `file_mail` stores it; and a mail
-- that `file_mail` holds is what DeepAnalysis follows.
--
-- How the model stands to the code. A score is an integer in thousandths, since the code only
-- compares and adds scores. A map of symbols is an association list in the order in which the
-- runtime visits it, so that a theorem for all lists is one for all orders. Go strings are texts of
-- characters; case mapping covers ASCII, Latin-1, Greek and Cyrillic letters. A nil event, policy
-- or map is not modelled where the caller never passes one. The parsers of encoding/base64,
-- net/url, net/netip and net/mail are fields of `Platform`, and publicsuffix is an argument; the
-- theorems hold for every such parser. What the database and Redis answer for one event is the
-- record `Lookups`. In Ingest every SQL statement is taken to succeed. sha256 and the Unicode
-- classes of letters and digits are arguments. Every loop of the code runs over a list and is
-- structural recursion; only the queries on the tree of organizations have fuel. The candidates for
-- the feeds are bounded by 8 and the links for the sandbox by 3, as in the code.
--
-- Not modelled: HTTP, SQL text, the signature of ingest requests, the warning texts and links of
-- the scam classifier, logging, the other administration endpoints, notifications, and the parts in
-- other languages.
pub mod Prelude
pub mod Strings
pub mod Event
pub mod Platform
pub mod Disposition
pub mod Policy
pub mod Scam
pub mod MailAuth
pub mod Reputation
pub mod Sandbox
pub mod Auth
pub mod Brand
pub mod Threat
pub mod ThreatIntel
pub mod Decision
pub mod SenderList
pub mod Samples
pub mod DeepAnalysis
pub mod Ingest
pub mod Learning
pub mod Tenant
pub mod DnsLists
pub mod Quarantine
pub mod Spoofing
pub mod Feeds
