-- ===== src/Ingest/Scans.antt =====
-- internal/mail/ingest.go, `spawnScans`: the scan jobs of a mail.
pub mod Laws
use sentinel_mail_gateway.Prelude.{
  ℕ, suc, String, Bool, true, false, not, ◌&&◌, ◌||◌, List, [], ◌∷◌, ◌++◌, length, keep, map, take,
  leb, str_eq, if◌then◌else◌,
}
use sentinel_mail_gateway.Strings.{lower, has_prefix}
use sentinel_mail_gateway.Platform.{Platform}
use sentinel_mail_gateway.Event.{Event, Attachment}
use sentinel_mail_gateway.Disposition.{Disposition, is_tagged, is_quarantined}
use sentinel_mail_gateway.Sandbox.{prioritized_sandbox_urls}

-- what the mail path reads of settings.AIConfig
pub record AiConfig : Type 0 where
  pub mode : String
  pub available : Bool

-- settings.ShouldQueueAI
unfoldable pub should_queue_ai : AiConfig → Disposition → Bool
should_queue_ai config d =
    config.available
    && (str_eq config.mode "all"
        || (str_eq config.mode "suspicious" && (is_tagged d || is_quarantined d)))

abbrev pub max_attachment_scans : ℕ
max_attachment_scans = 5

abbrev pub max_attachment_size : ℕ
max_attachment_size = 2097152

unfoldable pub is_scannable : Attachment → Bool
is_scannable a = has_prefix (lower a.content_type) "image/" && leb a.size_bytes max_attachment_size

module _ (platform : Platform) where
  -- the kinds of the jobs that `spawnScans` tries to enqueue, in order
  unfoldable pub wanted_scans : AiConfig → Disposition → Event → List String
  unfolding should_queue_ai is_scannable
  wanted_scans config d ev =
      let ai =
        str_eq ev.direction "inbound"
        && (not (str_eq ev.subject "" && str_eq ev.body_text "") && should_queue_ai config d) in
      let images = take max_attachment_scans (keep is_scannable ev.attachments) in
      let links = prioritized_sandbox_urls platform ev.list_unsubscribe ev.urls in
      (if ai then "ai" ∷ [] else [])
      ++ (map (λ (a : Attachment). "qr") images
          ++ (map (λ (u : String). "sandbox") links
              ++ (if str_eq ev.direction "outbound" then "outbound" ∷ [] else [])))

-- The kinds that are reported as spawned, and whether there was an error. `accepts n` says whether
-- the n-th call of `enqueue` succeeds; `failed` whether an earlier one did not. A failed call is only
-- left out of the report if it is the first.
unfoldable pub enqueue_all : (ℕ → Bool) → ℕ → Bool → List String → List String × Bool
enqueue_all accepts n failed [] = ([], failed)
enqueue_all accepts n failed (kind ∷ kinds) =
    let first_error = not (accepts n) && not failed in
    let (spawned, failed') = enqueue_all accepts (suc n) (failed || not (accepts n)) kinds in
    (if first_error then spawned else kind ∷ spawned, failed')

-- the jobs that were enqueued
unfoldable pub enqueued : (ℕ → Bool) → ℕ → List String → List String
enqueued accepts n [] = []
enqueued accepts n (kind ∷ kinds) =
    let rest = enqueued accepts (suc n) kinds in if accepts n then kind ∷ rest else rest
