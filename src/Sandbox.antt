-- ===== src/Sandbox.antt =====
-- internal/mail/ingest.go: the choice of links that are sent to the browser sandbox.
pub mod Tests
pub mod Laws
use Prim.Native.String.{◌++◌}
use sentinel_mail_gateway.Prelude.{
  ℕ, suc, ◌+◌, String, Bool, true, false, ◌&&◌, ◌||◌, Option, none, some, List, [], ◌∷◌, any, keep,
  map, take, ℤ, pos, negsuc, ◌+ℤ◌, ltb_ℤ, leb_ℤ, ltb, ◌==◌, str_eq, if◌then◌else◌,
}
use sentinel_mail_gateway.Strings.{lower, trim_space, contains, contains_any, has_prefix}
use sentinel_mail_gateway.Platform.{Platform, Url}
use sentinel_mail_gateway.Event.{Event}

abbrev pub max_url_scans : ℕ
max_url_scans = 3

unfoldable pub is_http_url : String → Bool
is_http_url value =
    let value' = lower (trim_space value) in
    has_prefix value' "http://" || has_prefix value' "https://"

-- `if test { score += delta }`
abbrev adjust : Bool → ℤ → ℤ → ℤ
adjust test delta score = if test then score +ℤ delta else score

unfoldable pub sandbox_url_priority : Url → String → ℤ
unfolding ◌+ℤ◌
sandbox_url_priority parsed list_unsubscribe =
    let value =
      lower (parsed.hostname ++ (" " ++ (parsed.escaped_path ++ (" " ++ parsed.raw_query)))) in
    let path = lower parsed.escaped_path in
    let sensitive = contains_any value (
      "login" ∷ "log-in" ∷ "signin" ∷ "sign-in" ∷ "account" ∷ "verify" ∷ "verification" ∷ "secure"
      ∷ "security" ∷ "auth" ∷ "password" ∷ "billing" ∷ "payment" ∷ "update" ∷ "confirm"
      ∷ "reactivate" ∷ "restore" ∷ "reset" ∷ "checkout" ∷ []) in
    let redirect = contains_any value ("click" ∷ "redirect" ∷ "link" ∷ "/ls/" ∷ "/r/" ∷ []) in
    let asset = contains_any path (
      ".png" ∷ ".jpg" ∷ ".jpeg" ∷ ".gif" ∷ ".webp" ∷ ".svg" ∷ ".ico" ∷ ".css" ∷ ".js" ∷ ".woff"
      ∷ ".woff2" ∷ ".ttf" ∷ ".mp4" ∷ ".pdf" ∷ []) in
    let pixel =
      contains_any value
        ("pixel" ∷ "tracking" ∷ "track/open" ∷ "open.gif" ∷ "beacon" ∷ "spacer" ∷ []) in
    let unsubscribe =
      contains_any value ("unsubscribe" ∷ "optout" ∷ "opt-out" ∷ "preferences" ∷ [])
      || contains (lower list_unsubscribe) parsed.hostname in
    adjust unsubscribe (negsuc 249) (
      adjust pixel (negsuc 149) (
        adjust asset (negsuc 199) (adjust redirect (pos 35) (adjust sensitive (pos 100) (pos 10)))))

pub record SandboxUrlCandidate : Type 0 where
  pub raw : String
  pub score : ℤ
  pub order : ℕ

-- the comparison that is handed to sort.SliceStable
unfoldable pub precedes : SandboxUrlCandidate → SandboxUrlCandidate → Bool
precedes a b =
    if ltb_ℤ a.score b.score || ltb_ℤ b.score a.score
    then ltb_ℤ b.score a.score
    else ltb a.order b.order

-- the stable sort: a candidate goes in front of the first one that does not precede it
insert : SandboxUrlCandidate → List SandboxUrlCandidate → List SandboxUrlCandidate
insert c [] = c ∷ []
insert c (d ∷ ds) = if precedes d c then d ∷ insert c ds else c ∷ d ∷ ds

sort_stable : List SandboxUrlCandidate → List SandboxUrlCandidate
unfolding insert precedes
sort_stable [] = []
sort_stable (c ∷ cs) = insert c (sort_stable cs)

unfoldable pub is_actionable : SandboxUrlCandidate → Bool
is_actionable c = ltb_ℤ (pos 0) c.score

normalized : Url → String
normalized parsed = lower (parsed.scheme ++ ("://" ++ (parsed.host ++ parsed.escaped_path)))

module _ (platform : Platform) (list_unsubscribe : String) where
  -- The body of the loop over `ev.URLs` up to the append: the candidate and its normalised link.
  accept : String → ℕ → List String → Option (SandboxUrlCandidate × String)
  accept raw order seen =
      if is_http_url raw
      then elim (platform.parse_url raw) [
        | none ↦ none
        | some parsed ↦
            if any (str_eq (normalized parsed)) seen
            then none
            else some (
              record {
                raw = raw;
                score = sandbox_url_priority parsed list_unsubscribe;
                order = order;
              },
              normalized parsed,
            )
      ]
      else none

  -- The loop: `seen` holds the normalised links so far, `order` the index.
  collect : ℕ → List String → List String → List SandboxUrlCandidate
  collect order seen [] = []
  collect order seen (url ∷ urls) = elim (accept (trim_space url) order seen) [
    | none ↦ collect (suc order) seen urls
    | some (c, key) ↦ c ∷ collect (suc order) (key ∷ seen) urls
  ]

  candidates : List String → List SandboxUrlCandidate
  unfolding collect accept normalized
  candidates urls = keep is_actionable (sort_stable (collect 0 [] urls))

  unfoldable pub prioritized_sandbox_urls : List String → List String
  unfolding candidates sort_stable is_actionable sandbox_url_priority is_http_url
  prioritized_sandbox_urls urls =
      map (λ (c : SandboxUrlCandidate). c.raw) (take max_url_scans (candidates urls))
