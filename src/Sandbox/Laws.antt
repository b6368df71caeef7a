-- ===== src/Sandbox/Laws.antt =====
-- The links that are sent to the sandbox: where they come from, and their order.
use sentinel_mail_gateway.Prelude.{
  ℕ, zero, suc, All-imp, All-both, All-take, All-keep, All-map, keep-All, ◌≤◌, String, true, false,
  ◌≡◌, inl, inr, refl, arith, Bool, Bool-cases, Option-cases, List, [], ◌∷◌, length, length-take-le,
  length-map, map, All, keep, take, some, ltb_ℤ, pos,
}
use mathlib.Core.List.{Memᴰ}
use sentinel_mail_gateway.Strings.{trim_space}
use sentinel_mail_gateway.Platform.{Platform, Url}
use sentinel_mail_gateway.Sandbox.{
  SandboxUrlCandidate, precedes, insert, sort_stable, is_actionable, is_http_url,
  sandbox_url_priority, accept, collect, candidates, prioritized_sandbox_urls, max_url_scans,
}

module _ {κ} (P : SandboxUrlCandidate → Type κ) where
  All-insert :
      (c : SandboxUrlCandidate) (cs : List SandboxUrlCandidate)
      → P c
      → All P cs
      → All P (insert c cs)
  unfolding insert
  All-insert c [] p h = (p, tt)
  All-insert c (d ∷ ds) p (q, h) = elim (Bool-cases (precedes d c)) [
    | inl e ↦ rw e (q, All-insert c ds p h)
    | inr e ↦ rw e (p, (q, h))
  ]

  All-sort_stable : (cs : List SandboxUrlCandidate) → All P cs → All P (sort_stable cs)
  unfolding sort_stable
  All-sort_stable [] h = tt
  All-sort_stable (c ∷ cs) (p, h) = All-insert c (sort_stable cs) p (All-sort_stable cs h)

-- Falling priority, each candidate against all that follow it.
abbrev NotBelow : SandboxUrlCandidate → SandboxUrlCandidate → Type 0
NotBelow c d = ltb_ℤ c.score d.score ≡ false

abbrev IsFalling : List SandboxUrlCandidate → Type 0
IsFalling [] = Unit
IsFalling (c ∷ cs) = All (NotBelow c) cs × IsFalling cs

NotBelow-trans : (a b c : SandboxUrlCandidate) → NotBelow a b → NotBelow b c → NotBelow a c
NotBelow-trans a b c h k = ground arith

NotBelow-precedes : (a b : SandboxUrlCandidate) → precedes a b ≡ true → NotBelow a b
unfolding precedes
NotBelow-precedes a b h = ground arith

NotBelow-not_precedes : (a b : SandboxUrlCandidate) → precedes a b ≡ false → NotBelow b a
unfolding precedes
NotBelow-not_precedes a b h = ground arith

insert-IsFalling :
    (c : SandboxUrlCandidate) (cs : List SandboxUrlCandidate)
    → IsFalling cs
    → IsFalling (insert c cs)
unfolding insert
insert-IsFalling c [] h = (tt, tt)
insert-IsFalling c (d ∷ ds) (below, h) = elim (Bool-cases (precedes d c)) [
  | inl e ↦
      rw e (All-insert (NotBelow d) c ds (NotBelow-precedes d c e) below, insert-IsFalling c ds h)
  | inr e ↦
      let first = NotBelow-not_precedes d c e in
      rw e (
        (first, All-imp (NotBelow d) (NotBelow c) (λ x k. NotBelow-trans c d x first k) ds below),
        (below, h),
      )
]

sort_stable-IsFalling : (cs : List SandboxUrlCandidate) → IsFalling (sort_stable cs)
unfolding sort_stable
sort_stable-IsFalling [] = tt
sort_stable-IsFalling (c ∷ cs) = insert-IsFalling c (sort_stable cs) (sort_stable-IsFalling cs)

keep-IsFalling :
    (test : SandboxUrlCandidate → Bool) (cs : List SandboxUrlCandidate)
    → IsFalling cs
    → IsFalling (keep test cs)
keep-IsFalling test [] h = tt
keep-IsFalling test (c ∷ cs) (below, h) = elim (Bool-cases (test c)) [
  | inl e ↦ rw e (All-keep (NotBelow c) test cs below, keep-IsFalling test cs h)
  | inr e ↦ rw e (keep-IsFalling test cs h)
]

take-IsFalling : (n : ℕ) (cs : List SandboxUrlCandidate) → IsFalling cs → IsFalling (take n cs)
take-IsFalling zero cs h = tt
take-IsFalling (suc n) [] h = tt
take-IsFalling (suc n) (c ∷ cs) (below, h) =
    (All-take (NotBelow c) n cs below, take-IsFalling n cs h)

module _ (platform : Platform) (list_unsubscribe : String) where
  -- Where a candidate comes from, and what its score is.
  record IsRanked (urls : List String) (c : SandboxUrlCandidate) : Type 0 where
    source : String
    listed : Memᴰ source urls
    trimmed : c.raw ≡ trim_space source
    http : is_http_url c.raw ≡ true
    parsed : Url
    parses : platform.parse_url c.raw ≡ some parsed
    scored : c.score ≡ sandbox_url_priority parsed list_unsubscribe

  IsRanked-cons :
      (url : String) (urls : List String) (c : SandboxUrlCandidate)
      → IsRanked urls c
      → IsRanked (url ∷ urls) c
  IsRanked-cons url urls c r = record {
    source = r.source;
    listed = Memᴰ.tail r.listed;
    trimmed = r.trimmed;
    http = r.http;
    parsed = r.parsed;
    parses = r.parses;
    scored = r.scored;
  }

  accept-IsRanked :
      (url : String) (urls : List String) (order : ℕ) (seen : List String) (c : SandboxUrlCandidate)
      (key : String)
      → accept platform list_unsubscribe (trim_space url) order seen ≡ some (c, key)
      → IsRanked (url ∷ urls) c
  unfolding accept
  accept-IsRanked url urls order seen c key h =
      elim (Option-cases (platform.parse_url (trim_space url))) [
        | inl e ↦ absurd (ground arith)
        | inr (parsed, e) ↦ record {
          source = url;
          listed = Memᴰ.head refl;
          trimmed = ground arith;
          http = ground arith;
          parsed = parsed;
          parses = ground arith;
          scored = ground arith;
        }
      ]

  collect-IsRanked :
      (order : ℕ) (seen urls : List String)
      → All (IsRanked urls) (collect platform list_unsubscribe order seen urls)
  unfolding collect
  collect-IsRanked order seen [] = tt
  collect-IsRanked order seen (url ∷ urls) =
      let weaken = All-imp (IsRanked urls) (IsRanked (url ∷ urls)) (IsRanked-cons url urls) in
      elim (Option-cases (accept platform list_unsubscribe (trim_space url) order seen)) [
        | inl e ↦ rw (e, collect) (weaken _ (collect-IsRanked (suc order) seen urls))
        | inr ((c, key), e) ↦
            rw (e, collect)
              (
                accept-IsRanked url urls order seen c key e,
                weaken _ (collect-IsRanked (suc order) (key ∷ seen) urls),
              )
      ]

  -- A link that is worth a visit: an entry of the list, trimmed, with an HTTP scheme, that parses
  -- and whose priority is positive.
  pub record IsTarget (urls : List String) (raw : String) : Type 0 where
    pub source : String
    pub listed : Memᴰ source urls
    pub trimmed : raw ≡ trim_space source
    pub http : is_http_url raw ≡ true
    pub parsed : Url
    pub parses : platform.parse_url raw ≡ some parsed
    pub positive : ltb_ℤ (pos 0) (sandbox_url_priority parsed list_unsubscribe) ≡ true

  IsTarget-ranked :
      (urls : List String) (c : SandboxUrlCandidate)
      → IsRanked urls c × (is_actionable c ≡ true)
      → IsTarget urls c.raw
  unfolding is_actionable
  IsTarget-ranked urls c (r, actionable) = record {
    source = r.source;
    listed = r.listed;
    trimmed = r.trimmed;
    http = r.http;
    parsed = r.parsed;
    parses = r.parses;
    positive = rw (← r.scored) actionable;
  }

  candidates-IsTarget :
      (urls : List String)
      → All (λ c. IsTarget urls c.raw) (candidates platform list_unsubscribe urls)
  unfolding candidates
  candidates-IsTarget urls =
      let sorted = sort_stable (collect platform list_unsubscribe 0 [] urls) in
      let ranked = All-sort_stable (IsRanked urls) _ (collect-IsRanked 0 [] urls) in
      All-imp _ _ (IsTarget-ranked urls) (keep is_actionable sorted) (
        All-both (IsRanked urls) (λ c. is_actionable c ≡ true) _
          (All-keep (IsRanked urls) is_actionable sorted ranked) (keep-All is_actionable sorted))

  -- The chosen links stand in the order of falling priority.
  prioritized_sandbox_urls-IsFalling :
      (urls : List String)
      → (chosen : List SandboxUrlCandidate) × (prioritized_sandbox_urls platform list_unsubscribe
            urls
          ≡ map (λ (c : SandboxUrlCandidate). c.raw) chosen)
        × IsFalling chosen
  unfolding prioritized_sandbox_urls candidates
  prioritized_sandbox_urls-IsFalling urls =
      let sorted = sort_stable (collect platform list_unsubscribe 0 [] urls) in
      let actionable =
        keep-IsFalling is_actionable sorted
          (sort_stable-IsFalling (collect platform list_unsubscribe 0 [] urls)) in
      (
        take max_url_scans (keep is_actionable sorted),
        refl,
        take-IsFalling max_url_scans (keep is_actionable sorted) actionable,
      )

  -- However many links a mail holds, at most three are chosen, and each is a target: an entry of
  -- the list, trimmed, with an HTTP scheme, that parses and whose priority is positive.
  pub prioritized_sandbox_urls-IsTarget :
      (urls : List String)
      → (length (prioritized_sandbox_urls platform list_unsubscribe urls) ≤ 3)
        × All (IsTarget urls) (prioritized_sandbox_urls platform list_unsubscribe urls)
  unfolding prioritized_sandbox_urls
  prioritized_sandbox_urls-IsTarget urls =
      let chosen = candidates platform list_unsubscribe urls in
      (
        rw length-map (length-take-le max_url_scans chosen),
        All-map (IsTarget urls) (λ (c : SandboxUrlCandidate). c.raw) (take max_url_scans chosen)
            (All-take _ max_url_scans chosen (candidates-IsTarget urls)),
      )
