-- ===== src/Brand/Score/Laws.antt =====
-- When the brand analysis quarantines.
use sentinel_mail_gateway.Prelude.{
  ℕ, String, Bool, false, not, ◌&&◌, ◌||◌, ◌≡◌, arith, List, [], ◌∷◌, any, leb, ltb, str_eq,
  if◌then◌else◌, ◌∙◌,
}
use sentinel_mail_gateway.Platform.{Platform}
use sentinel_mail_gateway.Event.{Event}
use sentinel_mail_gateway.Reputation.{email_domain}
use sentinel_mail_gateway.Brand.{BrandAnalysisOptions, BrandAnalysis, no_brand, domain_matches_any}
use sentinel_mail_gateway.Brand.Profiles.{ProtectedBrandProfile}
use sentinel_mail_gateway.Brand.Score.{
  claim, settle, score_brand_claim, best_claim, analyze_brand_impersonation,
}

claim-quarantine :
    (test : Bool) (delta : ℕ) (signal : String) (a : BrandAnalysis)
    → (claim test delta signal a).quarantine ≡ a.quarantine
unfolding claim
claim-quarantine test delta signal a = ground arith

settle-quarantine :
    (receipt : Bool) (a : BrandAnalysis)
    → a.quarantine ≡ false
    → (settle receipt a).quarantine ≡ false
unfolding settle
settle-quarantine receipt a h = ground arith

module _ (platform : Platform) where
  score_brand_claim-quarantine :
      (ev : Event) (from_domain : String) (profile : ProtectedBrandProfile)
      (opts : BrandAnalysisOptions)
      → (score_brand_claim platform ev from_domain profile opts).quarantine ≡ false
  unfolding score_brand_claim
  score_brand_claim-quarantine ev from_domain profile opts = settle-quarantine _ _ (
      claim-quarantine _ _ _ _
      ∙ claim-quarantine _ _ _ _
      ∙ claim-quarantine _ _ _ _
      ∙ claim-quarantine _ _ _ _
      ∙ claim-quarantine _ _ _ _)

  -- a profile of a brand that the sender's domain does not belong to, and that the mail claims
  pub claims_brand : Event → String → BrandAnalysisOptions → ProtectedBrandProfile → Bool
  claims_brand ev from_domain opts profile =
      not (domain_matches_any from_domain profile.sender_domains)
      && leb 70 ((score_brand_claim platform ev from_domain profile opts).score)

  best_claim_iff :
      (ev : Event) (from_domain : String) (opts : BrandAnalysisOptions)
      (profiles : List ProtectedBrandProfile) (best : BrandAnalysis)
      → leb 70 ((best_claim platform ev from_domain opts profiles best).score)
        ≡ (leb 70 best.score || any (claims_brand ev from_domain opts) profiles)
  unfolding best_claim claims_brand
  best_claim_iff ev from_domain opts [] best = ground arith
  best_claim_iff ev from_domain opts (profile ∷ profiles) best =
      let current = score_brand_claim platform ev from_domain profile opts in
      let next =
        if domain_matches_any from_domain profile.sender_domains
        then best
        else if ltb best.score current.score
        then current
        else best in
      ground (arith, best_claim_iff ev from_domain opts profiles next)

  best_claim-quarantine :
      (ev : Event) (from_domain : String) (opts : BrandAnalysisOptions)
      (profiles : List ProtectedBrandProfile) (best : BrandAnalysis)
      → best.quarantine ≡ false
      → (best_claim platform ev from_domain opts profiles best).quarantine ≡ false
  unfolding best_claim
  best_claim-quarantine ev from_domain opts [] best h = h
  best_claim-quarantine ev from_domain opts (profile ∷ profiles) best h =
      let current = score_brand_claim platform ev from_domain profile opts in
      let next =
        if domain_matches_any from_domain profile.sender_domains
        then best
        else if ltb best.score current.score
        then current
        else best in
      best_claim-quarantine ev from_domain opts profiles next
        (ground (arith, score_brand_claim-quarantine ev from_domain profile opts))

  -- The analysis quarantines exactly when it is enabled, the sender has a domain, and some profile
  -- whose own domains do not include the sender's scores at least 70.
  pub analyze_brand_impersonation-quarantine :
      (ev : Event) (opts : BrandAnalysisOptions) (profiles : List ProtectedBrandProfile)
      → (analyze_brand_impersonation platform ev opts profiles).quarantine ≡ (
          opts.enabled
          && (not (str_eq (email_domain ev.from) "")
              && any (claims_brand ev (email_domain ev.from) opts) profiles))
  unfolding analyze_brand_impersonation
  analyze_brand_impersonation-quarantine ev opts profiles = ground (
    arith,
    best_claim_iff ev (email_domain ev.from) opts profiles no_brand,
    best_claim-quarantine ev (email_domain ev.from) opts profiles no_brand,
  )
