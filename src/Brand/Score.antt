-- ===== src/Brand/Score.antt =====
-- internal/mail/ingest.go: `scoreBrandClaim` and the choice of the best profile.
pub mod Laws
use Prim.Native.String.{◌++◌}
use sentinel_mail_gateway.Prelude.{
  ℕ, ◌+◌, ◌-◌, String, Bool, true, false, not, ◌&&◌, ◌||◌, List, [], ◌∷◌, ◌++◌ as append, ltb, leb,
  ◌==◌, str_eq, if◌then◌else◌, Option,
}
use sentinel_mail_gateway.Strings.{trim_space, contains_any, equal_fold}
use sentinel_mail_gateway.Platform.{Platform}
use sentinel_mail_gateway.Event.{Event}
use sentinel_mail_gateway.Policy.{Policy, brand_impersonation_enabled}
use sentinel_mail_gateway.Disposition.{Disposition, Outcome, quarantined, is_final}
use sentinel_mail_gateway.MailAuth.{auth_signals, AuthSignals}
use sentinel_mail_gateway.Reputation.{email_domain}
use sentinel_mail_gateway.Brand.Profiles.{
  ProtectedBrandProfile, account_loss_pressure_phrases, update_details_cta_phrases,
}
use sentinel_mail_gateway.Brand.{
  BrandAnalysisOptions, brand_analysis_options_from_policy, BrandAnalysis, no_brand, brand_reason,
  domain_matches_any, suspicious_text, is_authenticated_third_party_receipt,
  first_mismatched_url_host, first_mismatched_direct_url_host,
}

-- `if test { Score += delta; Signals = append(Signals, signal) }`
unfoldable pub claim : Bool → ℕ → String → BrandAnalysis → BrandAnalysis
claim test delta signal a =
    if test
    then record a { score = a.score + delta; signals = append a.signals (signal ∷ []) }
    else a

-- the last deduction, the reset to 0 and the empty result
unfoldable pub settle : Bool → BrandAnalysis → BrandAnalysis
settle receipt a =
    let b =
      if receipt
      then record a {
        score = a.score - 80;
        signals = append a.signals ("authenticated third-party receipt context" ∷ []);
      }
      else a in
    if b.score == 0 then no_brand else b

-- The claims that a mail makes of one brand.
pub record Claims : Type 0 where
  pub display_name : Bool
  pub subject : Bool
  pub body : Bool
  pub pressure : Bool
  -- the subject claim has one of the profile's cues
  pub cued : Bool
  -- the body describes a signature workflow and asks for it
  pub signature : Bool
  pub newsletter : Bool

unfoldable pub claims_of : Event → ProtectedBrandProfile → Claims
claims_of ev profile =
    let from_name = suspicious_text ev.from_name in
    let subject = suspicious_text ev.subject in
    let body = suspicious_text ev.body_text in
    let combined = trim_space (subject ++ (" " ++ body)) in
    let pressure =
      (contains_any subject profile.terms || contains_any body profile.terms)
      && (contains_any combined account_loss_pressure_phrases
          && contains_any combined update_details_cta_phrases) in
    record {
      display_name = contains_any from_name profile.terms;
      subject = contains_any subject profile.terms;
      body = contains_any body profile.terms;
      pressure = pressure;
      cued = contains_any combined profile.cues;
      signature =
          contains_any body
            ("review & sign" ∷ "review and sign" ∷ "sign the document" ∷ "electronic approval" ∷ [])
          && contains_any body (
              "signature pending" ∷ "electronic signature" ∷ "signature platform" ∷ "envelope"
              ∷ []);
      newsletter =
          (auth_signals ev.symbols).dmarc_pass
          && (not (str_eq (trim_space ev.list_unsubscribe) "")
              && (not (contains_any from_name profile.terms) && not pressure));
    }

module _ (platform : Platform) where
  unfoldable pub score_brand_claim :
      Event → String → ProtectedBrandProfile → BrandAnalysisOptions → BrandAnalysis
  score_brand_claim ev from_domain profile opts =
      let c = claims_of ev profile in
      let direct_host = first_mismatched_direct_url_host platform ev from_domain profile in
      let host = first_mismatched_url_host platform ev.urls ev from_domain profile in
      let start : BrandAnalysis = record {
        brand = profile.name;
        score = 0;
        signals = [];
        quarantine = false;
      } in
      let named =
        claim (opts.display_name_enabled && c.display_name) 80
          ("display name claims " ++ profile.name) start in
      let subjected =
        claim (opts.subject_enabled && (c.subject && c.cued)) 45
          ("message claims " ++ (profile.name ++ " with sensitive context")) named in
      let signed =
        claim
          (opts.link_mismatch_enabled
            && (c.body
                && (not c.display_name
                    && (not c.subject && (c.signature && not (str_eq direct_host ""))))))
          80
          ("body claims "
            ++ (profile.name
                ++ (" signature workflow with link to unrelated domain " ++ direct_host)))
          subjected in
      let pressed =
        claim c.pressure 80 "account or payment pressure asks the recipient to update details"
          signed in
      let linked =
        claim
          (opts.link_mismatch_enabled
            && ((c.display_name || (c.subject || c.pressure))
                && (not c.newsletter && not (str_eq host ""))))
          45 ("link points to unrelated domain " ++ host) pressed in
      settle (opts.third_party_receipts_safe && is_authenticated_third_party_receipt ev from_domain)
        linked

  -- the loop over the profiles
  best_claim :
      Event
      → String
      → BrandAnalysisOptions
      → List ProtectedBrandProfile
      → BrandAnalysis
      → BrandAnalysis
  best_claim ev from_domain opts [] best = best
  best_claim ev from_domain opts (profile ∷ profiles) best =
      let current = score_brand_claim ev from_domain profile opts in
      best_claim ev from_domain opts profiles (
        if domain_matches_any from_domain profile.sender_domains
        then best
        else if ltb best.score current.score
        then current
        else best)

  unfoldable pub analyze_brand_impersonation :
      Event → BrandAnalysisOptions → List ProtectedBrandProfile → BrandAnalysis
  unfolding best_claim claim settle
  analyze_brand_impersonation ev opts profiles =
      let from_domain = email_domain ev.from in
      let best = best_claim ev from_domain opts profiles no_brand in
      if not opts.enabled
      then no_brand
      else if str_eq from_domain ""
      then no_brand
      else if leb 70 best.score
      then record best { quarantine = true }
      else best

  -- `pol` is the resolved policy, which is never nil where the stage runs
  unfoldable pub apply_brand_impersonation_detection :
      Outcome → String → Policy → Event → List ProtectedBrandProfile → Outcome
  apply_brand_impersonation_detection (d, reason) sender_action pol ev profiles =
      let analysis =
        analyze_brand_impersonation ev (brand_analysis_options_from_policy (Option.some pol))
          profiles in
      if is_final d
      then (d, reason)
      else if not (brand_impersonation_enabled pol)
      then (d, reason)
      else if str_eq sender_action "allow"
      then (d, reason)
      else if equal_fold ev.direction "outbound"
      then (d, reason)
      else if analysis.quarantine
      then (quarantined, brand_reason analysis)
      else (d, reason)
