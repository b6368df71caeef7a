-- ===== src/Threat/Order.antt =====
-- The label and the order in which the runtime visits the symbols.
use sentinel_mail_gateway.Prelude.{
  String, true, false, ◌≡◌, refl, ap, arith, List, ◌∷◌, some, pos, ltb_ℤ, Option,
}
use sentinel_mail_gateway.Strings.{upper, contains}
use sentinel_mail_gateway.Platform.{Platform}
use sentinel_mail_gateway.Event.{Event, Value, Symbols, symbol_score}
use sentinel_mail_gateway.Policy.{Policy}
use sentinel_mail_gateway.Disposition.{delivered, tagged, quarantined}
use sentinel_mail_gateway.Brand.{BrandAnalysisOptions}
use sentinel_mail_gateway.Brand.Profiles.{ProtectedBrandProfile}
use sentinel_mail_gateway.Threat.{
  ThreatClass, phishing, virus, is_generic_phishing_heuristic_symbol, classify_symbol,
  classify_symbols, classify_threat_with_profiles, apply_threat, apply_threat_signal_disposition,
}

-- A symbol that reports phishing and is not one of the two generic heuristics.
abbrev pub ReportsPhishing : String × Value → Type 0
ReportsPhishing s =
    (contains (upper (s.0)) "PHISH" ≡ true)
    × (ltb_ℤ (pos 0) (symbol_score (s.1)) ≡ true)
    × (is_generic_phishing_heuristic_symbol (upper (s.0)) ≡ false)

-- A symbol that reports a virus.
abbrev pub ReportsVirus : String × Value → Type 0
ReportsVirus s =
    (contains (upper (s.0)) "VIRUS" ≡ true)
    × (contains (upper (s.0)) "PHISH" ≡ false)
    × (ltb_ℤ (pos 0) (symbol_score (s.1)) ≡ true)

classify_symbol-phishing :
    (ev : Event) (profiles : List ProtectedBrandProfile) (s : String × Value)
    → ReportsPhishing s
    → classify_symbol ev profiles s ≡ some phishing
unfolding classify_symbol
classify_symbol-phishing ev profiles s p = ground arith

classify_symbol-virus :
    (ev : Event) (profiles : List ProtectedBrandProfile) (s : String × Value)
    → ReportsVirus s
    → classify_symbol ev profiles s ≡ some virus
unfolding classify_symbol
classify_symbol-virus ev profiles s p = ground arith

module _ (platform : Platform) where
  -- the first symbol decides, whatever follows it
  classify_first :
      (ev : Event) (opts : BrandAnalysisOptions) (pol : Option Policy)
      (profiles : List ProtectedBrandProfile) (s : String × Value) (rest : Symbols)
      (verdict : ThreatClass)
      → ev.symbols ≡ s ∷ rest
      → classify_symbol ev profiles s ≡ some verdict
      → classify_threat_with_profiles platform ev opts pol profiles ≡ verdict
  unfolding classify_threat_with_profiles
  classify_first ev opts pol profiles s rest verdict e h =
      rw (e, classify_threat_with_profiles, h, classify_symbols)

  -- One map with a phishing symbol and a virus symbol: visited in one order, a delivered mail is
  -- only tagged; visited in the other, it is quarantined as malware.
  pub apply_threat_signal_disposition-order :
      (ev : Event) (pol : Policy) (a b : String × Value) (rest : Symbols) (reason : String)
      → ReportsPhishing a
      → ReportsVirus b
      → (apply_threat_signal_disposition platform
            (delivered, reason)
            pol
            (record ev { symbols = a ∷ b ∷ rest })
          ≡ (tagged, "phishing signal hit"))
        × (apply_threat_signal_disposition platform
              (delivered, reason)
              pol
              (record ev { symbols = b ∷ a ∷ rest })
            ≡ (quarantined, "malware signal hit"))
  unfolding apply_threat_signal_disposition
  apply_threat_signal_disposition-order ev pol a b rest reason p v = (
    ap (apply_threat platform (delivered, reason))
        (classify_first _ _ _ _ a (b ∷ rest) phishing refl (classify_symbol-phishing _ _ a p)),
    ap (apply_threat platform (delivered, reason))
        (classify_first _ _ _ _ b (a ∷ rest) virus refl (classify_symbol-virus _ _ b v)),
  )
