-- ===== src/Scam/Health.antt =====
-- internal/classifier/classifier.go, `healthLeadGenerationSpam`.
use sentinel_mail_gateway.Prelude.{ℕ, ◌+◌, String, Bool, ◌&&◌, List, [], ◌∷◌, leb, if◌then◌else◌}
use sentinel_mail_gateway.Strings.{contains_any}

-- The weights of the second half of `healthLeadGenerationSpam`.
weight : ℕ → Bool → ℕ
weight n b = if b then n else 0

-- Each list of terms that adds to the score, with its weight.
abbrev pub health_signals : List (ℕ × List String)
health_signals =
    (
      2,
      "miracle" ∷ "secret" ∷ "breakthrough" ∷ "shocking" ∷ "astonishing" ∷ "cure" ∷ "reverse"
          ∷ "erase" ∷ "reset" ∷ "discovery" ∷ "simple trick" ∷ [],
    )
    ∷ (
      1,
      "scientists" ∷ "doctors reveal" ∷ "doctor reveals" ∷ "researchers found" ∷ "experts reveal"
          ∷ "university study" ∷ [],
    )
    ∷ (
      1,
      "click here" ∷ "watch the video" ∷ "watch this" ∷ "video presentation" ∷ "find out"
          ∷ "learn more" ∷ "see how" ∷ "discover how" ∷ [],
    )
    ∷ (
      1,
      "buy now" ∷ "order now" ∷ "limited offer" ∷ "special offer" ∷ "risk free" ∷ "supplement"
          ∷ "free bottle" ∷ "claim yours" ∷ [],
    )
    ∷ []

unfoldable pub health_score : String → List (ℕ × List String) → ℕ
unfolding weight
health_score text [] = 1
health_score text ((n, terms) ∷ rest) = weight n (contains_any text terms) + health_score text rest

unfoldable pub mentions_health_topic : String → Bool
mentions_health_topic text = contains_any text (
    "pancreas" ∷ "blood sugar" ∷ "brain health" ∷ "memory" ∷ "sleep problem" ∷ "wake-up" ∷ "wake up"
    ∷ "3am" ∷ "3 am" ∷ "nail fungus" ∷ "toenail fungus" ∷ "joint pain" ∷ "nerve pain" ∷ "back pain"
    ∷ "weight loss" ∷ "prostate" ∷ "tinnitus" ∷ "hearing loss" ∷ "vision loss" ∷ "neuropathy" ∷ [])

unfoldable pub shows_curiosity : String → Bool
shows_curiosity text = contains_any text (
    "what if your" ∷ "what happens after" ∷ "could your" ∷ "starts with" ∷ "this way"
    ∷ "explore practical" ∷ "you won't believe" ∷ "the real cause" ∷ [])

unfoldable pub is_health_lead_generation_spam : String → Bool
unfolding mentions_health_topic shows_curiosity health_score
is_health_lead_generation_spam text =
    mentions_health_topic text && (shows_curiosity text && leb 3 (health_score text health_signals))
