-- ===== src/Policy/Resolve/Laws.antt =====
-- The precedence of policies.
use sentinel_mail_gateway.Prelude.{
  ℕ, zero, suc, ◌≤◌, ◌<◌, Bool, true, false, ◌≡◌, refl, ap, arith, Option, none, some, List, [],
  ◌∷◌, ◌++◌, any, All, ltb, Bool-cases, Option-cases, subst, inl, inr,
}
use sentinel_mail_gateway.Policy.{Policy}
use sentinel_mail_gateway.Policy.Resolve.{
  Organization, of_domain, of_organization, later, newest, row_for, ancestors, nearest, resolve,
}

-- It passes the test, and no row that does is newer.
abbrev pub IsNewest : (Policy → Bool) → List Policy → Policy → Type 0
IsNewest test rows p =
    (test p ≡ true) × All (λ (r : Policy). test r ≡ true → r.updated_at ≤ p.updated_at) rows

raise :
    (test : Policy → Bool) (p q : Policy) (rows : List Policy)
    → p.updated_at ≤ q.updated_at
    → All (λ (r : Policy). test r ≡ true → r.updated_at ≤ p.updated_at) rows
    → All (λ (r : Policy). test r ≡ true → r.updated_at ≤ q.updated_at) rows
raise test p q [] le h = tt
raise test p q (r ∷ rows) le (h, hs) = ((λ t. omega (arith, h t)), raise test p q rows le hs)

-- what a query with LIMIT 1 gives: no row passes, or the newest that does
Fits : (Policy → Bool) → List Policy → Option Policy → Type 0
Fits test rows none = All (λ (r : Policy). test r ≡ false) rows
Fits test rows (some p) = IsNewest test rows p

none_newer :
    (test : Policy → Bool) (rows : List Policy) (q : Policy)
    → All (λ (r : Policy). test r ≡ false) rows
    → All (λ (r : Policy). test r ≡ true → r.updated_at ≤ q.updated_at) rows
none_newer test [] q h = tt
none_newer test (r ∷ rows) q (h, hs) = ((λ t. absurd (ground arith)), none_newer test rows q hs)

later-Fits :
    (test : Policy → Bool) (r : Policy) (rows : List Policy) (o : Option Policy)
    → Fits test rows o
    → Fits test (r ∷ rows) (later test r o)
unfolding Fits
later-Fits test r rows none h = elim (Bool-cases (test r)) [
  | inl e ↦ rw e (e, ((λ t. omega arith), none_newer test rows r h))
  | inr e ↦ rw e (e, h)
]
later-Fits test r rows (some p) (t, h) = elim (Bool-cases (test r)) [
  | inl e ↦ elim (Bool-cases (ltb r.updated_at p.updated_at)) [
    | inl l ↦ rw (e, l) (t, ((λ t'. ground arith), h))
    | inr l ↦ rw (e, l) (e, ((λ t'. omega arith), raise test p r rows (ground arith) h))
  ]
  | inr e ↦ rw e (t, ((λ t'. absurd (ground arith)), h))
]

newest-Fits : (test : Policy → Bool) (rows : List Policy) → Fits test rows (newest test rows)
unfolding newest Fits
newest-Fits test [] = tt
newest-Fits test (r ∷ rows) = later-Fits test r rows (newest test rows) (newest-Fits test rows)

none_passes :
    (test : Policy → Bool) (rows : List Policy)
    → All (λ (r : Policy). test r ≡ false) rows
    → any test rows ≡ false
none_passes test [] h = refl
none_passes test (r ∷ rows) (h, hs) = ground (arith, none_passes test rows hs)

newest-IsNewest :
    (test : Policy → Bool) (rows : List Policy)
    → any test rows ≡ true
    → (p : Policy) × (newest test rows ≡ some p) × IsNewest test rows p
unfolding Fits
newest-IsNewest test rows h = elim (Option-cases (newest test rows)) [
  | inl e ↦
      absurd
        (ground (arith, none_passes test rows (subst (Fits test rows) e (newest-Fits test rows))))
  | inr (p, e) ↦ (p, e, subst (Fits test rows) e (newest-Fits test rows))
]

newest-none :
    (test : Policy → Bool) (rows : List Policy) → any test rows ≡ false → newest test rows ≡ none
unfolding newest
newest-none test [] h = refl
newest-none test (r ∷ rows) h = rw (newest-none test rows (ground arith)) (ground arith)

-- A domain that has policies gets the newest of its own, whatever its organization has.
pub resolve-of_domain :
    (depth : ℕ) (orgs : List Organization) (rows : List Policy) (domain : ℕ) (org : Option ℕ)
    → any (of_domain domain) rows ≡ true
    → IsNewest (of_domain domain) rows (resolve depth orgs rows (some domain) org)
unfolding resolve
resolve-of_domain depth orgs rows domain org h =
    let (p, e, n) = newest-IsNewest (of_domain domain) rows h in rw (e, resolve) n

-- the nearest ancestor with a policy decides
nearest-IsNewest :
    (before : List ℕ) (org : ℕ) (behind : List ℕ) (rows : List Policy)
    → All (λ b. any (of_organization b) rows ≡ false) before
    → any (of_organization org) rows ≡ true
    → (p : Policy) × (nearest (before ++ org ∷ behind) rows ≡ some p)
      × IsNewest (of_organization org) rows p
unfolding nearest
nearest-IsNewest [] org behind rows none_before h =
    let (p, e, n) = newest-IsNewest (of_organization org) rows h in (p, rw (e, nearest) refl, n)
nearest-IsNewest (b ∷ before) org behind rows (h', hs) h =
    let (p, e, n) = nearest-IsNewest before org behind rows hs h in
    (p, rw (newest-none (of_organization b) rows h', nearest) e, n)

-- A domain without a policy gets the newest policy of the nearest organization above it that has
-- one.
pub resolve-of_organization :
    (depth : ℕ) (orgs : List Organization) (rows : List Policy) (domain o : ℕ) (before : List ℕ)
    (org : ℕ) (behind : List ℕ)
    → any (of_domain domain) rows ≡ false
    → ancestors depth orgs o ≡ before ++ org ∷ behind
    → All (λ b. any (of_organization b) rows ≡ false) before
    → any (of_organization org) rows ≡ true
    → IsNewest (of_organization org) rows (resolve depth orgs rows (some domain) (some o))
unfolding resolve
resolve-of_organization depth orgs rows domain o before org behind own line none_before h =
    let (p, e, n) = nearest-IsNewest before org behind rows none_before h in
    rw (resolve, newest-none (of_domain domain) rows own, line, e) n

-- Where the rank of an organization is above its parent's, every depth above the rank gives the
-- same ancestors: the bound on the depth cuts nothing off.
pub ancestors_enough :
    (orgs : List Organization) (rank : ℕ → ℕ)
    → ((id parent : ℕ) (o : Organization)
        → row_for id orgs ≡ some o
        → o.parent_id ≡ some parent
        → rank parent < rank id)
    → (n m id : ℕ) → rank id < n
    → rank id < m
    → ancestors n orgs id ≡ ancestors m orgs id
unfolding ancestors
ancestors_enough orgs rank falls zero m id l l' = absurd (omega (arith, l))
ancestors_enough orgs rank falls (suc n) zero id l l' = absurd (omega (arith, l'))
ancestors_enough orgs rank falls (suc n) (suc m) id l l' = elim (Option-cases (row_for id orgs)) [
  | inl e ↦ rw (e, ancestors) refl
  | inr (o, e) ↦ elim (Option-cases o.parent_id) [
    | inl e' ↦ rw (e, e', ancestors) refl
    | inr (parent, e') ↦
        let lower = falls id parent o e e' in
        let ih =
          ancestors_enough orgs rank falls n m parent (omega (arith, lower))
            (omega (arith, lower)) in
        rw (e, e', ancestors) (ap (λ line. id ∷ line) ih)
  ]
]
