-- ===== src/ThreatIntel/Laws.antt =====
-- Bounds on the candidates, and their keys.
use sentinel_mail_gateway.Prelude.{
  ◌≤◌, suc, String, false, not, ◌≡◌, ◌≢◌, refl, arith, List, [], ◌∷◌, ◌++◌, any, All, ◌&&◌, ◌||◌,
  All-append, length, str_eq, str_eq_iff, Bool-cases, Option-cases, inl, inr, leb,
}
use sentinel_mail_gateway.Strings.{trim_space}
use sentinel_mail_gateway.Platform.{Platform}
use sentinel_mail_gateway.Event.{Event}
use sentinel_mail_gateway.Reputation.{email_domain}
use sentinel_mail_gateway.ThreatIntel.{
  Kind, ThreatCandidate, Found, candidate_key, add, add_url, add_urls, threat_candidates, url,
  domain, ip,
}

length-snoc {ℓ} : {A : Type ℓ} (xs : List A) (x : A) → length (xs ++ x ∷ []) ≡ suc (length xs)
length-snoc [] x = refl
length-snoc (y ∷ xs) x = omega (arith, length-snoc xs x)

-- the key under which a candidate is looked up
abbrev key_of : ThreatCandidate → String
key_of c = candidate_key c.kind c.value

-- Each candidate's key differs from those before it.
abbrev pub Fresh : List String → List ThreatCandidate → Type 0
Fresh before [] = Unit
Fresh before (c ∷ cs) = (any (str_eq (key_of c)) before ≡ false) × Fresh (key_of c ∷ before) cs

-- the keys of a list, the last one first, in front of `before`
keys_onto : List String → List ThreatCandidate → List String
keys_onto before [] = before
keys_onto before (c ∷ cs) = keys_onto (key_of c ∷ before) cs

Fresh-snoc :
    (before : List String) (cs : List ThreatCandidate) (c : ThreatCandidate)
    → Fresh before cs
    → any (str_eq (key_of c)) (keys_onto before cs) ≡ false
    → Fresh before (cs ++ c ∷ [])
unfolding keys_onto
Fresh-snoc before [] c h k = (k, tt)
Fresh-snoc before (d ∷ cs) c (p, h) k = (p, Fresh-snoc (key_of d ∷ before) cs c h k)

keys_onto-snoc :
    (before : List String) (cs : List ThreatCandidate) (c : ThreatCandidate)
    → keys_onto before (cs ++ c ∷ []) ≡ key_of c ∷ keys_onto before cs
unfolding keys_onto
keys_onto-snoc before [] c = refl
keys_onto-snoc before (d ∷ cs) c = keys_onto-snoc (key_of d ∷ before) cs c

-- The closure's invariant: at most eight candidates, none empty, no key twice, and `seen` holds
-- their keys.
record IsFound (f : Found) : Type 0 where
  few : length f.out ≤ 8
  filled : All (λ (c : ThreatCandidate). c.value ≢ "") f.out
  fresh : Fresh [] f.out
  known : f.seen ≡ keys_onto [] f.out

add-IsFound : (kind : Kind) (value : String) (f : Found) → IsFound f → IsFound (add kind value f)
unfolding add
add-IsFound kind value f h =
    let v = trim_space value in
    let c : ThreatCandidate = record { kind = kind; value = v } in
    elim (Bool-cases (str_eq v "")) [
      | inl e ↦ rw e h
      | inr filled ↦ elim (Bool-cases (any (str_eq (candidate_key kind v)) f.seen)) [
        | inl e ↦ rw (filled, e) h
        | inr unseen ↦ elim (Bool-cases (leb 8 (length f.out))) [
          | inl e ↦ rw (filled, unseen, e) h
          | inr room ↦
              rw (filled, unseen, room)
                (record {
                  few = ground (arith, length-snoc f.out c, h.few);
                  filled =
                      All-append (λ (d : ThreatCandidate). d.value ≢ "") f.out (c ∷ []) h.filled
                        ((λ e. cc (filled, (str_eq_iff v "").1 e)), tt);
                  fresh = Fresh-snoc [] f.out c h.fresh (rw (← h.known) unseen);
                  known = rw (keys_onto-snoc, ← h.known);
                })
        ]
      ]
    ]

module _ (platform : Platform) where
  add_url-IsFound : (raw : String) (f : Found) → IsFound f → IsFound (add_url platform raw f)
  unfolding add_url
  add_url-IsFound raw f h = elim (Option-cases (platform.parse_url (trim_space raw))) [
    | inl e ↦ rw (e, add_url) h
    | inr (u, e) ↦
        elim (Bool-cases (
          (not (str_eq u.scheme "http") && not (str_eq u.scheme "https"))
          || (str_eq u.hostname "" || u.has_user))) [
            | inl skip ↦ rw (e, add_url, skip) h
            | inr take ↦
                rw (e, add_url, take) (add-IsFound url u.text _ (add-IsFound domain u.hostname f h))
          ]
  ]

  add_urls-IsFound :
      (urls : List String) (f : Found) → IsFound f → IsFound (add_urls platform urls f)
  unfolding add_urls
  add_urls-IsFound [] f h = h
  add_urls-IsFound (raw ∷ urls) f h = elim (Bool-cases (leb 8 (length f.out))) [
    | inl e ↦ rw e h
    | inr e ↦ rw e (add_urls-IsFound urls (add_url platform raw f) (add_url-IsFound raw f h))
  ]

  -- Whatever the event holds, the feeds are asked for at most eight values; none is empty, and no
  -- two have one kind and, up to case, one value.
  pub threat_candidates_bounds :
      (ev : Event)
      → (length (threat_candidates platform ev) ≤ 8)
        × All (λ (c : ThreatCandidate). c.value ≢ "") (threat_candidates platform ev)
        × Fresh [] (threat_candidates platform ev)
  unfolding threat_candidates
  threat_candidates_bounds ev =
      let start : Found = record { seen = []; out = [] } in
      let empty : IsFound start = record {
        few = omega arith;
        filled = tt;
        fresh = tt;
        known = unfold keys_onto in refl;
      } in
      let found =
        add_urls-IsFound ev.urls _
          (add-IsFound domain (email_domain ev.from) _ (add-IsFound ip ev.client_ip start empty)) in
      (found.few, found.filled, found.fresh)
