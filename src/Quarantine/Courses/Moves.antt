-- ===== src/Quarantine/Courses/Moves.antt =====
-- Requests as series of deliveries and of updates.
use sentinel_mail_gateway.Prelude.{
  ℕ, String, Bool, true, false, not, ◌||◌, Option, none, some, List, [], ◌∷◌, any, ◌&&◌, ◌==◌, ◌≡◌,
  refl, ap, ◌∙◌, arith, str_eq, ◌⊎◌, inl, inr, Bool-cases,
}
use sentinel_mail_gateway.Strings.{lower, trim_space}
use sentinel_mail_gateway.SenderList.Rules.{Rule, Account}
use sentinel_mail_gateway.Quarantine.{
  Entry, Store, Caller, deleted, is_held, find_entry, change_entry, to_state, may_act,
  can_end_user_act,
}
use sentinel_mail_gateway.Quarantine.Delivery.{
  World, ApprovalError, inactive_recipient, approval_failed, release_error, send,
  record_challenge_approval, is_pending, approve_as, approve_own, approve_by_role, approve_account,
  store_rules, find_account,
}
use sentinel_mail_gateway.Quarantine.Verdicts.{
  normalize_quarantine_verdict, valid_quarantine_verdict, classed_state, to_class,
  reportable_user_verdict, record_from_quarantine, record_quarantine_verdict,
}
use sentinel_mail_gateway.Quarantine.Handlers.{
  answer, release_sent, release_approved, release_entry, delete_entry,
}

-- an entry with an id is held
unfoldable pub holds : ℕ → List Entry → Bool
unfolding is_held
holds id entries = any (λ (e : Entry). e.id == id && is_held e.state) entries

pub find_entry-id :
    (id : ℕ) (entries : List Entry) (e : Entry) → find_entry id entries ≡ some e → e.id ≡ id
unfolding find_entry
find_entry-id id [] e h = absurd (ground (arith, h))
find_entry-id id (f ∷ fs) e h = ground (arith, find_entry-id id fs e)

abbrev row_held : Option Entry → Bool
row_held none = false
row_held (some e) = is_held e.state

row_held-holds :
    (id : ℕ) (entries : List Entry)
    → row_held (find_entry id entries) ≡ true
    → holds id entries ≡ true
unfolding find_entry holds
row_held-holds id [] h = h
row_held-holds id (f ∷ fs) h = elim (Bool-cases (f.id == id)) [
  | inl k ↦ ground (arith, h, k)
  | inr k ↦ ground (arith, h, k, row_held-holds id fs)
]

pub holds-find_entry :
    (id : ℕ) (entries : List Entry) (e : Entry)
    → find_entry id entries ≡ some e
    → is_held e.state ≡ true
    → holds id entries ≡ true
holds-find_entry id entries e h is = row_held-holds id entries (ap row_held h ∙ is)

module _ (w : World) where
  pub data Moves : Store → Store → Type 0 where
    same : {db : Store} → Moves db db
    aside :
        {db m : Store}
        → Moves db m
        → (n : Store) → n.entries ≡ m.entries
        → n.sent ≡ m.sent
        → Moves db n
    updated :
        {db m : Store}
        → Moves db m
        → (f : Entry → Entry) → ((e : Entry) → (f e).id ≡ e.id)
        → ((e : Entry) → is_held (f e).state ≡ true → is_held e.state ≡ true)
        → (id : ℕ) → Moves db (change_entry f id m)
    falls :
        {db m : Store}
        → Moves db m
        → (n : Store) → n.sent ≡ m.sent
        → ((id : ℕ) → holds id n.entries ≡ true → holds id m.entries ≡ true)
        → Moves db n
    delivered :
        {db m : Store}
        → Moves db m
        → (c : Caller) → (e : Entry) → holds e.id m.entries ≡ true
        → release_error w e ≡ none
        → Moves db (send c e m)

  pub Moves-trans : {a b d : Store} → Moves a b → Moves b d → Moves a d
  Moves-trans h same = h
  Moves-trans h (aside k n rows out) = aside (Moves-trans h k) n rows out
  Moves-trans h (updated k f keeps holds id) = updated (Moves-trans h k) f keeps holds id
  Moves-trans h (falls k n out fewer) = falls (Moves-trans h k) n out fewer
  Moves-trans h (delivered k c e held out) = delivered (Moves-trans h k) c e held out

  -- a step that writes neither entries nor deliveries, where it does not fail
  abbrev pub IsAside : {E : Type 0} → Store → E ⊎ Store → Type 0
  IsAside db (inl error) = Unit
  IsAside db (inr m) = (m.entries ≡ db.entries) × (m.sent ≡ db.sent)

  abbrev pub MovesTo : {E : Type 0} → Store → E ⊎ Store → Type 0
  MovesTo db (inl error) = Unit
  MovesTo db (inr m) = Moves db m

  store_rules-IsAside :
      (db : Store) (rules : String ⊎ List Rule) → IsAside db (store_rules db rules)
  unfolding store_rules
  store_rules-IsAside db (inl error) = tt
  store_rules-IsAside db (inr rules) = (refl, refl)

  approve_account-IsAside :
      (e : Entry) (u : Option Account) (db : Store) → IsAside db (approve_account w e u db)
  unfolding approve_account approve_as
  approve_account-IsAside e none db = (refl, refl)
  approve_account-IsAside e (some u) db = elim (Bool-cases u.is_active) [
    | inl h ↦ rw h (store_rules-IsAside db _)
    | inr h ↦ rw h tt
  ]

  approve_own-IsAside : (c : Caller) (e : Entry) (db : Store) → IsAside db (approve_own w c e db)
  unfolding approve_own approve_as
  approve_own-IsAside c e db = elim (Bool-cases (can_end_user_act c e)) [
    | inl l ↦ rw l (store_rules-IsAside db _)
    | inr l ↦ rw l (refl, refl)
  ]

  approve_by_role-IsAside :
      (c : Caller) (e : Entry) (db : Store) (own : Bool) → IsAside db (approve_by_role w c e db own)
  unfolding approve_by_role
  approve_by_role-IsAside c e db true = approve_own-IsAside c e db
  approve_by_role-IsAside c e db false =
      approve_account-IsAside e (find_account e.organization_id e.to_addr w.accounts) db

  pub record_challenge_approval-IsAside :
      (c : Caller) (e : Entry) (db : Store) → IsAside db (record_challenge_approval w c e db)
  unfolding record_challenge_approval
  record_challenge_approval-IsAside c e db = elim (Bool-cases (is_pending e.log_reason)) [
    | inr h ↦ rw h (refl, refl)
    | inl h ↦ rw h (approve_by_role-IsAside c e db (str_eq c.role "org_user"))
  ]

  record_from_quarantine-IsAside :
      (id : ℕ) (verdict : String) (user : ℕ) (db : Store)
      → ((record_from_quarantine id verdict user db).entries ≡ db.entries)
        × ((record_from_quarantine id verdict user db).sent ≡ db.sent)
  unfolding record_from_quarantine
  record_from_quarantine-IsAside id verdict user db =
      elim (Bool-cases (reportable_user_verdict (lower (trim_space verdict)))) [
        | inl h ↦ rw h (refl, refl)
        | inr h ↦ rw h (refl, refl)
      ]

  is_held-to_class :
      (verdict : String) (e : Entry)
      → is_held (to_class verdict e).state ≡ true
      → is_held e.state ≡ true
  unfolding to_class classed_state
  is_held-to_class verdict e h = elim (Bool-cases (is_held e.state)) [
    | inl k ↦ k
    | inr k ↦ absurd (ground (arith, h, k))
  ]

  pub record_quarantine_verdict-MovesTo :
      (c : Caller) (e : Entry) (verdict : String) {db m : Store}
      → Moves db m
      → MovesTo db (record_quarantine_verdict c e verdict m)
  unfolding record_quarantine_verdict
  record_quarantine_verdict-MovesTo c e verdict {m = m} h =
      let v = normalize_quarantine_verdict verdict in
      elim (Bool-cases (str_eq v "" || not (valid_quarantine_verdict v))) [
        | inl k ↦ rw k tt
        | inr k ↦
            let (rows, out) =
              record_from_quarantine-IsAside e.id v c.user_id (change_entry (to_class v) e.id m) in
            rw k (
              aside
                (updated h (to_class v) (λ f. unfold to_class in refl) (is_held-to_class v) e.id) _
                rows out)
      ]

  release_sent-Moves :
      (c : Caller) (e : Entry) (error : Option String) {db m : Store}
      → Moves db m
      → find_entry e.id m.entries ≡ some e
      → is_held e.state ≡ true
      → release_error w e ≡ error
      → Moves db (release_sent w c e m error).store
  unfolding release_sent answer
  release_sent-Moves c e (some error) h found is k = h
  release_sent-Moves c e none {m = m} h found is k =
      delivered h c e (holds-find_entry e.id m.entries e found is) k

  release_approved-Moves :
      (c : Caller) (e : Entry) (db : Store) (approval : ApprovalError ⊎ Store)
      → IsAside db approval
      → find_entry e.id db.entries ≡ some e
      → is_held e.state ≡ true
      → Moves db (release_approved w c e db approval).store
  unfolding release_approved answer
  release_approved-Moves c e db (inl inactive_recipient) a found is = same
  release_approved-Moves c e db (inl approval_failed) a found is = same
  release_approved-Moves c e db (inr approved) (rows, out) found is =
      release_sent-Moves c e (release_error w e) (aside same approved rows out)
        (ap (find_entry e.id) rows ∙ found) is refl

  pub release_entry-Moves :
      (c : Caller) (db : Store) (row : Option Entry)
      → ((e : Entry) → row ≡ some e → find_entry e.id db.entries ≡ some e)
      → Moves db (release_entry w c db row).store
  unfolding release_entry answer
  release_entry-Moves c db none found = same
  release_entry-Moves c db (some e) found = elim (Bool-cases (may_act c e)) [
    | inr h ↦ rw h same
    | inl h ↦ rw h (elim (Bool-cases (is_held e.state)) [
      | inr k ↦ rw k same
      | inl k ↦ rw k (
          release_approved-Moves c e db (record_challenge_approval w c e db)
            (record_challenge_approval-IsAside c e db) (found e refl) k)
    ])
  ]

  pub delete_entry-Moves :
      (c : Caller) (db : Store) (row : Option Entry) → Moves db (delete_entry w c db row).store
  unfolding delete_entry answer to_state is_held
  delete_entry-Moves c db none = same
  delete_entry-Moves c db (some e) = elim (Bool-cases (may_act c e)) [
    | inr h ↦ rw h same
    | inl h ↦
        rw h (updated same (to_state deleted) (λ f. refl) (λ f k. absurd (ground (arith, k))) e.id)
  ]

pub find_entry-found :
    (id : ℕ) (entries : List Entry) (e : Entry)
    → find_entry id entries ≡ some e
    → find_entry e.id entries ≡ some e
find_entry-found id entries e h = ap (λ i. find_entry i entries) (find_entry-id id entries e h) ∙ h
