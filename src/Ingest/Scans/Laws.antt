-- ===== src/Ingest/Scans/Laws.antt =====
-- The report on the scan jobs, and their number.
use sentinel_mail_gateway.Prelude.{
  ℕ, suc, ◌+◌, ◌≤◌, String, Bool, true, false, not, ◌||◌, ◌≡◌, refl, arith, List, [], ◌∷◌, ◌++◌,
  length, map, take, keep, length-map, length-take-le, str_eq, str_eq_iff, if◌then◌else◌,
}
use sentinel_mail_gateway.Platform.{Platform}
use sentinel_mail_gateway.Event.{Event}
use sentinel_mail_gateway.Disposition.{Disposition}
use sentinel_mail_gateway.Sandbox.{prioritized_sandbox_urls}
use sentinel_mail_gateway.Sandbox.Laws.{prioritized_sandbox_urls-IsTarget}
use sentinel_mail_gateway.Ingest.Scans.{AiConfig, wanted_scans, is_scannable, enqueue_all}

-- whether some call from the n-th on fails
abbrev pub some_failure : (ℕ → Bool) → ℕ → List String → Bool
some_failure accepts n [] = false
some_failure accepts n (kind ∷ kinds) = not (accepts n) || some_failure accepts (suc n) kinds

abbrev pub one_if : Bool → ℕ
one_if true = 1
one_if false = 0

-- However many jobs cannot be enqueued, the report leaves out only one of them.
enqueue_all_short :
    (accepts : ℕ → Bool) (n : ℕ) (failed : Bool) (kinds : List String)
    → length ((enqueue_all accepts n failed kinds).0)
        + (if failed then 0 else one_if (some_failure accepts n kinds))
      ≡ length kinds
unfolding enqueue_all
enqueue_all_short accepts n failed [] = ground arith
enqueue_all_short accepts n failed (kind ∷ kinds) =
    ground (arith, enqueue_all_short accepts (suc n) (failed || not (accepts n)) kinds)

-- However many calls of enqueue fail, the report leaves out only one job: the number of jobs that
-- it names, and one more if some call failed, is the number of all jobs.
pub enqueue_all-reported :
    (accepts : ℕ → Bool) (kinds : List String)
    → length ((enqueue_all accepts 0 false kinds).0) + one_if (some_failure accepts 0 kinds)
      ≡ length kinds
enqueue_all-reported accepts kinds = enqueue_all_short accepts 0 false kinds

length-append {ℓ} : {A : Type ℓ} (xs ys : List A) → length (xs ++ ys) ≡ length xs + length ys
length-append [] ys = omega arith
length-append (x ∷ xs) ys = omega (arith, length-append xs ys)

one_direction : (s : String) → str_eq s "inbound" ≡ true → str_eq s "outbound" ≡ false
one_direction s h = rw ((str_eq_iff s "inbound").0 h) refl

module _ (platform : Platform) where
  -- However many attachments and links a mail has, at most nine scan jobs are wanted.
  pub length-wanted_scans :
      (config : AiConfig) (d : Disposition) (ev : Event)
      → length (wanted_scans platform config d ev) ≤ 9
  unfolding wanted_scans
  length-wanted_scans config d ev =
      let images = take 5 (keep is_scannable ev.attachments) in
      let links = prioritized_sandbox_urls platform ev.list_unsubscribe ev.urls in
      let bound = (prioritized_sandbox_urls-IsTarget platform ev.list_unsubscribe ev.urls).0 in
      let last : List String = if str_eq ev.direction "outbound" then "outbound" ∷ [] else [] in
      let l1 = length-append (map (λ u. "sandbox") links) last in
      let l2 = length-append (map (λ a. "qr") images) (map (λ u. "sandbox") links ++ last) in
      ground (
        arith,
        l1,
        l2,
        length-map {B = String} (λ a. "qr") images,
        length-map {B = String} (λ u. "sandbox") links,
        length-take-le 5 (keep is_scannable ev.attachments),
        bound,
        one_direction ev.direction,
      )
