-- ===== src/Decision/Protocol/Refines.antt =====
-- The tables implement the protocol of a lease.
use vpp_backend.Prelude.{
  ℕ, ◌+◌, ◌≤◌, ◌≡◌, refl, sym, subst, ◌∙◌, String, str_eq, Bool, true, false, not, Bool-cases,
  Option, Option-cases, none, some, some_inj, inl, inr, List, [], ◌∷◌, All, count, ◌==◌, ok, >>-ok,
  guard, guard-ok, ok_inj, err_ne_ok, arith,
}
use mathlib.Core.Bool.{true≢false}
use vpp_backend.Prelude.Rows.{take_where_sound, take_where-counted}
use vpp_backend.Decision.Tables.{
  OutboxStatus, OutboxRow, Tables, PlanError, is_claimable, is_claimed, update_where, take_where,
  one_row,
}
use vpp_backend.Decision.Claim.{Claim, is_leased, first_due, unchanged, claimed_row, claim_once}
use vpp_backend.Decision.Claim.Reach.{Reach}
use vpp_backend.Decision.Marks.{release_outbox, released_row, is_own, holds_lease}
use vpp_backend.Decision.Marks.Rows.{Marked, Marked-Released}
use vpp_backend.Decision.Marks.Fencing.{check_lease-held, holds_lease-is_own}
use vpp_backend.Decision.Tick.Rounds.{load_claim-outbox}
use vpp_backend.Decision.Protocol.{
  Phase, LeaseState, LeaseStep, LeaseSteps, phase_of, lease_state, Each,
}

-- The row goes by steps of the protocol, and keeps its id.
abbrev pub Follows : OutboxRow → OutboxRow → Type 0
Follows a b = (a.id ≡ b.id) × LeaseSteps (lease_state a) (lease_state b)

LeaseSteps-trans : {s t u : LeaseState} → LeaseSteps s t → LeaseSteps t u → LeaseSteps s u
LeaseSteps-trans a LeaseSteps.stay = a
LeaseSteps-trans a (LeaseSteps.step b c) = LeaseSteps.step (LeaseSteps-trans a b) c

Each-Follows-refl : (xs : List OutboxRow) → Each Follows xs xs
Each-Follows-refl [] = tt
Each-Follows-refl (x ∷ xs) = ((refl, LeaseSteps.stay), Each-Follows-refl xs)

Each-Follows-trans :
    (xs ys zs : List OutboxRow) → Each Follows xs ys → Each Follows ys zs → Each Follows xs zs
Each-Follows-trans [] [] [] a b = tt
Each-Follows-trans [] [] (z ∷ zs) a b = b
Each-Follows-trans [] (y ∷ ys) zs a b = absurd a
Each-Follows-trans (x ∷ xs) [] zs a b = absurd a
Each-Follows-trans (x ∷ xs) (y ∷ ys) [] a b = b
Each-Follows-trans (x ∷ xs) (y ∷ ys) (z ∷ zs) a b =
    ((a.0.0 ∙ b.0.0, LeaseSteps-trans a.0.1 b.0.1), Each-Follows-trans xs ys zs a.1 b.1)

-- An update whose changed rows follow the protocol.
update_where-Follows :
    (test : OutboxRow → Bool) (f : OutboxRow → OutboxRow) (xs : List OutboxRow)
    → All (λ r. test r ≡ true → Follows r (f r)) xs
    → Each Follows xs (update_where test f xs)
unfolding update_where
update_where-Follows test f [] h = tt
update_where-Follows test f (x ∷ xs) h = elim (Bool-cases (test x)) [
  | inl e ↦ rw e (h.0 e, update_where-Follows test f xs h.1)
  | inr e ↦ rw e ((refl, LeaseSteps.stay), update_where-Follows test f xs h.1)
]

holds_everywhere {ℓ κ} : {A : Type ℓ} (P : A → Type κ) → ((x : A) → P x) → (xs : List A) → All P xs
holds_everywhere P h [] = tt
holds_everywhere P h (x ∷ xs) = (h x, holds_everywhere P h xs)

-- A claimable row that is taken.
taken :
    (status : OutboxStatus) (k : ℕ) (holder : String) (held : Option ℕ) (worker : String)
    (until : ℕ)
    → is_claimable status ≡ true
    → LeaseStep (k, phase_of status holder held) (k + 1, Phase.leased worker until)
taken OutboxStatus.pending k holder held worker until h = LeaseStep.take_waiting worker until
taken OutboxStatus.claimed k holder none worker until h = LeaseStep.take_over worker until
taken OutboxStatus.claimed k holder (some u) worker until h = LeaseStep.take_over worker until
taken OutboxStatus.done k holder held worker until h = cc
taken OutboxStatus.stale k holder held worker until h = cc
taken OutboxStatus.failed k holder held worker until h = cc

-- A row that its holder gives back while the lease runs.
given_back :
    (status to : OutboxStatus) (k : ℕ) (holder : String) (held : Option ℕ) (now : ℕ)
    → is_claimed status ≡ true
    → is_leased held now ≡ true
    → is_claimed to ≡ false
    → LeaseStep (k, phase_of status holder held) (k, phase_of to "" none)
unfolding is_leased
given_back OutboxStatus.claimed OutboxStatus.pending k holder (some u) now h l n =
    LeaseStep.put_back now (ground arith)
given_back OutboxStatus.claimed OutboxStatus.claimed k holder (some u) now h l n = cc
given_back OutboxStatus.claimed OutboxStatus.done k holder (some u) now h l n =
    LeaseStep.close now (ground arith)
given_back OutboxStatus.claimed OutboxStatus.stale k holder (some u) now h l n =
    LeaseStep.close now (ground arith)
given_back OutboxStatus.claimed OutboxStatus.failed k holder (some u) now h l n =
    LeaseStep.close now (ground arith)
given_back OutboxStatus.claimed to k holder none now h l n = cc
given_back OutboxStatus.pending to k holder held now h l n = cc
given_back OutboxStatus.done to k holder held now h l n = cc
given_back OutboxStatus.stale to k holder held now h l n = cc
given_back OutboxStatus.failed to k holder held now h l n = cc

claimed_row-Follows :
    (row r : OutboxRow) (worker : String) (until : ℕ)
    → unchanged row r ≡ true
    → Follows r (claimed_row worker until (row.lease_token + 1) r)
unfolding unchanged
claimed_row-Follows row r worker until h =
    let token : r.lease_token ≡ row.lease_token = ground arith in
    (
      refl,
      subst (λ k. LeaseSteps (lease_state r) (k + 1, Phase.leased worker until)) token
          (LeaseSteps.step LeaseSteps.stay
            (taken r.status r.lease_token r.claimed_by r.lease_until worker until (ground arith))),
    )

none_left {ℓ κ} :
    {A : Type ℓ} (P : A → Type κ) (p : A → Bool) (xs : List A)
    → count p xs ≤ 0
    → All (λ y. p y ≡ true → P y) xs
none_left P p [] h = tt
none_left P p (x ∷ xs) h = elim (Bool-cases (p x)) [
  | inl k ↦ absurd (ground arith)
  | inr k ↦ ((λ j. absurd (true≢false (sym j ∙ k))), none_left P p xs (ground arith))
]

-- If only one row passes `p`, every row that does is the one that was taken.
pub single {ℓ κ} :
    {A : Type ℓ} (P : A → Type κ) (p q : A → Bool) (xs : List A) {x : A}
    → count p xs ≤ 1
    → take_where q xs ≡ some x
    → p x ≡ true
    → P x
    → All (λ y. p y ≡ true → P y) xs
unfolding take_where
single P p q [] one e h k = tt
single P p q (y ∷ ys) one e h k = elim (Bool-cases (q y)) [
  | inl here ↦
      let same = some_inj.0 (rw (here, take_where) at e) in
      let passes = subst (λ z. p z ≡ true) (sym same) h in
      ((λ _. subst P (sym same) k), none_left P p ys (ground arith))
  | inr later ↦
      let e' = rw (later, take_where) at e in
      let rest = take_where-counted p q ys e' h in
      ((λ j. absurd (ground arith)), single P p q ys (ground arith) e' h k)
]

module _ {V : Type 0} (id_less : String → String → Bool) where
  claim_once-Follows :
      (t : Tables V) (rows : List OutboxRow) (execution_id worker : String) (now lease : ℕ)
      {r : Claim V × Tables V}
      → claim_once id_less t rows execution_id worker now lease ≡ ok r
      → Each Follows t.outbox r.1.outbox
  unfolding claim_once
  claim_once-Follows t rows execution_id worker now lease {r} e =
      elim (Option-cases (first_due rows now)) [
        | inl none_due ↦ absurd (err_ne_ok (rw (none_due, claim_once) at e))
        | inr (row, due) ↦
            let e₁ = rw (due, claim_once) at e in
            let loaded =
              (>>-ok (guard (not (count (unchanged row) t.outbox == 0)) PlanError.contended) _
                e₁).1 in
            let same =
              load_claim-outbox id_less _ execution_id row worker (row.lease_token + 1) loaded in
            subst (Each Follows t.outbox) (sym same) (
              update_where-Follows (unchanged row)
                (claimed_row worker (now + lease) (row.lease_token + 1)) t.outbox
                (holds_everywhere _ (λ r h. claimed_row-Follows row r worker (now + lease) h)
                  t.outbox))
      ]

  released_row-Follows :
      (claim : Claim V) (now : ℕ) (r : OutboxRow) (status : OutboxStatus) (available_at : Option ℕ)
      → is_claimed status ≡ false
      → holds_lease claim now r ≡ true
      → Follows r (released_row status available_at r)
  unfolding holds_lease
  released_row-Follows claim now r status available_at n h = (
    refl,
    LeaseSteps.step LeaseSteps.stay (
        given_back r.status status r.lease_token r.claimed_by r.lease_until now (ground arith)
          (ground arith) n),
  )

  Marked-Follows :
      {claim : Claim V} {now : ℕ} {t t' : Tables V}
      → Marked claim now t t'
      → Each Follows t.outbox t'.outbox
  unfolding release_outbox
  Marked-Follows {claim} {now} {t} {t'} m =
      let (status, available_at, n, r) = Marked-Released m in
      let (_, (row, found, held)) = check_lease-held claim now t r.held in
      let own =
        holds_lease-is_own claim now row
          (take_where_sound (λ (r : OutboxRow). str_eq r.id claim.outbox_id) t.outbox found) held in
      let (one, made) = >>-ok (one_row (is_own claim) r.before.outbox) _ r.done in
      let counted = guard-ok (count (is_own claim) r.before.outbox == 1) PlanError.lease_lost one in
      let counted' = subst (λ rows. (count (is_own claim) rows == 1) ≡ true) r.same counted in
      let f = released_row status available_at in
      let follow = update_where-Follows (is_own claim) f t.outbox (
        single (λ x. Follows x (released_row status available_at x)) (is_own claim)
          (λ (r : OutboxRow). str_eq r.id claim.outbox_id) t.outbox (ground arith) found own
          (released_row-Follows claim now row status available_at n held)) in
      subst (λ (x : Tables V). Each Follows t.outbox x.outbox) (ok_inj made)
        (subst
          (λ rows.
            Each Follows t.outbox
              (update_where (is_own claim) (released_row status available_at) rows))
          (sym r.same) follow)

  -- However workers claim and mark, each row of the outbox keeps its place and id and goes by steps of
  -- the lease protocol: a claim takes it under the next token, only a lease that runs is given back or
  -- closed, and a closed row stays closed.
  pub Reach-Refines :
      (start t : Tables V) → Reach id_less start t → Each Follows start.outbox t.outbox
  Reach-Refines start t Reach.here = Each-Follows-refl start.outbox
  Reach-Refines start t (Reach.claimed {t = u} rows id worker now lease c before e) =
      Each-Follows-trans start.outbox u.outbox t.outbox (Reach-Refines start u before)
        (claim_once-Follows u rows id worker now lease e)
  Reach-Refines start t (Reach.marked {t = u} c now before m) =
      Each-Follows-trans start.outbox u.outbox t.outbox (Reach-Refines start u before)
        (Marked-Follows m)
