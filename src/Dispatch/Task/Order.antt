-- ===== src/Dispatch/Task/Order.antt =====
-- `NextPendingAction` and `FindCommand` against what they look for.
use vpp_backend.Prelude.{
  ℕ, suc, ◌+◌, ◌≡◌, ap, subst, sym, Option, Option-cases, some_inj, ◌≤ℤ◌, true, false, inl, inr,
  List, [], ◌∷◌, none, some, All, All-map, get_elem?, arith, ltb_ℤ, Bool-cases,
}
use vpp_backend.Dispatch.Model.{DispatchAction, DispatchTask}
use vpp_backend.Dispatch.Action.{is_pending_action}
use vpp_backend.Dispatch.Task.{
  Placed, placed, insert_sorted, sort_stable, sorted_actions, first_pending, next_pending_action,
}

module _ (P : Placed → Type 0) where
  insert_sorted-All : (p : Placed) (qs : List Placed) → P p → All P qs → All P (insert_sorted p qs)
  unfolding insert_sorted
  insert_sorted-All p [] h hs = (h, tt)
  insert_sorted-All p (q ∷ qs) h hs = ground (arith, insert_sorted-All p qs h hs.1)

  sort_stable-All : (ps : List Placed) → All P ps → All P (sort_stable ps)
  unfolding sort_stable
  sort_stable-All [] hs = tt
  sort_stable-All (p ∷ ps) hs = insert_sorted-All p _ hs.0 (sort_stable-All ps hs.1)

  All-insert_sorted : (p : Placed) (qs : List Placed) → All P (insert_sorted p qs) → P p × All P qs
  unfolding insert_sorted
  All-insert_sorted p [] hs = hs
  All-insert_sorted p (q ∷ qs) hs = ground (arith, All-insert_sorted p qs)

  All-sort_stable : (ps : List Placed) → All P (sort_stable ps) → All P ps
  unfolding sort_stable
  All-sort_stable [] hs = tt
  All-sort_stable (p ∷ ps) hs =
      let both = All-insert_sorted p (sort_stable ps) hs in (both.0, All-sort_stable ps both.1)

-- Every entry has at most the sequence of those after it.
abbrev IsSorted : List Placed → Type 0
IsSorted [] = Unit
IsSorted (p ∷ ps) = All (λ q. p.1.sequence ≤ℤ q.1.sequence) ps × IsSorted ps

insert_sorted-IsSorted :
    (p : Placed) (qs : List Placed) → IsSorted qs → IsSorted (insert_sorted p qs)
unfolding insert_sorted
insert_sorted-IsSorted p [] hs = (tt, tt)
insert_sorted-IsSorted p (q ∷ qs) hs = elim (Bool-cases (ltb_ℤ q.1.sequence p.1.sequence)) [
  | inl lower ↦ rw lower (
    insert_sorted-All (λ r. q.1.sequence ≤ℤ r.1.sequence) p qs (ground arith) hs.0,
    insert_sorted-IsSorted p qs hs.1,
  )
  | inr above ↦ rw above (
    (
      ground arith,
      All-map (λ r. q.1.sequence ≤ℤ r.1.sequence) (λ r. p.1.sequence ≤ℤ r.1.sequence)
          (λ r h. ground arith) qs hs.0,
    ),
    hs,
  )
]

sort_stable-IsSorted : (ps : List Placed) → IsSorted (sort_stable ps)
unfolding sort_stable
sort_stable-IsSorted [] = tt
sort_stable-IsSorted (p ∷ ps) = insert_sorted-IsSorted p _ (sort_stable-IsSorted ps)

-- The entry is pending, and any other pending one comes no earlier.
abbrev IsFirst : List Placed → Placed → Type 0
IsFirst ps p =
    (is_pending_action p.1.status ≡ true)
    × All (λ q. is_pending_action q.1.status ≡ true → p.1.sequence ≤ℤ q.1.sequence) ps

first_pending-some :
    (ps : List Placed) (p : Placed) → IsSorted ps → first_pending ps ≡ some p → IsFirst ps p
unfolding first_pending
first_pending-some [] p s e = cc
first_pending-some (q ∷ qs) p s e = elim (Bool-cases (is_pending_action q.1.status)) [
  | inl yes_q ↦
      let same : some q ≡ some p = rw yes_q at e in
      subst (IsFirst (q ∷ qs)) (some_inj.0 same) (
        yes_q,
        (
          (λ _. omega arith),
          All-map (λ r. q.1.sequence ≤ℤ r.1.sequence)
              (λ r. is_pending_action r.1.status ≡ true → q.1.sequence ≤ℤ r.1.sequence) (λ r h _. h)
              qs s.0,
        ),
      )
  | inr no_q ↦
      let rest = first_pending-some qs p s.1 (rw no_q at e) in (rest.0, ((λ h. cc), rest.1))
]

first_pending-All :
    (P : Placed → Type 0) (ps : List Placed) {p : Placed}
    → All P ps
    → first_pending ps ≡ some p
    → P p
unfolding first_pending
first_pending-All P [] hs e = cc
first_pending-All P (q ∷ qs) hs e = elim (Bool-cases (is_pending_action q.1.status)) [
  | inl yes_q ↦ subst P (some_inj.0 (rw yes_q at e)) hs.0
  | inr no_q ↦ first_pending-All P qs hs.1 (rw no_q at e)
]

first_pending-none :
    (ps : List Placed)
    → first_pending ps ≡ none
    → All (λ q. is_pending_action q.1.status ≡ false) ps
unfolding first_pending
first_pending-none [] e = tt
first_pending-none (q ∷ qs) e = ground (arith, first_pending-none qs)

placed-All :
    (full : List DispatchAction) (k : ℕ) (as' : List DispatchAction)
    → ((j : ℕ) → get_elem? full (k + j) ≡ get_elem? as' j)
    → All (λ p. get_elem? full p.0 ≡ some p.1) (placed k as')
unfolding placed
placed-All full k [] h = tt
placed-All full k (a ∷ as') h =
    (rw (← k0) (h 0), placed-All full (suc k) as' (λ j. rw (shift j) (h (suc j))))
  where
    k0 : k + 0 ≡ k
    k0 = omega arith

    shift : (j : ℕ) → suc k + j ≡ k + suc j
    shift j = omega arith

All-placed :
    (P : DispatchAction → Type 0) (k : ℕ) (as' : List DispatchAction)
    → All (λ p. P p.1) (placed k as')
    → All P as'
unfolding placed
All-placed P k [] h = tt
All-placed P k (a ∷ as') h = (h.0, All-placed P (suc k) as' h.1)

pub next_pending_action-some :
    (t : DispatchTask) {k : ℕ} {b : DispatchAction}
    → next_pending_action t ≡ some (k, b)
    → (get_elem? t.actions k ≡ some b)
      × (is_pending_action b.status ≡ true)
      × All (λ a. is_pending_action a.status ≡ true → b.sequence ≤ℤ a.sequence) t.actions
unfolding next_pending_action sorted_actions
next_pending_action-some t {k} {b} e =
    let ps = placed 0 t.actions in
    let first = first_pending-some (sort_stable ps) (k, b) (sort_stable-IsSorted ps) e in
    (
      first_pending-All (λ p. get_elem? t.actions p.0 ≡ some p.1) (sort_stable ps)
          (sort_stable-All _ ps
            (placed-All t.actions 0 t.actions (λ j. ap (get_elem? t.actions) (omega arith))))
          e,
      first.0,
      All-placed (λ a. is_pending_action a.status ≡ true → b.sequence ≤ℤ a.sequence) 0 t.actions
          (All-sort_stable _ ps first.1),
    )

pub next_pending_action-none :
    (t : DispatchTask)
    → next_pending_action t ≡ none
    → All (λ a. is_pending_action a.status ≡ false) t.actions
unfolding next_pending_action sorted_actions
next_pending_action-none t e =
    All-placed (λ a. is_pending_action a.status ≡ false) 0 t.actions
      (All-sort_stable _ (placed 0 t.actions) (first_pending-none _ e))

-- The next action among these, by its place, or that there is none.
abbrev pub Selects : List DispatchAction → Option (ℕ × DispatchAction) → Type 0
Selects actions none = All (λ a. is_pending_action a.status ≡ false) actions
Selects actions (some (k, b)) =
    (get_elem? actions k ≡ some b)
    × (is_pending_action b.status ≡ true)
    × All (λ a. is_pending_action a.status ≡ true → b.sequence ≤ℤ a.sequence) actions

-- `NextPendingAction` returns an action of the task that is pending, and no pending action of the
-- task has a smaller sequence number; it returns nothing only where no action of the task is pending.
pub next_pending_action-Selects : (t : DispatchTask) → Selects t.actions (next_pending_action t)
next_pending_action-Selects t = elim (Option-cases (next_pending_action t)) [
  | inl e ↦ subst (Selects t.actions) (sym e) (next_pending_action-none t e)
  | inr ((k, b), e) ↦ subst (Selects t.actions) (sym e) (next_pending_action-some t e)
]
