-- ===== src/Decision/Save/Created.antt =====
-- What the inserts of `Save` leave in the tables.
use vpp_backend.Prelude.{
  ℕ, suc, ◌≡◌, refl, sym, subst, ap, ◌∙◌, String, str_eq, str_eq_iff, Bool, Bool-cases, true, false,
  some, inl, inr, List, [], ◌∷◌, ◌++◌, length, length-append, count, All, All-map, ◌==◌, ok, guard,
  guard-ok, ok_inj, >>-ok, >>=-ok, arith,
}
use mathlib.Core.Bool.{true≢false}
use mathlib.Core.List.{append_assoc}
use vpp_backend.Prelude.Rows.{take_where, take_where_sound, take_where-counted, Among, Among-append}
use vpp_backend.Decision.Tables.{OutboxRow, is_ready}
use vpp_backend.Decision.Plan.{PlanStep, Plan}
use vpp_backend.Decision.Save.{SaveError, create, outbox_key, outbox_row, queue_step, queue_steps}

-- The row with this key.
abbrev pub HasRow {ℓ} : {A : Type ℓ} → (A → String) → String → A → List A → Type ℓ
HasRow key id row rows = take_where (λ r. str_eq (key r) id) rows ≡ some row

str_eq_refl : (s : String) → str_eq s s ≡ true
str_eq_refl s = (str_eq_iff s s).1 refl

module _ {A : Type 0} (key : A → String) (row : A) (rows : List A) {rows' : List A}
    (created : create key row rows ≡ ok rows') where
  pub create-ok : (count (λ r. str_eq (key r) (key row)) rows ≡ 0) × (row ∷ rows ≡ rows')
  unfolding create
  create-ok =
      let (free, made) =
        >>-ok (guard (count (λ r. str_eq (key r) (key row)) rows == 0) SaveError.duplicate_key) _
          created in
      (
        ground (
          arith,
          guard-ok (count (λ r. str_eq (key r) (key row)) rows == 0) SaveError.duplicate_key free,
        ),
        ok_inj made,
      )

  pub create-HasRow : HasRow key (key row) row rows'
  unfolding take_where
  create-HasRow =
      subst (HasRow key (key row) row) create-ok.1 (rw (str_eq_refl (key row), take_where) refl)

  -- The key is not that of a row that is there.
  pub create-other : (id : String) (x : A) → HasRow key id x rows → str_eq (key row) id ≡ false
  create-other id x h = elim (Bool-cases (str_eq (key row) id)) [
    | inr other ↦ other
    | inl same ↦
        let at = sym ((str_eq_iff (key row) id).0 same) in
        let found = take_where_sound (λ r. str_eq (key r) id) rows h in
        let again = subst (λ k. str_eq (key x) k ≡ true) at found in
        let some_row =
          take_where-counted (λ r. str_eq (key r) (key row)) (λ r. str_eq (key r) id) rows h
            again in
        absurd (omega (arith, create-ok.0))
  ]

  -- A row that is there is found as before.
  pub create-keeps : (id : String) (x : A) → HasRow key id x rows → HasRow key id x rows'
  unfolding take_where
  create-keeps id x h = subst (HasRow key id x) create-ok.1 (rw (create-other id x h, take_where) h)

append_one : {A : Type 0} (xs : List A) (x : A) (ys : List A) → (xs ++ x ∷ []) ++ ys ≡ xs ++ x ∷ ys
append_one xs x ys = append_assoc xs (x ∷ []) ys

All-append : {A : Type 0} (P : A → Type 0) (xs ys : List A) → All P xs → All P ys → All P (xs ++ ys)
All-append P [] ys h k = k
All-append P (x ∷ xs) ys h k = (h.0, All-append P xs ys h.1 k)

Among-last : {A : Type 0} (xs : List A) (x : A) → Among x (xs ++ x ∷ [])
Among-last [] x = inl refl
Among-last (y ∷ xs) x = inr (Among-last xs x)

module _ {F : Type 0} where
  abbrev pub is_ready_step : PlanStep F → Bool
  is_ready_step s = is_ready s.status

  -- A row of the outbox for a ready step, of which `P` holds.
  abbrev pub RowFor : (PlanStep F → Type 0) → Plan F → OutboxRow → Type 0
  RowFor P p r = (s : PlanStep F) × P s × (is_ready s.status ≡ true) × (r ≡ outbox_row r.id p s)

  -- A ready step has a row of its own.
  abbrev pub HasOutboxRow : Plan F → List OutboxRow → PlanStep F → Type 0
  HasOutboxRow p rows s = is_ready s.status ≡ true → (id : String) × Among (outbox_row id p s) rows

  HasOutboxRow-append :
      (p : Plan F) (xs ys : List OutboxRow) (s : PlanStep F)
      → HasOutboxRow p xs s
      → HasOutboxRow p (xs ++ ys) s
  HasOutboxRow-append p xs ys s h ready =
      let (id, m) = h ready in (id, Among-append (outbox_row id p s) xs ys m)

  -- New rows stand before the old ones, one for each ready step.
  pub queue_steps-rows :
      (P : PlanStep F → Type 0) (ids : ℕ → String) (n : ℕ) (p : Plan F) (steps : List (PlanStep F))
      (rows rows' : List OutboxRow)
      → All P steps
      → queue_steps ids n p steps rows ≡ ok rows'
      → (new : List OutboxRow) × (rows' ≡ new ++ rows)
        × All (RowFor P p) new
        × (length new ≡ count is_ready_step steps)
        × All (HasOutboxRow p new) steps
  unfolding queue_steps queue_step
  queue_steps-rows P ids n p [] rows rows' h e = ([], sym (ok_inj e), tt, refl, tt)
  queue_steps-rows P ids n p (s ∷ ss) rows rows' h e = elim (Bool-cases (is_ready s.status)) [
    | inr other ↦
        let (new, eq, all, len, each) =
          queue_steps-rows P ids (suc n) p ss rows rows' h.1 (rw (other, queue_step) at e) in
        (
          new,
          eq,
          all,
          ground (arith, len, other),
          ((λ ready. absurd (true≢false (sym ready ∙ other))), each),
        )
    | inl ready ↦
        let row = outbox_row (ids n) p s in
        let (rows₁, created, e₁) =
          >>=-ok (create outbox_key row rows) _ (rw (ready, queue_step) at e) in
        let (new, eq, all, len, each) = queue_steps-rows P ids (suc n) p ss rows₁ rows' h.1 e₁ in
        let made = (create-ok outbox_key row rows created).1 in
        (
          new ++ row ∷ [],
          eq ∙ ap (λ (x : List OutboxRow). new ++ x) (sym made) ∙ sym (append_one new row rows),
          All-append (RowFor P p) new (row ∷ []) all ((s, h.0, ready, refl), tt),
          ground (arith, len, ready, length-append {0} new (row ∷ [])),
          (
            (λ _. (ids n, Among-last new row)),
            All-map (HasOutboxRow p new) (HasOutboxRow p (new ++ row ∷ []))
                (HasOutboxRow-append p new (row ∷ [])) ss each,
          ),
        )
  ]
