-- ===== src/Decision/Claim/Due.antt =====
-- Which rows a claim finds: all that are due, in the order of the query.
use vpp_backend.Prelude.{
  ℕ, ◌≤◌, ◌<◌, ◌≡◌, refl, subst, String, Bool, true, ◌&&◌, Bool-cases, some, inl, inr, List, [],
  ◌∷◌, count, ◌==◌, ltb, ok, >>-ok, guard-ok, ok_inj, arith,
}
use mathlib.Core.List.Permᴰ
use vpp_backend.Prelude.Bytes.{Bytes}
use vpp_backend.Prelude.Rows.{
  Among, All-Among, Among-All, Among-count, Among-update_where, Among-select_where, count-Among,
}
use vpp_backend.Prelude.Sort.{sort, sort-Permᴰ, All-Permᴰ}
use vpp_backend.Decision.Tables.{
  OutboxStatus, OutboxRow, Tables, PlanError, is_claimable, select_where, one_row,
}
use vpp_backend.Decision.Claim.{Claim, is_leased, is_due, first_due, claimable_rows, row_less}
use vpp_backend.Decision.Marks.{release_outbox, released_row, is_own, mark_uncertain}
use vpp_backend.Decision.Marks.Rows.{uncertain-Released}

pub count-select_where {ℓ} :
    {A : Type ℓ} (p q : A → Bool) (xs : List A)
    → count p (select_where q xs) ≡ count (λ x. q x && p x) xs
unfolding select_where
count-select_where p q [] = refl
count-select_where p q (x ∷ xs) = ground (arith, count-select_where p q xs)

-- Where a row is due, one is found.
pub first_due-finds :
    (rows : List OutboxRow) (now : ℕ)
    → 0 < count (is_due now) rows
    → (row : OutboxRow) × (first_due rows now ≡ some row)
unfolding first_due is_due
first_due-finds [] now h = absurd (omega arith)
first_due-finds (r ∷ rows) now h = elim (Bool-cases (ltb now r.available_at)) [
  | inl e ↦
      let (row, found) = first_due-finds rows now (ground arith) in (row, rw (e, first_due) found)
  | inr e ↦ elim (Bool-cases (is_leased r.lease_until now)) [
    | inl f ↦
        let (row, found) = first_due-finds rows now (ground arith) in
        (row, rw (e, f, first_due) found)
    | inr f ↦ (r, rw (e, f, first_due) refl)
  ]
]

Among-sort :
    {A : Type 0} (less : A → A → Bool) (x : A) (xs : List A) → Among x xs → Among x (sort less xs)
Among-sort less x xs m =
    Among-All (λ y. Among y (sort less xs)) x xs
      (All-Permᴰ (λ y. Among y (sort less xs)) (Permᴰ.symm (sort-Permᴰ less xs))
        (All-Among (sort less xs)))
      m

-- When an attempt is recorded as uncertain, the row of the claim, the one with its outbox id and its
-- lease, is put back: the query returns it, as it was but pending, free and due from the retry time on.
-- From then on the query finds a row that is due.
pub mark_uncertain-retried :
    {V : Type 0} (id_less : String → String → Bool) (claim : Claim V) (cause : Bytes)
    (now retry_at later : ℕ) (t t' : Tables V)
    → mark_uncertain claim cause now retry_at t ≡ ok t'
    → retry_at ≤ later
    → (row : OutboxRow) × Among row t.outbox
      × (is_own claim row ≡ true)
      × Among
          (released_row OutboxStatus.pending (some retry_at) row)
          (claimable_rows id_less t'.outbox)
      × (is_due later (released_row OutboxStatus.pending (some retry_at) row) ≡ true)
      × ((first : OutboxRow) × (first_due (claimable_rows id_less t'.outbox) later ≡ some first))
unfolding claimable_rows release_outbox is_due is_leased
mark_uncertain-retried id_less claim cause now retry_at later t t' e h =
    let r = uncertain-Released claim cause now retry_at t t' e in
    let (one, made) = >>-ok (one_row (is_own claim) r.before.outbox) _ r.done in
    let single = guard-ok (count (is_own claim) r.before.outbox == 1) PlanError.lease_lost one in
    let (row, there, own) = count-Among (is_own claim) r.before.outbox (ground arith) in
    let back = released_row OutboxStatus.pending (some retry_at) row in
    let queued =
      Among-sort (row_less id_less) back
        (select_where (λ (x : OutboxRow). is_claimable x.status) t'.outbox)
        (Among-select_where (λ (x : OutboxRow). is_claimable x.status) back t'.outbox
          (subst (λ (x : Tables _). Among back x.outbox) (ok_inj made)
            (Among-update_where (is_own claim) (released_row OutboxStatus.pending (some retry_at))
              row r.before.outbox there own))
          refl) in
    let due : is_due later back ≡ true = ground arith in
    (
      row,
      subst (Among row) r.same there,
      own,
      queued,
      due,
      first_due-finds (claimable_rows id_less t'.outbox) later
          (Among-count (is_due later) back (claimable_rows id_less t'.outbox) queued due),
    )
