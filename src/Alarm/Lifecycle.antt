-- ===== src/Alarm/Lifecycle.antt =====
-- The life of a ticket: what any sequence of acknowledging and closing leaves.
use vpp_backend.Prelude.{
  ℕ, suc, ◌≤◌, ℤ, pos, ◌+ℤ◌, ltb_ℤ, ◌≡◌, refl, ◌∙◌, subst, String, is_blank, true, false, not,
  Option, none, some, Result, ok, err, guard, >>-ok, ok_inj, Either, List, [], ◌∷◌, Bool-cases, inl,
  inr, arith,
}
use vpp_backend.Alarm.{
  Time, Status, status_open, status_acknowledged, status_closed, status_other, Decision, Alarm,
  AlarmError, is_zero, parses_status, parses_severity, parses_source, validate, opened,
  new_open_alarm, acknowledge, close, id_required, tenant_required, invalid_status,
  invalid_severity, invalid_source, fingerprint_required, rule_required, title_required,
  event_required, count_too_small, version_too_small, acknowledge_from, close_from,
}

pub data Op : Type 0 where
  acknowledges closes : String → Time → Op

abbrev pub rank : Status → ℕ
rank status_open = 0
rank status_acknowledged = 1
rank _ = 2

version_up :
    (v : ℤ)
    → guard (not (ltb_ℤ v (pos 1))) version_too_small ≡ ok tt
    → guard (not (ltb_ℤ (v +ℤ pos 1) (pos 1))) version_too_small ≡ ok tt
unfolding ◌+ℤ◌
version_up v e = ground arith

rank_le : (s : Status) → rank s ≤ 2
rank_le s = ground arith

next_version : (n : ℕ) → pos (suc n) +ℤ pos 1 ≡ pos (suc (suc n))
unfolding ◌+ℤ◌
next_version n = ground arith

module _ {P : Type 0} where
  -- The marks of a ticket fit its status: who acknowledged or closed it, and when.
  abbrev pub Marked : Status → Alarm P → Type 0
  Marked status_open a = (a.acknowledged_at ≡ none) × (a.closed_at ≡ none)
  Marked status_acknowledged a =
      ((at : Time) × (a.acknowledged_at ≡ some at))
      × (is_blank a.acknowledged_by ≡ false)
      × (a.closed_at ≡ none)
  Marked status_closed a = ((at : Time) × (a.closed_at ≡ some at)) × (is_blank a.closed_by ≡ false)
  Marked (status_other s) a = ⊥

  pub record AlarmInv (a : Alarm P) : Type 0 where
    pub valid : validate a ≡ ok tt
    pub marked : Marked a.status a

  -- A new version of a valid alarm, with another declared status and its marks, is valid.
  validate-moved :
      (a : Alarm P) (status : Status) (acknowledged_at closed_at : Option Time)
      (acknowledged_by closed_by : String)
      → parses_status status ≡ true
      → validate a ≡ ok tt
      → validate (record a {
        status = status;
        acknowledged_at = acknowledged_at;
        acknowledged_by = acknowledged_by;
        closed_at = closed_at;
        closed_by = closed_by;
        version = a.version +ℤ pos 1;
      })
        ≡ ok tt
  unfolding validate
  validate-moved a status acknowledged_at closed_at acknowledged_by closed_by s e =
      let (h₁, e₁) = >>-ok (guard (not (is_blank a.id)) id_required) _ e in
      let (h₂, e₂) = >>-ok (guard (not (is_blank a.tenant_id)) tenant_required) _ e₁ in
      let (h₃, e₃) = >>-ok (guard (parses_status a.status) invalid_status) _ e₂ in
      let (h₄, e₄) = >>-ok (guard (parses_severity a.severity) invalid_severity) _ e₃ in
      let (h₅, e₅) = >>-ok (guard (parses_source a.source) invalid_source) _ e₄ in
      let (h₆, e₆) = >>-ok (guard (not (is_blank a.fingerprint)) fingerprint_required) _ e₅ in
      let (h₇, e₇) = >>-ok (guard (not (is_blank a.rule_id)) rule_required) _ e₆ in
      let (h₈, e₈) = >>-ok (guard (not (is_blank a.title)) title_required) _ e₇ in
      let (h₉, e₉) = >>-ok (guard (not (is_blank a.last_event_id)) event_required) _ e₈ in
      let (h₁₀, e₁₀) = >>-ok (guard (not (ltb_ℤ a.count (pos 1))) count_too_small) _ e₉ in
      let (h₁₁, e₁₁) = >>-ok (guard (not (ltb_ℤ a.version (pos 1))) version_too_small) _ e₁₀ in
      rw (h₁, h₂, h₄, h₅, h₆, h₇, h₈, h₉, h₁₀, s, version_up a.version h₁₁) e₁₁

  unfoldable pub perform : Op → Alarm P → Result AlarmError (Alarm P)
  perform (acknowledges actor at) a = acknowledge actor at a
  perform (closes actor at) a = close actor at a

  -- What an accepted operation does to a well-formed ticket that was not closed.
  record Moved (a b : Alarm P) : Type 0 where
    inv : AlarmInv b
    up : suc (rank a.status) ≤ rank b.status
    newer : b.version ≡ a.version +ℤ pos 1

  acknowledge_from-Moved :
      (s : Status) (actor : String) (at : Time) (a : Alarm P)
      → is_blank actor ≡ false
      → a.status ≡ s
      → AlarmInv a
      → Either (Moved a) (λ e. Unit {0}) (acknowledge_from s actor at a)
  unfolding parses_status
  acknowledge_from-Moved status_open actor at a b e v = record {
    inv = record {
      valid =
          validate-moved a status_acknowledged (some at) a.closed_at actor a.closed_by refl v.valid;
      marked = ((at, refl), b, (subst (λ s. Marked s a) e v.marked).1);
    };
    up = rw e (omega arith);
    newer = refl;
  }
  acknowledge_from-Moved status_acknowledged actor at a b e v = tt
  acknowledge_from-Moved status_closed actor at a b e v = tt
  acknowledge_from-Moved (status_other s) actor at a b e v = tt

  close_from-Moved :
      (s : Status) (actor : String) (at : Time) (a : Alarm P)
      → is_blank actor ≡ false
      → a.status ≡ s
      → AlarmInv a
      → Either (Moved a) (λ e. Unit {0}) (close_from s actor at a)
  unfolding parses_status
  close_from-Moved status_open actor at a b e v = record {
    inv = record {
      valid =
          validate-moved a status_closed a.acknowledged_at (some at) a.acknowledged_by actor refl
            v.valid;
      marked = ((at, refl), b);
    };
    up = rw e (omega arith);
    newer = refl;
  }
  close_from-Moved status_acknowledged actor at a b e v = record {
    inv = record {
      valid =
          validate-moved a status_closed a.acknowledged_at (some at) a.acknowledged_by actor refl
            v.valid;
      marked = ((at, refl), b);
    };
    up = rw e (omega arith);
    newer = refl;
  }
  close_from-Moved status_closed actor at a b e v = tt
  close_from-Moved (status_other s) actor at a b e v = tt

  perform-Moved :
      (o : Op) (a : Alarm P) → AlarmInv a → Either (Moved a) (λ e. Unit {0}) (perform o a)
  unfolding perform acknowledge close
  perform-Moved (acknowledges actor at) a v = elim (Bool-cases (is_blank actor)) [
    | inl blank ↦ rw (blank, perform, acknowledge) tt
    | inr named ↦ elim (Bool-cases (is_zero at)) [
      | inl never ↦ rw (named, never, perform, acknowledge) tt
      | inr dated ↦
          rw (named, dated, perform, acknowledge)
            (acknowledge_from-Moved a.status actor at a named refl v)
    ]
  ]
  perform-Moved (closes actor at) a v = elim (Bool-cases (is_blank actor)) [
    | inl blank ↦ rw (blank, perform, close) tt
    | inr named ↦ elim (Bool-cases (is_zero at)) [
      | inl never ↦ rw (named, never, perform, close) tt
      | inr dated ↦
          rw (named, dated, perform, close) (close_from-Moved a.status actor at a named refl v)
    ]
  ]

  -- A ticket and the number of operations accepted; a refused one changes nothing.
  abbrev settle : Alarm P × ℕ → Result AlarmError (Alarm P) → Alarm P × ℕ
  settle (a, n) (ok b) = (b, suc n)
  settle (a, n) (err e) = (a, n)

  unfoldable pub run : List Op → Alarm P × ℕ → Alarm P × ℕ
  unfolding perform
  run [] p = p
  run (o ∷ os) p = run os (settle p (perform o p.0))

  -- A well-formed ticket that `n` operations have been accepted for: its version counts them, and
  -- there are no more of them than its status has steps behind it.
  pub record Lawful (p : Alarm P × ℕ) : Type 0 where
    pub inv : AlarmInv p.0
    pub counted : p.0.version ≡ pos (suc p.1)
    pub few : p.1 ≤ rank p.0.status

  settle-Lawful :
      (p : Alarm P × ℕ) (r : Result AlarmError (Alarm P))
      → Lawful p
      → Either (Moved p.0) (λ e. Unit {0}) r
      → Lawful (settle p r)
  settle-Lawful (a, n) (err e) h m = h
  settle-Lawful (a, n) (ok b) h m = record {
    inv = m.inv;
    counted = m.newer ∙ rw h.counted (next_version n);
    few = omega (arith, h.few, m.up);
  }

  run-Lawful : (os : List Op) (p : Alarm P × ℕ) → Lawful p → Lawful (run os p)
  unfolding run
  run-Lawful [] p h = h
  run-Lawful (o ∷ os) p h =
      run-Lawful os (settle p (perform o p.0))
        (settle-Lawful p (perform o p.0) h (perform-Moved o p.0 h.inv))

  opened-Lawful :
      (id : String) (d : Decision P) → validate (opened id d) ≡ ok tt → Lawful (opened id d, 0)
  unfolding opened
  opened-Lawful id d e = record {
    inv = record { valid = e; marked = (refl, refl) };
    counted = refl;
    few = omega arith;
  }

  new_open_alarm-opened :
      (id : String) (d : Decision P) (a : Alarm P)
      → new_open_alarm id d ≡ ok a
      → (validate (opened id d) ≡ ok tt) × (opened id d ≡ a)
  unfolding new_open_alarm
  new_open_alarm-opened id d a e =
      let (valid, e₁) = >>-ok (validate (opened id d)) _ e in (valid, ok_inj e₁)

  -- A ticket that has just been opened, after any sequence of attempts to acknowledge and to close
  -- it: it is valid, the marks of who acknowledged or closed it and when fit its status, its
  -- version is one more than the number of attempts accepted, and at most two of them were, no more
  -- than the steps that its status is past `open`.
  pub new_open_alarm-Lawful :
      (id : String) (d : Decision P) (a : Alarm P) (os : List Op)
      → new_open_alarm id d ≡ ok a
      → Lawful (run os (a, 0)) × ((run os (a, 0)).1 ≤ 2)
  new_open_alarm-Lawful id d a os e =
      let (valid, same) = new_open_alarm-opened id d a e in
      let lawful =
        run-Lawful os (a, 0) (subst (λ x. Lawful (x, 0)) same (opened-Lawful id d valid)) in
      (lawful, omega (arith, lawful.few, rank_le (run os (a, 0)).0.status))
