-- ===== src/Decision/Cooldown/Windows.antt =====
-- The windows of one key, which several transactions compete for, each with what it once read.
use vpp_backend.Prelude.{
  ℕ, ◌+◌, ◌≤◌, ◌<◌, ◌≡◌, sym, subst, ap, ◌∙◌, String, true, Bool-cases, Option, none, some,
  some_inj, inl, inr, List, [], ◌∷◌, All, ltb, ◌==◌, arith,
}
use vpp_backend.Prelude.Rows.{Among}
use vpp_backend.Decision.Cooldown.{CooldownRow, Try, nullable_id, cooldown_try}

-- When a window was taken, and its end.
abbrev pub Window : Type 0
Window = ℕ × ℕ

-- The row now, the rows it once was, and the windows taken so far, the last one first. A try reads the
-- row of now or of then, and writes at the row of now.
pub data History : Option CooldownRow → List (Option CooldownRow) → List Window → Type 0 where
  untouched : History none [] []
  taken :
      {cur : Option CooldownRow} {past : List (Option CooldownRow)} {windows : List Window}
      (now until : ℕ) (objective_id plan_id : String) (read : Option CooldownRow)
      (row : CooldownRow)
      → History cur past windows
      → Among read (cur ∷ past)
      → cooldown_try now until objective_id plan_id true (read, cur) ≡ Try.wrote row
      → History (some row) (cur ∷ past) ((now, until) ∷ windows)

-- Every window is taken at or after the end of the one before.
abbrev pub Apart : List Window → Type 0
Apart [] = Unit
Apart (w ∷ []) = Unit
Apart (w ∷ v ∷ ws) = (v.1 ≤ w.0) × Apart (v ∷ ws)

-- The row holds the end of the last window.
abbrev Ends : Option CooldownRow → List Window → Type 0
Ends none [] = Unit
Ends none (w ∷ ws) = ⊥
Ends (some r) [] = ⊥
Ends (some r) (w ∷ ws) = r.cooldown_until ≡ w.1

abbrev Older : Option CooldownRow → Option CooldownRow → Type 0
Older none p = ⊥
Older (some r) none = Unit
Older (some r) (some p) = p.version < r.version

-- What a try that writes has found.
abbrev Found : ℕ → ℕ → Option CooldownRow → Option CooldownRow → CooldownRow → Type 0
Found now until none none row = row.cooldown_until ≡ until
Found now until none (some there) row = ⊥
Found now until (some r) none row = ⊥
Found now until (some r) (some there) row =
    (there.version ≡ r.version)
    × (r.cooldown_until ≤ now)
    × (row.cooldown_until ≡ until)
    × (row.version ≡ r.version + 1)

wrote_inj : {a b : CooldownRow} → Try.wrote a ≡ Try.wrote b → a ≡ b
wrote_inj h = cc

abbrev made_row : ℕ → String → String → ℕ → CooldownRow
made_row until objective_id plan_id version = record {
  cooldown_until = until;
  last_objective_id = nullable_id objective_id;
  last_plan_id = nullable_id plan_id;
  version = version;
}

cooldown_try-Found :
    (now until : ℕ) (objective_id plan_id : String) (read cur : Option CooldownRow)
    (row : CooldownRow)
    → cooldown_try now until objective_id plan_id true (read, cur) ≡ Try.wrote row
    → Found now until read cur row
unfolding cooldown_try
cooldown_try-Found now until o p none none row e =
    ap (λ (r : CooldownRow). r.cooldown_until) (sym (wrote_inj e))
cooldown_try-Found now until o p none (some there) row e = cc
cooldown_try-Found now until o p (some r) none row e =
    elim (Bool-cases (ltb now r.cooldown_until)) [
      | inl h ↦ let e' : Try.held ≡ Try.wrote row = rw h at e in cc
      | inr h ↦ let e' : Try.again ≡ Try.wrote row = rw h at e in cc
    ]
cooldown_try-Found now until o p (some r) (some there) row e =
    elim (Bool-cases (ltb now r.cooldown_until)) [
      | inl h ↦ let e' : Try.held ≡ Try.wrote row = rw h at e in cc
      | inr h ↦ elim (Bool-cases (there.version == r.version)) [
        | inl k ↦
            let same = wrote_inj (rw (h, k) at e) in
            (
              ground arith,
              ground arith,
              ap (λ (x : CooldownRow). x.cooldown_until) (sym same),
              ap (λ (x : CooldownRow). x.version) (sym same),
            )
        | inr k ↦ let e' : Try.again ≡ Try.wrote row = rw (h, k) at e in cc
      ]
    ]

-- What holds of the key: the row ends the last window, all it once was is older, no windows overlap.
record Kept (cur : Option CooldownRow) (past : List (Option CooldownRow)) (windows : List Window)
    : Type 0 where
  pub last : Ends cur windows
  pub older : All (Older cur) past
  pub apart : Apart windows

Among-Older :
    (cur read : Option CooldownRow) (past : List (Option CooldownRow))
    → All (Older cur) past
    → Among read past
    → Older cur read
Among-Older cur read (p ∷ past) h (inl e) = subst (Older cur) (sym e) h.0
Among-Older cur read (p ∷ past) h (inr a) = Among-Older cur read past h.1 a
Among-Older cur read [] h a = absurd a

-- What was read is what is there, if the versions agree.
fresh_read :
    (r there : CooldownRow) (past : List (Option CooldownRow))
    → All (Older (some there)) past
    → Among (some r) (some there ∷ past)
    → there.version ≡ r.version
    → r ≡ there
fresh_read r there past h (inl e) v = some_inj.0 e
fresh_read r there past h (inr a) v =
    let before = Among-Older (some there) (some r) past h a in absurd (ground arith)

newer_All :
    (there row : CooldownRow) (past : List (Option CooldownRow))
    → there.version < row.version
    → All (Older (some there)) past
    → All (Older (some row)) past
newer_All there row [] v h = tt
newer_All there row (none ∷ past) v h = (tt, newer_All there row past v h.1)
newer_All there row (some p ∷ past) v h =
    let before = h.0 in (omega arith, newer_All there row past v h.1)

taken-Kept :
    (cur : Option CooldownRow) (past : List (Option CooldownRow)) (windows : List Window)
    (now until : ℕ) (read : Option CooldownRow) (row : CooldownRow)
    → Kept cur past windows
    → Among read (cur ∷ past)
    → Found now until read cur row
    → Kept (some row) (cur ∷ past) ((now, until) ∷ windows)
taken-Kept none [] [] now until none row k a f = record { last = f; older = (tt, tt); apart = tt }
taken-Kept none (p ∷ past) windows now until none row k a f = absurd k.older.0
taken-Kept none [] (w ∷ ws) now until none row k a f = absurd k.last
taken-Kept none past windows now until (some r) row k a f = absurd f
taken-Kept (some there) past windows now until none row k a f = absurd f
taken-Kept (some there) past [] now until (some r) row k a f = absurd k.last
taken-Kept (some there) past (w ∷ ws) now until (some r) row k a f =
    let same = fresh_read r there past k.older a f.0 in
    let ends = ap (λ (x : CooldownRow). x.cooldown_until) same ∙ k.last in
    let version = f.0 in
    let next = f.3 in
    let over = f.1 in
    let newer : there.version < row.version = omega arith in
    record {
      last = f.2;
      older = (newer, newer_All there row past newer k.older);
      apart = (omega arith, k.apart);
    }

History-Kept :
    {cur : Option CooldownRow} {past : List (Option CooldownRow)} {windows : List Window}
    → History cur past windows
    → Kept cur past windows
History-Kept History.untouched = record { last = tt; older = tt; apart = tt }
History-Kept (History.taken now until o p read row h a e) =
    taken-Kept _ _ _ now until read row (History-Kept h) a
      (cooldown_try-Found now until o p read _ row e)

-- However transactions that may only take an expired window compete for a key, with rows that they
-- read at any time before, the windows that they take do not overlap: each is taken at or after the
-- end of the one before.
pub History-Apart :
    (cur : Option CooldownRow) (past : List (Option CooldownRow)) (windows : List Window)
    → History cur past windows
    → Apart windows
History-Apart cur past windows h = (History-Kept h).apart
