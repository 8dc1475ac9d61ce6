-- ===== src/Decision/Allocation/Safe.antt =====
-- Every command of an allocation, against the member that it is for.
use vpp_backend.Prelude.{
  pos, ltb_ℤ, All-map, ◌≡◌, refl, sym, subst, ap, ◌∙◌, String, str_eq, Bool, false, ◌&&◌,
  Bool-cases, Option, Option-cases, none, some, some_inj, some_ne_none, inl, inr, List, [], ◌∷◌,
  map, All, if◌then◌else◌, ok, is_ok, guard, ◌>>◌, >>-ok, >>=-ok, ok_inj, err_ne_ok,
}
use vpp_backend.Prelude.Sort.{sort-Permᴰ, All-Permᴰ}
use vpp_backend.Contracts.Capability.{EnergyStorageSpec}
use vpp_backend.Prelude.Rows.{Among}
use vpp_backend.Decision.Objective.{PowerObjective, validate_objective}
use vpp_backend.Decision.Allocation.Distribute.{PowerFloats, Slot, new_slot}
use vpp_backend.Decision.Allocation.Bounded.{slot_cap, Granted, Fits, distribute-Distributed}
use vpp_backend.Decision.Allocation.Clamp.{
  Clamped, ConsistentSafety, ConsistentMember, clamp_setpoint-Clamped,
}
use vpp_backend.Decision.Allocation.{
  MemberBinding, Member, UnitState, DecisionContext, AllocateError, AllocatedCommand, Allocation,
  Candidate, writes, setpoint_metric, setpoint_binding, soc_of, found, candidate_of, candidates,
  signed_power, command_of, commands_of, outcome, inputs_of, allocate_among, allocate, delivered,
}
use vpp_backend.Decision.Allocation.Limits.{recorded_safety, direction_cap, clamp_setpoint}

abbrev candidate_cap : {F : Type 0} → Candidate F → F
candidate_cap c = c.cap

abbrev usable : {F : Type 0} → MemberBinding F → Bool
usable b =
    str_eq b.metric_id setpoint_metric
    && b.enabled
    && ltb_ℤ (pos 0) b.revision
    && writes b.access_mode

module _ {F : Type 0} (p : PowerFloats F) where
  -- What a command is, for one of the members.
  pub record SafeFor (discharge : Bool) (c : AllocatedCommand F) (m : Member F) : Type 0 where
    pub named : c.cu_code ≡ m.cu_id
    pub spec : EnergyStorageSpec F
    pub has_spec : m.spec ≡ some spec
    pub binding : MemberBinding F
    pub writable : setpoint_binding m.bindings ≡ some binding
    pub revision : c.binding_revision ≡ binding.revision
    pub safety : c.safety ≡ recorded_safety binding.safety
    pub assigned : F
    pub granted :
        Granted p (direction_cap p spec (recorded_safety binding.safety) discharge) assigned
    pub enough : p.floats.le assigned p.eps ≡ false
    pub clamped :
        Clamped p (recorded_safety binding.safety) (signed_power p discharge assigned) c.value

  abbrev pub Safe : Bool → List (Member F) → AllocatedCommand F → Type 0
  Safe discharge members c = (m : Member F) × Among m members × SafeFor discharge c m

  module _ (irreflexive : (v : F) → p.floats.lt v v ≡ false) where
    -- Where a candidate comes from.
    record From (discharge : Bool) (members : List (Member F)) (c : Candidate F) : Type 0 where
      member : Member F
      among : Among member members
      named : c.cu_id ≡ member.cu_id
      spec : EnergyStorageSpec F
      has_spec : member.spec ≡ some spec
      writable : setpoint_binding member.bindings ≡ some c.binding
      cap : c.cap ≡ direction_cap p spec (recorded_safety c.binding.safety) discharge
      consistent : ConsistentSafety p (recorded_safety c.binding.safety)

    setpoint_binding-All :
        (P : MemberBinding F → Type 0) (bs : List (MemberBinding F)) {b : MemberBinding F}
        → All P bs
        → setpoint_binding bs ≡ some b
        → P b
    unfolding setpoint_binding
    setpoint_binding-All P [] h e = absurd (some_ne_none (sym e))
    setpoint_binding-All P (x ∷ bs) h e = elim (Bool-cases (usable x)) [
      | inl own ↦ subst P (some_inj.0 (rw (own, setpoint_binding) at e)) h.0
      | inr other ↦ setpoint_binding-All P bs h.1 (rw (other, setpoint_binding) at e)
    ]

    found-ok {ℓ} :
        {A : Type ℓ} (x : AllocateError) (o : Option A) {a : A} → found x o ≡ ok a → o ≡ some a
    found-ok x none e = absurd (err_ne_ok e)
    found-ok x (some b) e = ap some (ok_inj e)

    candidate_of-From :
        (discharge : Bool) (units : List (UnitState F)) (m : Member F) (ms : List (Member F))
        (c : Candidate F)
        → ConsistentMember p m
        → candidate_of p discharge units m ≡ ok c
        → From discharge (m ∷ ms) c
    unfolding candidate_of
    candidate_of-From discharge units m ms c ok_member e =
        let (spec, s, e₁) = >>=-ok (found AllocateError.no_spec m.spec) _ e in
        let (binding, b, e₂) =
          >>=-ok (found AllocateError.no_binding (setpoint_binding m.bindings)) _ e₁ in
        let (soc, _, e₃) =
          >>=-ok (found AllocateError.no_state_of_charge (soc_of m.cu_id units)) _ e₂ in
        let writable = found-ok AllocateError.no_binding (setpoint_binding m.bindings) b in
        subst (From discharge (m ∷ ms)) (ok_inj e₃) (record {
          member = m;
          among = inl refl;
          named = refl;
          spec = spec;
          has_spec = found-ok AllocateError.no_spec m.spec s;
          writable = writable;
          cap = refl;
          consistent =
              setpoint_binding-All
                (λ (x : MemberBinding F). ConsistentSafety p (recorded_safety x.safety)) m.bindings
                ok_member writable;
        })

    later_From :
        (discharge : Bool) (m : Member F) (ms : List (Member F)) (c : Candidate F)
        → From discharge ms c
        → From discharge (m ∷ ms) c
    later_From discharge m ms c f = record {
      member = f.member;
      among = inr f.among;
      named = f.named;
      spec = f.spec;
      has_spec = f.has_spec;
      writable = f.writable;
      cap = f.cap;
      consistent = f.consistent;
    }

    candidates-From :
        (discharge : Bool) (units : List (UnitState F)) (ms : List (Member F))
        (cs : List (Candidate F))
        → All (ConsistentMember p) ms
        → candidates p discharge units ms ≡ ok cs
        → All (From discharge ms) cs
    unfolding candidates
    candidates-From discharge units [] cs h e = subst (All (From discharge [])) (ok_inj e) tt
    candidates-From discharge units (m ∷ ms) cs h e =
        let (c, first, e₁) = >>=-ok (candidate_of p discharge units m) _ e in
        let (rest, others, e₂) = >>=-ok (candidates p discharge units ms) _ e₁ in
        subst (All (From discharge (m ∷ ms))) (ok_inj e₂) (
          candidate_of-From discharge units m ms c h.0 first,
          All-map (From discharge ms) (From discharge (m ∷ ms))
              (λ x f. later_From discharge m ms x f) rest
              (candidates-From discharge units ms rest h.1 others),
        )

    command_of-Safe :
        (discharge : Bool) (members : List (Member F)) (c : Candidate F) (assigned : F)
        (x : AllocatedCommand F)
        → From discharge members c
        → Granted p c.cap assigned
        → command_of p discharge c assigned ≡ some x
        → Safe discharge members x
    unfolding command_of
    command_of-Safe discharge members c assigned x f granted e =
        let safety = recorded_safety c.binding.safety in
        let signed = signed_power p discharge assigned in
        elim (Bool-cases (p.floats.le assigned p.eps)) [
          | inl little ↦ absurd (some_ne_none (sym (rw (little, command_of) at e)))
          | inr enough ↦ elim (Option-cases (clamp_setpoint p signed safety)) [
            | inl refused ↦ absurd (some_ne_none (sym (rw (enough, refused, command_of) at e)))
            | inr (v, clamped) ↦ elim (Bool-cases (p.floats.le (p.floats.abs v) p.eps)) [
              | inl small ↦
                  absurd (some_ne_none (sym (rw (enough, clamped, small, command_of) at e)))
              | inr large ↦
                  subst (Safe discharge members)
                    (some_inj.0 (rw (enough, clamped, large, command_of) at e))
                    (
                      f.member,
                      f.among,
                      record {
                        named = f.named;
                        spec = f.spec;
                        has_spec = f.has_spec;
                        binding = c.binding;
                        writable = f.writable;
                        revision = refl;
                        safety = refl;
                        assigned = assigned;
                        granted = subst (λ cap. Granted p cap assigned) f.cap granted;
                        enough = enough;
                        clamped =
                            clamp_setpoint-Clamped p irreflexive signed safety v f.consistent
                              clamped;
                      },
                    )
            ]
          ]
        ]

    commands_of-Safe :
        (discharge : Bool) (members : List (Member F)) (cs : List (Candidate F))
        (slots : List (Slot F))
        → All (From discharge members) cs
        → All (Fits p) slots
        → map slot_cap slots ≡ map candidate_cap cs
        → All (Safe discharge members) (commands_of p discharge cs slots)
    unfolding commands_of
    commands_of-Safe discharge members [] slots f g e = tt
    commands_of-Safe discharge members (c ∷ cs) [] f g e = tt
    commands_of-Safe discharge members (c ∷ cs) (s ∷ slots) f g e =
        let same : s.cap ≡ c.cap = cc in
        let rest = commands_of-Safe discharge members cs slots f.1 g.1 (cc) in
        elim (Option-cases (command_of p discharge c s.assigned)) [
          | inl no_command ↦ rw (no_command, commands_of) rest
          | inr (x, made) ↦
              rw (made, commands_of)
                (
                  command_of-Safe discharge members c s.assigned x f.0
                      (subst (λ cap. Granted p cap s.assigned) same g.0) made,
                  rest,
                )
        ]

    outcome-Safe :
        (id_less : String → String → Bool) (discharge : Bool) (members : List (Member F))
        (target : F) (commands : List (AllocatedCommand F))
        → All (Safe discharge members) commands
        → All (Safe discharge members) (outcome p id_less target commands).commands
    unfolding outcome
    outcome-Safe id_less discharge members target commands h =
        let less = λ (a b : AllocatedCommand F). id_less a.cu_code b.cu_code in
        let sum = delivered p p.floats.zero commands in
        let gap = p.floats.sub target sum in
        let sorted = All-Permᴰ (Safe discharge members) (sort-Permᴰ less commands) h in
        elim (Bool-cases (p.floats.le sum p.eps)) [
          | inl nothing ↦ rw nothing tt
          | inr something ↦
              elim (Bool-cases (
                p.floats.lt p.floats.zero (if p.floats.lt gap p.eps then p.floats.zero else gap))) [
                  | inl short ↦ rw (something, short) sorted
                  | inr whole ↦ rw (something, whole) sorted
                ]
        ]

    inputs-caps :
        (cs : List (Candidate F))
        → map slot_cap (map (new_slot p) (inputs_of p cs)) ≡ map candidate_cap cs
    inputs-caps [] = refl
    inputs-caps (c ∷ cs) = ap (λ caps. c.cap ∷ caps) (inputs-caps cs)

    allocate_among-Safe :
        (id_less : String → String → Bool) (discharge : Bool) (target : F)
        (members : List (Member F)) (cs : List (Candidate F)) (r : Allocation F)
        → All (From discharge members) cs
        → allocate_among p id_less discharge target cs ≡ ok r
        → All (Safe discharge members) r.commands
    unfolding allocate_among
    allocate_among-Safe id_less discharge target members cs r f e =
        let (out, made, (fits, caps)) = distribute-Distributed p target (inputs_of p cs) in
        subst (λ (x : Allocation F). All (Safe discharge members) x.commands)
          (ok_inj (rw (made, allocate_among) at e))
          (outcome-Safe id_less discharge members target (commands_of p discharge cs out)
            (commands_of-Safe discharge members cs out f fits (caps ∙ inputs-caps cs)))

    -- Every command of an allocation is for a member of the scope with a storage spec and its enabled
    -- writable setpoint binding, whose revision and recorded safety it carries; its value was split within
    -- the direction's cap (up to `powerEPS`), and lies inside the constraint, in the direction of the target
    -- and no further from 0 than the split (up to `powerEPS`). No recorded constraint may be crossed, and no
    -- float may be less than itself.
    pub allocate-Safe :
        (id_less : String → String → Bool) (valid : Bool) (obj : PowerObjective F)
        (dc : DecisionContext F) (r : Allocation F)
        → All (ConsistentMember p) dc.members
        → allocate p id_less valid obj dc ≡ ok r
        → All (Safe (p.floats.lt p.floats.zero obj.target_power_kw) dc.members) r.commands
    unfolding allocate
    allocate-Safe id_less valid obj dc r consistent e =
        let discharge = p.floats.lt p.floats.zero obj.target_power_kw in
        let (_, e₁) =
          >>-ok
            (guard (is_ok (validate_objective p.floats obj)) AllocateError.invalid
              >> guard valid AllocateError.invalid
              >> guard
                  (str_eq obj.tenant_id dc.tenant_id
                    && str_eq obj.scope.0 dc.scope.0
                    && str_eq obj.scope.1 dc.scope.1)
                  AllocateError.scope_mismatch
              >> guard (str_eq obj.metric_id setpoint_metric) AllocateError.wrong_metric)
            _ e in
        let (cs, made, e₂) = >>=-ok (candidates p discharge dc.units dc.members) _ e₁ in
        allocate_among-Safe id_less discharge (p.floats.abs obj.target_power_kw) dc.members cs r
          (candidates-From discharge dc.units dc.members cs consistent made) e₂
