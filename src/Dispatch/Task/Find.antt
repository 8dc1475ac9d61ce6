-- ===== src/Dispatch/Task/Find.antt =====
-- `FindCommand` returns a command of the task with its places.
use vpp_backend.Prelude.{
  ℕ, suc, ◌+◌, ◌≡◌, ◌≢◌, refl, sym, ◌∙◌, subst, All, true, false, none, Option, String, str_eq,
  str_eq_iff, inl, inr, List, [], ◌∷◌, some, some_inj, get_elem?, arith, Bool-cases, Option-cases,
}
use vpp_backend.Dispatch.Model.{DispatchAction, DispatchTask, ControlCommand}
use vpp_backend.Dispatch.Task.{Found, find_in_commands, find_in_actions, find_command}

abbrev InCommands : String → ℕ → List ControlCommand → ℕ × ControlCommand → Type 0
InCommands id j cs r = (d : ℕ) × (r.0 ≡ j + d) × (get_elem? cs d ≡ some r.1) × (r.1.id ≡ id)

find_in_commands-some :
    (id : String) (j : ℕ) (cs : List ControlCommand) (r : ℕ × ControlCommand)
    → find_in_commands id j cs ≡ some r
    → InCommands id j cs r
unfolding find_in_commands
find_in_commands-some id j [] r e = cc
find_in_commands-some id j (c ∷ cs) r e = elim (Bool-cases (str_eq c.id id)) [
  | inl hit ↦
      subst (InCommands id j (c ∷ cs)) (some_inj.0 (rw hit at e))
        (0, omega arith, refl, (str_eq_iff c.id id).0 hit)
  | inr miss ↦
      let (d, place, got, same) = find_in_commands-some id (suc j) cs r (rw miss at e) in
      (suc d, omega arith, got, same)
]

abbrev InActions : String → ℕ → List DispatchAction → Found → Type 0
InActions id i as' f =
    (d : ℕ) × (f.action_place ≡ i + d)
    × (get_elem? as' d ≡ some f.action)
    × (get_elem? f.action.commands f.command_place ≡ some f.command)
    × (f.command.id ≡ id)

find_in_actions-some :
    (id : String) (i : ℕ) (as' : List DispatchAction) (f : Found)
    → find_in_actions id i as' ≡ some f
    → InActions id i as' f
unfolding find_in_actions
find_in_actions-some id i [] f e = cc
find_in_actions-some id i (a ∷ as') f e = elim (Option-cases (find_in_commands id 0 a.commands)) [
  | inr ((j, c), hit) ↦
      let (d, place, got, same) = find_in_commands-some id 0 a.commands (j, c) hit in
      let d_place : j ≡ d = omega arith in
      subst (InActions id i (a ∷ as')) (some_inj.0 (rw (hit, find_in_actions) at e))
        (0, omega arith, refl, rw d_place got, same)
  | inl miss ↦
      let (d, place, got, inner, same) =
        find_in_actions-some id (suc i) as' f (rw (miss, find_in_actions) at e) in
      (suc d, omega arith, got, inner, same)
]

pub find_command-some :
    (id : String) (t : DispatchTask) {f : Found}
    → find_command id t ≡ some f
    → (get_elem? t.actions f.action_place ≡ some f.action)
      × (get_elem? f.action.commands f.command_place ≡ some f.command)
      × (f.command.id ≡ id)
unfolding find_command
find_command-some id t {f} e =
    let (d, place, got, inner, same) = find_in_actions-some id 0 t.actions f e in
    let d_place : f.action_place ≡ d = omega arith in (rw d_place got, inner, same)

some_ne_none {ℓ} : {A : Type ℓ} {a : A} → some a ≡ none → ⊥
some_ne_none e = cc

true_ne_false : true ≡ false → ⊥
true_ne_false e = cc

find_in_commands-none :
    (id : String) (j : ℕ) (cs : List ControlCommand)
    → find_in_commands id j cs ≡ none
    → All (λ c. c.id ≢ id) cs
unfolding find_in_commands
find_in_commands-none id j [] e = tt
find_in_commands-none id j (c ∷ cs) e = elim (Bool-cases (str_eq c.id id)) [
  | inl same ↦ absurd (some_ne_none (rw (same, find_in_commands) at e))
  | inr apart ↦ (
    λ eq. absurd (true_ne_false (sym ((str_eq_iff c.id id).1 eq) ∙ apart)),
    find_in_commands-none id (suc j) cs (rw (apart, find_in_commands) at e),
  )
]

find_in_actions-none :
    (id : String) (i : ℕ) (as' : List DispatchAction)
    → find_in_actions id i as' ≡ none
    → All (λ a. All (λ c. c.id ≢ id) a.commands) as'
unfolding find_in_actions
find_in_actions-none id i [] e = tt
find_in_actions-none id i (a ∷ as') e = elim (Option-cases (find_in_commands id 0 a.commands)) [
  | inr (hit, found) ↦ absurd (some_ne_none (rw (found, find_in_actions) at e))
  | inl miss ↦ (
    find_in_commands-none id 0 a.commands miss,
    find_in_actions-none id (suc i) as' (rw (miss, find_in_actions) at e),
  )
]

find_command-none :
    (id : String) (t : DispatchTask)
    → find_command id t ≡ none
    → All (λ a. All (λ c. c.id ≢ id) a.commands) t.actions
unfolding find_command
find_command-none id t e = find_in_actions-none id 0 t.actions e

-- A command with the id among the actions, at the places named, or that there is none.
abbrev Finds : String → List DispatchAction → Option Found → Type 0
Finds id actions none = All (λ a. All (λ c. c.id ≢ id) a.commands) actions
Finds id actions (some f) =
    (get_elem? actions f.action_place ≡ some f.action)
    × (get_elem? f.action.commands f.command_place ≡ some f.command)
    × (f.command.id ≡ id)

-- What `FindCommand` returns is a command of the task, at the places that it names, with the id that was
-- asked for; it returns nothing only where no command of the task has the id.
find_command-Finds : (id : String) (t : DispatchTask) → Finds id t.actions (find_command id t)
find_command-Finds id t = elim (Option-cases (find_command id t)) [
  | inl e ↦ subst (Finds id t.actions) (sym e) (find_command-none id t e)
  | inr (f, e) ↦ subst (Finds id t.actions) (sym e) (find_command-some id t e)
]
