-- ===== src/Decision/Protocol.antt =====
-- What the outbox promises of one row: a lease that one worker at a time holds. The specification
-- knows neither tables nor transactions.
pub mod Refines
pub mod Once
use vpp_backend.Prelude.{ℕ, ◌+◌, ◌<◌, String, List, [], ◌∷◌, Option, none, some}
use vpp_backend.Decision.Tables.{OutboxStatus, OutboxRow}

pub data Phase : Type 0 where
  waiting closed : Phase
  leased : String → ℕ → Phase

-- How often the row has been taken, and where it is.
abbrev pub LeaseState : Type 0
LeaseState = ℕ × Phase

-- A row that is not closed is taken under the next token; the holder, while its lease runs, puts it
-- back or closes it. A closed row stays closed.
pub data LeaseStep : LeaseState → LeaseState → Type 0 where
  take_waiting :
      {k : ℕ} (worker : String) (until : ℕ)
      → LeaseStep (k, Phase.waiting) (k + 1, Phase.leased worker until)
  take_over :
      {k : ℕ} {holder : String} {u : ℕ} (worker : String) (until : ℕ)
      → LeaseStep (k, Phase.leased holder u) (k + 1, Phase.leased worker until)
  put_back :
      {k : ℕ} {holder : String} {u : ℕ} (now : ℕ)
      → now < u
      → LeaseStep (k, Phase.leased holder u) (k, Phase.waiting)
  close :
      {k : ℕ} {holder : String} {u : ℕ} (now : ℕ)
      → now < u
      → LeaseStep (k, Phase.leased holder u) (k, Phase.closed)

pub data LeaseSteps (s : LeaseState) : LeaseState → Type 0 where
  stay : LeaseSteps s s
  step : {t u : LeaseState} → LeaseSteps s t → LeaseStep t u → LeaseSteps s u

abbrev pub phase_of : OutboxStatus → String → Option ℕ → Phase
phase_of OutboxStatus.pending worker until = Phase.waiting
phase_of OutboxStatus.claimed worker none = Phase.leased worker 0
phase_of OutboxStatus.claimed worker (some until) = Phase.leased worker until
phase_of OutboxStatus.done worker until = Phase.closed
phase_of OutboxStatus.stale worker until = Phase.closed
phase_of OutboxStatus.failed worker until = Phase.closed

-- What the specification sees of a row.
abbrev pub lease_state : OutboxRow → LeaseState
lease_state r = (r.lease_token, phase_of r.status r.claimed_by r.lease_until)

-- Two lists, entry by entry.
abbrev pub Each {ℓ} : {A : Type ℓ} → (A → A → Type 0) → List A → List A → Type 0
Each R [] [] = Unit
Each R [] (y ∷ ys) = ⊥
Each R (x ∷ xs) [] = ⊥
Each R (x ∷ xs) (y ∷ ys) = R x y × Each R xs ys
