-- ===== src/Decision/Cooldown.antt =====
-- internal/decision/adapter/outbound/postgres/cooldown_store.go: the window of one policy direction.
-- The row of the key is an argument: what a try reads, and what is there when it writes, since another
-- transaction can come between. A failing database is not modelled; a time is a number from Go's zero
-- time. The column `updated_at` is left out, and the version, which counts the writes, does not
-- overflow.
pub mod Windows
pub mod Tries
mod Tests
use vpp_backend.Prelude.{
  ℕ, zero, suc, ◌+◌, String, str_eq, is_blank, is_empty_text, Bool, not, ◌&&◌, ◌||◌, Option, none,
  some, ltb, ◌==◌, if◌then◌else◌, Result, ok, err, ◌>>◌, guard,
}

pub record CooldownKey : Type 0 where
  pub tenant_id : String
  pub policy_id : String
  pub direction : String

pub record CooldownRow : Type 0 where
  pub cooldown_until : ℕ
  pub last_objective_id : Option String
  pub last_plan_id : Option String
  pub version : ℕ

pub data CooldownError : Type 0 where
  tenant_required policy_required unknown_direction until_not_after_now until_required contended :
      CooldownError

unfoldable pub validate_key : CooldownKey → Result CooldownError (Unit {0})
validate_key k =
    guard (not (is_blank k.tenant_id)) CooldownError.tenant_required
    >> guard (not (is_blank k.policy_id)) CooldownError.policy_required
    >> guard (str_eq k.direction "charge" || str_eq k.direction "discharge")
        CooldownError.unknown_direction

abbrev pub nullable_id : String → Option String
nullable_id id = if is_empty_text id then none else some id

-- The row that a try reads, and the row when it writes.
abbrev pub CooldownView : Type 0
CooldownView = Option CooldownRow × Option CooldownRow

-- A try writes the row, finds the window open, or has to try again.
pub data Try : Type 0 where
  wrote : CooldownRow → Try
  held again : Try

unfoldable pub cooldown_try : ℕ → ℕ → String → String → Bool → CooldownView → Try
cooldown_try now until objective_id plan_id only_if_expired (none, none) = Try.wrote (record {
  cooldown_until = until;
  last_objective_id = nullable_id objective_id;
  last_plan_id = nullable_id plan_id;
  version = 1;
})
cooldown_try now until objective_id plan_id only_if_expired (none, some there) = Try.again
cooldown_try now until objective_id plan_id only_if_expired (some row, none) =
    if only_if_expired && ltb now row.cooldown_until then Try.held else Try.again
cooldown_try now until objective_id plan_id only_if_expired (some row, some there) =
    if only_if_expired && ltb now row.cooldown_until
    then Try.held
    else if there.version == row.version
    then Try.wrote (record {
      cooldown_until = until;
      last_objective_id = nullable_id objective_id;
      last_plan_id = nullable_id plan_id;
      version = row.version + 1;
    })
    else Try.again

-- `n` tries from the `i`th on; none is the answer false, some the row that is written.
unfoldable pub cooldown_tries :
    ℕ
    → ℕ
    → String
    → String
    → Bool
    → (ℕ → CooldownView)
    → ℕ
    → ℕ
    → Result CooldownError (Option CooldownRow)
unfolding cooldown_try
cooldown_tries now until objective_id plan_id only_if_expired views zero i =
    err CooldownError.contended
cooldown_tries now until objective_id plan_id only_if_expired views (suc n) i =
    let rest = cooldown_tries now until objective_id plan_id only_if_expired views n (suc i) in
    elim (cooldown_try now until objective_id plan_id only_if_expired (views i)) [
      | Try.wrote row ↦ ok (some row)
      | Try.held ↦ ok none
      | Try.again ↦ rest
    ]

unfoldable pub write_cooldown :
    CooldownKey
    → ℕ
    → ℕ
    → String
    → String
    → Bool
    → (ℕ → CooldownView)
    → Result CooldownError (Option CooldownRow)
unfolding validate_key cooldown_tries
write_cooldown key now until objective_id plan_id only_if_expired views =
    validate_key key
    >> guard (not (not (ltb now until) && only_if_expired)) CooldownError.until_not_after_now
    >> guard (not (until == 0)) CooldownError.until_required
    >> cooldown_tries now until objective_id plan_id only_if_expired views 3 0
