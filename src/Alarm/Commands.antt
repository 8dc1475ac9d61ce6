-- ===== src/Alarm/Commands.antt =====
-- internal/alarm/application/command: acknowledge.go and close.go. `seen` are the tables when the current
-- version is read, `later` those of the read after an update that met no row.
use vpp_backend.Prelude.{
  ℤ, pos, eqb_ℤ, ◌≡◌, ap, String, is_blank, false, not, if◌then◌else◌, Result, ok, err, guard,
  guard-ok, ◌>>◌, ◌>>=◌, >>-ok, >>=-ok, ok_inj, err_ne_ok, arith,
}
use vpp_backend.Alarm.{Time, Alarm}
use vpp_backend.Alarm.Store.{AlarmTables, StoreError, find_by_id, acknowledge_alarm, close_alarm}
use vpp_backend.Alarm.Store.Invariant.{
  StoreInv, mutate-dedup, acknowledge_alarm-StoreInv, close_alarm-StoreInv,
}

-- A request to acknowledge or to close; version 0 means the current one.
pub record AlarmCommand : Type 0 where
  pub tenant_id : String
  pub alarm_id : String
  pub version : ℤ
  pub actor : String

pub data CommandError : Type 0 where
  tenant_required id_required actor_required : CommandError
  store : StoreError → CommandError

abbrev pub stored {ℓ} : {A : Type ℓ} → Result StoreError A → Result CommandError A
stored (ok a) = ok a
stored (err e) = err (CommandError.store e)

abbrev pub check_command : AlarmCommand → Result CommandError (Unit {0})
check_command cmd =
    guard (not (is_blank cmd.tenant_id)) CommandError.tenant_required
    >> guard (not (is_blank cmd.alarm_id)) CommandError.id_required
    >> guard (not (is_blank cmd.actor)) CommandError.actor_required

stored-ok {ℓ} : {A : Type ℓ} (r : Result StoreError A) {a : A} → stored r ≡ ok a → r ≡ ok a
stored-ok (ok b) e = ap ok (ok_inj e)
stored-ok (err x) e = absurd (err_ne_ok e)

check_command-named : (cmd : AlarmCommand) → check_command cmd ≡ ok tt → is_blank cmd.actor ≡ false
check_command-named cmd e =
    let named =
      (>>-ok
        (guard (not (is_blank cmd.tenant_id)) CommandError.tenant_required
          >> guard (not (is_blank cmd.alarm_id)) CommandError.id_required)
        _ e).1 in
    let holds = guard-ok (not (is_blank cmd.actor)) CommandError.actor_required named in
    ground (arith, holds)

module _ {P : Type 0} where
  unfoldable current_version : AlarmCommand → AlarmTables P → Result CommandError ℤ
  unfolding find_by_id
  current_version cmd seen =
      if eqb_ℤ cmd.version (pos 0)
      then (stored (find_by_id cmd.tenant_id cmd.alarm_id seen) >>= λ (a : Alarm P). ok a.version)
      else ok cmd.version

  unfoldable pub handle_acknowledge :
      AlarmCommand
      → Time
      → AlarmTables P
      → AlarmTables P
      → AlarmTables P
      → Result CommandError (Alarm P × AlarmTables P)
  unfolding current_version acknowledge_alarm
  handle_acknowledge cmd at seen later t =
      check_command cmd
      >> (current_version cmd seen >>= λ version.
          stored (acknowledge_alarm cmd.tenant_id cmd.alarm_id version cmd.actor at later t))

  unfoldable pub handle_close :
      AlarmCommand
      → Time
      → AlarmTables P
      → AlarmTables P
      → AlarmTables P
      → Result CommandError (Alarm P × AlarmTables P)
  unfolding current_version close_alarm
  handle_close cmd at seen later t =
      check_command cmd
      >> (current_version cmd seen >>= λ version.
          stored (close_alarm cmd.tenant_id cmd.alarm_id version cmd.actor at later t))

  pub handle_acknowledge-StoreInv :
      (cmd : AlarmCommand) (at : Time) (seen later t : AlarmTables P) {r : Alarm P × AlarmTables P}
      → StoreInv t
      → handle_acknowledge cmd at seen later t ≡ ok r
      → StoreInv r.1
  unfolding handle_acknowledge
  handle_acknowledge-StoreInv cmd at seen later t inv e =
      let (checked, e₁) = >>-ok (check_command cmd) _ e in
      let (version, _, e₂) = >>=-ok (current_version cmd seen) _ e₁ in
      acknowledge_alarm-StoreInv cmd.tenant_id cmd.alarm_id version cmd.actor at later t
        (check_command-named cmd checked) inv (stored-ok _ e₂)

  pub handle_close-StoreInv :
      (cmd : AlarmCommand) (at : Time) (seen later t : AlarmTables P) {r : Alarm P × AlarmTables P}
      → StoreInv t
      → handle_close cmd at seen later t ≡ ok r
      → StoreInv r.1
  unfolding handle_close
  handle_close-StoreInv cmd at seen later t inv e =
      let (checked, e₁) = >>-ok (check_command cmd) _ e in
      let (version, _, e₂) = >>=-ok (current_version cmd seen) _ e₁ in
      close_alarm-StoreInv cmd.tenant_id cmd.alarm_id version cmd.actor at later t
        (check_command-named cmd checked) inv (stored-ok _ e₂)

  pub handle_acknowledge-dedup :
      (cmd : AlarmCommand) (at : Time) (seen later t : AlarmTables P) {r : Alarm P × AlarmTables P}
      → handle_acknowledge cmd at seen later t ≡ ok r
      → r.1.dedup ≡ t.dedup
  unfolding handle_acknowledge acknowledge_alarm
  handle_acknowledge-dedup cmd at seen later t e =
      let e₁ = (>>-ok (check_command cmd) _ e).1 in
      let (version, _, e₂) = >>=-ok (current_version cmd seen) _ e₁ in
      mutate-dedup _ _ _ cmd.tenant_id cmd.alarm_id later t (stored-ok _ e₂)

  pub handle_close-dedup :
      (cmd : AlarmCommand) (at : Time) (seen later t : AlarmTables P) {r : Alarm P × AlarmTables P}
      → handle_close cmd at seen later t ≡ ok r
      → r.1.dedup ≡ t.dedup
  unfolding handle_close close_alarm
  handle_close-dedup cmd at seen later t e =
      let e₁ = (>>-ok (check_command cmd) _ e).1 in
      let (version, _, e₂) = >>=-ok (current_version cmd seen) _ e₁ in
      mutate-dedup _ _ _ cmd.tenant_id cmd.alarm_id later t (stored-ok _ e₂)
