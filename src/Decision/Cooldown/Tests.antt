-- ===== src/Decision/Cooldown/Tests.antt =====
-- Two transactions compete with the same old row; a later one takes the next window.
use vpp_backend.Prelude.{ℕ, zero, suc, ◌<◌, ◌≡◌, refl, none, some, Bool, true, [], ◌∷◌, inl, ok}
use vpp_backend.Decision.Cooldown.{
  CooldownKey, CooldownRow, CooldownView, Try, validate_key, cooldown_try, write_cooldown,
}
use vpp_backend.Decision.Cooldown.Windows.{History, Apart, History-Apart}
use vpp_backend.Decision.Cooldown.Tries.{WroteBy, write_cooldown-WroteBy}

abbrev key : CooldownKey
key = record { tenant_id = "tenant"; policy_id = "policy"; direction = "charge" }

abbrev first_row : CooldownRow
first_row = record {
  cooldown_until = 20;
  last_objective_id = none;
  last_plan_id = some "plan";
  version = 1;
}

abbrev second_row : CooldownRow
second_row = record {
  cooldown_until = 40;
  last_objective_id = none;
  last_plan_id = some "next";
  version = 2;
}

first_try : cooldown_try 10 20 "" "plan" true (none, none) ≡ Try.wrote first_row
unfolding cooldown_try
first_try = refl

second_try :
    cooldown_try 25 40 "" "next" true (some first_row, some first_row) ≡ Try.wrote second_row
unfolding cooldown_try
second_try = refl

History-Apart_example : Apart ((25, 40) ∷ (10, 20) ∷ [])
History-Apart_example =
    History-Apart (some second_row) (some first_row ∷ none ∷ []) ((25, 40) ∷ (10, 20) ∷ []) (
      History.taken 25 40 "" "next" (some first_row) second_row
        (History.taken 10 20 "" "plan" none first_row History.untouched (inl refl) first_try)
        (inl refl) second_try)

-- The first try reads no row, and finds one when it writes.
abbrev beaten : ℕ → CooldownView
beaten zero = (none, some first_row)
beaten (suc i) = (some first_row, some first_row)

second_written : write_cooldown key 25 40 "" "next" true beaten ≡ ok (some second_row)
unfolding write_cooldown vpp_backend.Prelude.is_blank
second_written = refl

write_cooldown-WroteBy_example :
    (validate_key key ≡ ok tt)
    × (0 < 40)
    × (◌≡◌ {A = Bool} true true → 25 < 40)
    × WroteBy 25 40 "" "next" true beaten 3 second_row
write_cooldown-WroteBy_example =
    write_cooldown-WroteBy 25 40 "" "next" true beaten key second_row second_written
