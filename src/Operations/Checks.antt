-- ===== src/Operations/Checks.antt =====
-- _checks.py: the global switch for the checks of the operations, and the objects that set it, as
-- a statement or for the length of a `with` block.
use aml_storage.Prelude.{◌≡◌, arith, refl, Bool, true, false}

-- `_SetChecks`
pub record SetChecks : Type 0 where
  pub original_check_state : Bool
  pub state : Bool

-- `_SetChecks(state)`: the object, and the switch after the call.
unfoldable pub set_checks : (state checks_enabled : Bool) → SetChecks × Bool
set_checks state checks_enabled =
    (record { original_check_state = checks_enabled; state = state }, state)

-- `unsafe_enable_checks()` and `unsafe_disable_checks()`
unfoldable pub unsafe_enable_checks : Bool → SetChecks × Bool
unfolding set_checks
unsafe_enable_checks checks_enabled = set_checks true checks_enabled

unfoldable pub unsafe_disable_checks : Bool → SetChecks × Bool
unfolding set_checks
unsafe_disable_checks checks_enabled = set_checks false checks_enabled

-- The switch after `__enter__`, and after `__exit__`.
unfoldable pub enter : SetChecks → Bool → Bool
enter manager checks_enabled = manager.state

unfoldable pub exit : SetChecks → Bool → Bool
exit manager checks_enabled = manager.original_check_state

-- Client code, as far as it uses the switch: a statement, then what follows it.
pub data Program : Type 0 where
  done : Program
  raise : Program
  enable disable : (rest : Program) → Program
  with_enabled with_disabled : (body rest : Program) → Program

-- What follows a block runs only where the block did not raise.
unfoldable pub after_block : Bool → (Bool → Bool × Bool) → Bool → Bool × Bool
after_block true rest switch = rest switch
after_block false rest switch = (false, switch)

-- `with manager: body`, then the rest, where the body did not raise: whether the code ended without
-- an exception, and the switch after it. `__exit__` runs whether or not the body raises.
unfoldable pub with_block :
    SetChecks × Bool → (Bool → Bool × Bool) → (Bool → Bool × Bool) → Bool × Bool
unfolding enter exit after_block
with_block (manager, switch) body rest =
    let (ended, after) = body (enter manager switch) in after_block ended rest (exit manager after)

unfoldable pub run : Program → Bool → Bool × Bool
unfolding unsafe_enable_checks unsafe_disable_checks with_block
run done switch = (true, switch)
run raise switch = (false, switch)
run (enable rest) switch = run rest (unsafe_enable_checks switch).1
run (disable rest) switch = run rest (unsafe_disable_checks switch).1
run (with_enabled body rest) switch = with_block (unsafe_enable_checks switch) (run body) (run rest)
run (with_disabled body rest) switch =
    with_block (unsafe_disable_checks switch) (run body) (run rest)

-- Code that sets the switch for good only inside `with` blocks.
abbrev pub is_scoped : Program → Bool
is_scoped done = true
is_scoped raise = true
is_scoped (enable rest) = false
is_scoped (disable rest) = false
is_scoped (with_enabled body rest) = is_scoped rest
is_scoped (with_disabled body rest) = is_scoped rest

after_block_restores :
    (ended : Bool) (rest : Bool → Bool × Bool) (switch : Bool)
    → (rest switch).1 ≡ switch
    → (after_block ended rest switch).1 ≡ switch
unfolding after_block
after_block_restores true rest switch h = h
after_block_restores false rest switch h = refl

-- Where every statement of the code is a `with` block, whatever the blocks do, the switch is in the
-- end what it was at the start, also where the code raises.
pub run-is_scoped :
    (program : Program) (switch : Bool) → is_scoped program ≡ true → (run program switch).1 ≡ switch
unfolding run
run-is_scoped done switch h = refl
run-is_scoped raise switch h = refl
run-is_scoped (enable rest) switch h = absurd (ground arith)
run-is_scoped (disable rest) switch h = absurd (ground arith)
run-is_scoped (with_enabled body rest) switch h =
    after_block_restores (run body true).0 (run rest) switch (run-is_scoped rest switch h)
run-is_scoped (with_disabled body rest) switch h =
    after_block_restores (run body false).0 (run rest) switch (run-is_scoped rest switch h)
