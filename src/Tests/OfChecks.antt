-- ===== src/Tests/OfChecks.antt =====
-- The switch of the checks: a nested example, and a witness.
use aml_storage.Prelude.{◌≡◌, refl, true, false}
use aml_storage.Operations.Checks.{
  Program, done, raise, enable, with_enabled, with_disabled, run, run-is_scoped,
}

-- A block that sets the switch for good inside and then raises.
abbrev nested : Program
nested = with_disabled (with_enabled (enable done) (enable raise)) done

nested_raises : run nested true ≡ (false, true)
unfolding run
nested_raises = refl

run-is_scoped_example : (run nested false).1 ≡ false
run-is_scoped_example = run-is_scoped nested false refl
