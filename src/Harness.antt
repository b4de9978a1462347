-- ===== src/Harness.antt =====
-- The proof harnesses of the repository, as functions of the values that they leave open.
pub mod ErrorCodes
pub mod BuildInfo
use adaptive_pi.Prelude.{Bool, Run, done, terminates, if◌then◌else◌}

-- `assert`, which aborts where the condition is false.
abbrev pub assert : Bool → Run ⊥ (Unit {0})
assert condition = if condition then done tt else terminates
