-- ===== src/Instruction/Unions.antt =====
-- A read that finds what it looks for.
use ledger_embedded_app.Common.{◌≡◌, Outcome, done}

-- The outcome is a value, of which `P` holds.
pub record Gives {A : Type 0} (P : A → Type 0) (o : Outcome A) : Type 0 where
  pub value : A
  pub gives : o ≡ done value
  pub fits : P value
