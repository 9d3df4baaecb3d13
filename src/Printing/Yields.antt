-- ===== src/Printing/Yields.antt =====
-- How a printer of librenec ends: with a summary, or with a return value other than 0. Which return
-- values there can be is a parameter, so that a printer that always succeeds is told apart.
use ledger_embedded_app.Common.{ℕ, ◌≢◌, refl, Outcome, done, bail, ◌>>=◌}
use ledger_embedded_app.Instruction.Safety.{IsFine, fine, refused}
use ledger_embedded_app.Instruction.Unions.{Gives}

-- An outcome that is no fault: a result with `Q`, or one of the return values `R`.
pub data Yields {A : Type 0} (R : ℕ → Type 0) (Q : A → Type 0) : Outcome A → Type 0 where
  yields : {a : A} → Q a → Yields R Q (done a)
  stops : {e : ℕ} → R e → Yields R Q (bail e)

-- No return value but 0, and every other one.
abbrev pub Never : ℕ → Type 0
Never e = ⊥

abbrev pub Refusal : ℕ → Type 0
Refusal e = e ≢ 0

pub Yields-bind :
    {A B : Type 0} {R : ℕ → Type 0} {P : A → Type 0} {Q : B → Type 0} {o : Outcome A}
    {f : A → Outcome B}
    → Yields R P o
    → ((a : A) → P a → Yields R Q (f a))
    → Yields R Q (o >>= f)
Yields-bind (yields {a} q) k = k a q
Yields-bind (stops r) k = stops r

pub Yields-map :
    {A : Type 0} {R : ℕ → Type 0} {P Q : A → Type 0} {o : Outcome A}
    → Yields R P o
    → ((a : A) → P a → Q a)
    → Yields R Q o
Yields-map (yields {a} q) k = yields (k a q)
Yields-map (stops r) k = stops r

pub Yields-IsFine : {A : Type 0} {Q : A → Type 0} {o : Outcome A} → Yields Refusal Q o → IsFine Q o
Yields-IsFine (yields q) = fine q
Yields-IsFine (stops r) = refused r

pub IsFine-Yields : {A : Type 0} {Q : A → Type 0} {o : Outcome A} → IsFine Q o → Yields Refusal Q o
IsFine-Yields (fine q) = yields q
IsFine-Yields (refused r) = stops r

-- What never stops succeeds.
pub Yields-Gives : {A : Type 0} {Q : A → Type 0} {o : Outcome A} → Yields Never Q o → Gives Q o
Yields-Gives (yields {a} q) = record { value = a; gives = refl; fits = q }
Yields-Gives (stops r) = absurd r
