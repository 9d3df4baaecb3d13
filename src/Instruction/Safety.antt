-- ===== src/Instruction/Safety.antt =====
-- Memory safety of what the parsers of the programs share: the iterator over an instruction's
-- accounts, and the fields of its data.
use ledger_embedded_app.Common.{
  ℕ, zero, suc, ◌*◌, ◌≤◌, ◌<◌, ◌≡◌, ◌≢◌, refl, List, [], ◌∷◌, length, Outcome, done, bail, ◌>>=◌,
  arith, All, take, length-drop, get_elem?, some, none, Option, Option-cases, inl, inr, Bool-cases,
  ltb, ltb→lt,
}
use ledger_embedded_app.Parser.{
  Pointer, Parser, SizedString, Instruction, MessageHeader, parse_u64, parse_pubkey,
  parse_sized_string, parse_u8, parse_u32, parse_i64, parse_option,
}
use ledger_embedded_app.Parser.Safety.{
  IsWithin, Ends, ends, bails, Advances-IsWithin, parse_u64_safe, parse_u8_safe, parse_u32_safe,
  parse_i64_safe, parse_option_safe, parse_bytes_safe,
}
use ledger_embedded_app.Parser.Safety.Messages.{
  InstructionFits, HeaderFits, parse_sized_string_safe,
}
use ledger_embedded_app.Instruction.{
  pubkey_at, instruction_validate, InstructionAccountsIterator, instruction_accounts_iterator_init,
  instruction_accounts_iterator_next, enumerator, optional_account,
}
use ledger_embedded_app.Instruction.Accounts.{instruction_validate_iff}

-- An outcome that is no fault, with `Q` of its result.
pub data IsFine {A : Type 0} (Q : A → Type 0) : Outcome A → Type 0 where
  fine : {a : A} → Q a → IsFine Q (done a)
  refused : {e : ℕ} → e ≢ 0 → IsFine Q (bail e)

pub IsFine-bind :
    {A B : Type 0} {Q : A → Type 0} {R : B → Type 0} {o : Outcome A} {f : A → Outcome B}
    → IsFine Q o
    → ((a : A) → Q a → IsFine R (f a))
    → IsFine R (o >>= f)
IsFine-bind (fine {a} q) k = k a q
IsFine-bind (refused n) k = refused n

pub IsFine-map :
    {A : Type 0} {Q R : A → Type 0} {o : Outcome A}
    → IsFine Q o
    → ((a : A) → Q a → R a)
    → IsFine R o
IsFine-map (fine {a} q) k = fine (k a q)
IsFine-map (refused n) k = refused n

pub Ends-IsFine :
    {A : Type 0} {Q : A → Type 0} {p : Parser} {o : Outcome (A × Parser)}
    → IsWithin p
    → Ends Q p o
    → IsFine (λ r. Q (r.0) × IsWithin (r.1)) o
Ends-IsFine w (ends s q) = fine (q, Advances-IsWithin s w)
Ends-IsFine w (bails n) = refused n

-- A pointer to a whole key.
abbrev pub IsKey : Pointer → Type 0
IsKey ptr = 32 ≤ length ptr

-- The account indices that an iterator may give are there, and name keys that are there.
pub record IteratorFits (it : InstructionAccountsIterator) : Type 0 where
  pub indices_in : it.instruction_accounts_length ≤ length it.instruction_accounts
  pub keys_in :
      (i index : ℕ)
      → i < it.instruction_accounts_length
      → get_elem? it.instruction_accounts i ≡ some index
      → IsKey (pubkey_at it.message_header_pubkeys index)

pub get_elem?-in : (xs : List ℕ) (i : ℕ) → i < length xs → (x : ℕ) × (get_elem? xs i ≡ some x)
get_elem?-in [] i h = absurd (omega arith)
get_elem?-in (x ∷ xs) zero h = (x, refl)
get_elem?-in (x ∷ xs) (suc i) h = get_elem?-in xs i (omega arith)

pub next-IsFine :
    (it : InstructionAccountsIterator)
    → IteratorFits it
    → IsFine (λ r. IsKey (r.0) × IteratorFits (r.1)) (instruction_accounts_iterator_next it)
unfolding instruction_accounts_iterator_next
next-IsFine it fits =
    elim (Bool-cases (ltb it.current_instruction_account it.instruction_accounts_length)) [
      | inr past ↦ rw past (refused (λ e. cc))
      | inl before ↦
          let l = ltb→lt it.current_instruction_account it.instruction_accounts_length before in
          let (index, e) =
            get_elem?-in it.instruction_accounts it.current_instruction_account
              (omega (arith, fits.indices_in)) in
          rw (before, e)
            (fine (
              fits.keys_in it.current_instruction_account index l e,
              record { indices_in = fits.indices_in; keys_in = fits.keys_in },
            ))
    ]

All-below :
    (m n : ℕ) (xs : List ℕ) (i x : ℕ)
    → All (λ a. a < m) (take n xs)
    → i < n
    → get_elem? xs i ≡ some x
    → x < m
All-below m zero xs i x a l e = absurd (omega arith)
All-below m (suc n) [] i x a l e = cc
All-below m (suc n) (y ∷ xs) zero x a l e = ground arith
All-below m (suc n) (y ∷ xs) (suc i) x a l e = All-below m n xs i x (a.1) (omega arith) e

pub init-IteratorFits :
    (ix : Instruction) (h : MessageHeader)
    → InstructionFits ix
    → HeaderFits h
    → instruction_validate ix h ≡ done tt
    → IteratorFits (instruction_accounts_iterator_init h ix)
unfolding instruction_accounts_iterator_init
init-IteratorFits ix h fi fh v = record {
  indices_in = omega (arith, fi.accounts_in);
  keys_in = λ i index l e.
      let a =
        All-below h.pubkeys_header.pubkeys_length ix.accounts_length ix.accounts i index
          (((instruction_validate_iff ix h fi.accounts_in).0 v).1) (omega arith) e in
      omega (arith, fh.pubkeys_in, length-drop (index * 32) h.pubkeys);
}

-- A string whose bytes are there.
abbrev pub IsString : SizedString → Type 0
IsString s = s.len ≤ length s.string

pub parse_pubkey-IsFine :
    (p : Parser) → IsWithin p → IsFine (λ r. IsKey (r.0) × IsWithin (r.1)) (parse_pubkey p)
unfolding parse_pubkey
parse_pubkey-IsFine p w = Ends-IsFine w (parse_bytes_safe 32 p w)

pub parse_u64-IsFine :
    (p : Parser) → IsWithin p → IsFine (λ r. Unit {0} × IsWithin (r.1)) (parse_u64 p)
parse_u64-IsFine p w = Ends-IsFine w (parse_u64_safe p w)

pub parse_i64-IsFine :
    (p : Parser) → IsWithin p → IsFine (λ r. Unit {0} × IsWithin (r.1)) (parse_i64 p)
parse_i64-IsFine p w = Ends-IsFine w (parse_i64_safe p w)

pub parse_sized_string-IsFine :
    (p : Parser) → IsWithin p → IsFine (λ r. IsString (r.0) × IsWithin (r.1)) (parse_sized_string p)
parse_sized_string-IsFine p w = Ends-IsFine w (parse_sized_string_safe p w)

pub parse_u8-IsFine :
    (p : Parser) → IsWithin p → IsFine (λ r. Unit {0} × IsWithin (r.1)) (parse_u8 p)
parse_u8-IsFine p w = Ends-IsFine w (parse_u8_safe p w)

pub parse_u32-IsFine :
    (p : Parser) → IsWithin p → IsFine (λ r. Unit {0} × IsWithin (r.1)) (parse_u32 p)
parse_u32-IsFine p w = Ends-IsFine w (parse_u32_safe p w)

pub parse_option-IsFine :
    (p : Parser) → IsWithin p → IsFine (λ r. Unit {0} × IsWithin (r.1)) (parse_option p)
parse_option-IsFine p w = Ends-IsFine w (parse_option_safe p w)

pub enumerator-IsFine :
    {A : Type 0} (values : List A) (n : ℕ) → IsFine (λ a. Unit {0}) (enumerator values n)
unfolding enumerator
enumerator-IsFine values n = elim (Option-cases (get_elem? values n)) [
  | inl e ↦ rw (e, enumerator) (refused (λ e. cc))
  | inr (a, e) ↦ rw (e, enumerator) (fine tt)
]

-- A pointer that is null or points to a whole key.
abbrev pub IsKeyOrNull : Option Pointer → Type 0
IsKeyOrNull none = Unit {0}
IsKeyOrNull (some ptr) = IsKey ptr

optional_of :
    {o : Outcome (Pointer × InstructionAccountsIterator)} (it : InstructionAccountsIterator)
    → o ≡ instruction_accounts_iterator_next it
    → IteratorFits it
    → IsFine (λ r. IsKey (r.0) × IteratorFits (r.1)) o
    → IsFine (λ r. IsKeyOrNull (r.0) × IteratorFits (r.1)) (optional_account it)
unfolding optional_account
optional_of it e f (fine k) = rw (← e, optional_account) (fine k)
optional_of it e f (refused n) = rw (← e, optional_account) (fine (tt, f))

pub optional_account-IsFine :
    (it : InstructionAccountsIterator)
    → IteratorFits it
    → IsFine (λ r. IsKeyOrNull (r.0) × IteratorFits (r.1)) (optional_account it)
optional_account-IsFine it f = optional_of it refl f (next-IsFine it f)
