-- ===== src/Tests/Vote.antt =====
-- The theorems about the vote program's instructions at a concrete withdrawal.
use ledger_embedded_app.Common.{ℕ, ◌≢◌, ◌⊎◌, bail, ◌≡◌, [], ◌∷◌, arith, true, done}
use ledger_embedded_app.Parser.{Instruction}
use ledger_embedded_app.Instruction.{instruction_validate}
use ledger_embedded_app.Instruction.Accounts.{instruction_validate_iff}
use ledger_embedded_app.Vote.{VoteInfo, parse_vote_instructions}
use ledger_embedded_app.Vote.Print.{print_vote_info}
use ledger_embedded_app.Printing.FeePayer.{IsShown}
use ledger_embedded_app.System.Transfer.{config_of}
use ledger_embedded_app.Vote.Shown.{vote_instruction-IsShown}
use ledger_embedded_app.Tests.System.{recipient, header, recipient_signs}

abbrev withdrawal : Instruction
withdrawal = record {
  program_id_index = 2;
  accounts = 0 ∷ 1 ∷ 0 ∷ [];
  accounts_length = 3;
  data_bytes = 3 ∷ 0 ∷ 0 ∷ 0 ∷ 42 ∷ 0 ∷ 0 ∷ 0 ∷ 0 ∷ 0 ∷ 0 ∷ 0 ∷ [];
  data_length = 12;
}

withdrawal-validates : instruction_validate withdrawal header ≡ done tt
withdrawal-validates = (instruction_validate_iff withdrawal header (omega arith)).1 (omega arith)

vote_instruction-IsShown_example :
    ((e : ℕ) × (e ≢ 0) × (parse_vote_instructions withdrawal header ≡ bail e))
    ⊎ ((info : VoteInfo) × (parse_vote_instructions withdrawal header ≡ done info)
        × IsShown
            (config_of header true recipient)
            recipient_signs
            (print_vote_info info (config_of header true recipient)))
vote_instruction-IsShown_example =
    vote_instruction-IsShown withdrawal (config_of header true recipient) recipient_signs
      (omega arith) (record { accounts_in = omega arith; data_in = omega arith })
      (record { pubkeys_in = omega arith; blockhash_in = omega arith }) withdrawal-validates
