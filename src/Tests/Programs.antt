-- ===== src/Tests/Programs.antt =====
-- The theorems about librenec/instruction.c at concrete instructions.
use ledger_embedded_app.Common.{
  ℕ, ◌≤◌, ◌<◌, ◌≡◌, ◌↔◌, List, [], ◌∷◌, ◌++◌, All, length, replicate, arith, false, done, bail,
  some,
}
use ledger_embedded_app.Parser.{Instruction, MessageHeader}
use ledger_embedded_app.Parser.Safety.Messages.{HeaderFits, InstructionFits}
use ledger_embedded_app.Instruction.{
  system, pubkey_at, instruction_program_id, instruction_validate,
  instruction_accounts_iterator_init, instruction_accounts_iterator_next,
  instruction_accounts_iterator_remaining,
}
use ledger_embedded_app.Instruction.Programs.{id_of, instruction_program_id_iff}
use ledger_embedded_app.Instruction.Accounts.{
  instruction_validate_iff, iterator_gives_accounts, next_n, at_position,
}
use mathlib.Core.List.{map}

abbrev keys : List ℕ
keys = replicate 32 11 ++ (replicate 32 12 ++ (replicate 32 0 ++ (replicate 32 9 ++ (1 ∷ []))))

abbrev header : MessageHeader
header = record {
  versioned = false;
  version = 0;
  pubkeys_header = record {
    num_required_signatures = 1;
    num_readonly_signed_accounts = 0;
    num_readonly_unsigned_accounts = 1;
    pubkeys_length = 3;
  };
  pubkeys = keys;
  blockhash = replicate 32 9 ++ (1 ∷ []);
  instructions_length = 1;
}

abbrev transfer : Instruction
transfer = record {
  program_id_index = 2;
  accounts = 0 ∷ 1 ∷ 4 ∷ 2 ∷ 0 ∷ 0 ∷ 0 ∷ [];
  accounts_length = 2;
  data_bytes = 2 ∷ 0 ∷ 0 ∷ 0 ∷ [];
  data_length = 4;
}

transfer-validates : instruction_validate transfer header ≡ done tt
transfer-validates = (instruction_validate_iff transfer header (omega arith)).1 (omega arith)

instruction_validate_iff_example :
    (instruction_validate transfer header ≡ done tt) ↔ ((2 < 3) × All (λ a. a < 3) (0 ∷ 1 ∷ []))
instruction_validate_iff_example = instruction_validate_iff transfer header (omega arith)

instruction_program_id_iff_example :
    (instruction_program_id transfer header ≡ done system) ↔ (id_of system ≡ some (replicate 32 0))
instruction_program_id_iff_example =
    instruction_program_id_iff transfer header (omega arith) system (λ e. cc)

transfer-InstructionFits : InstructionFits transfer
transfer-InstructionFits = omega arith

header-HeaderFits : HeaderFits header
header-HeaderFits = omega arith

iterator_gives_accounts_example :
    let it = instruction_accounts_iterator_init header transfer in
    (next_n 2 it ≡ done (map (pubkey_at keys) (0 ∷ 1 ∷ []), at_position 2 it))
    × All (λ ptr. 32 ≤ length ptr) (map (pubkey_at keys) (0 ∷ 1 ∷ []))
    × (instruction_accounts_iterator_remaining (at_position 2 it) ≡ 0)
    × (instruction_accounts_iterator_next (at_position 2 it) ≡ bail 1)
iterator_gives_accounts_example =
    iterator_gives_accounts transfer header 2 transfer-InstructionFits header-HeaderFits
      transfer-validates (omega arith)
