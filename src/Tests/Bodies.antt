-- ===== src/Tests/Bodies.antt =====
-- The theorems about message bodies, and about the instructions of the stake and token programs, at
-- concrete inputs.
use ledger_embedded_app.Common.{
  ◌≢◌, ◌⊎◌, bail, ℕ, ◌≡◌, refl, inl, true, List, [], ◌∷◌, ◌++◌, arith, if◌then◌else◌, done,
}
use ledger_embedded_app.Parser.{Instruction}
use ledger_embedded_app.Parser.Safety.Messages.{InstructionFits, HeaderFits}
use ledger_embedded_app.Parser.RoundTrip.{data_bytes, Call}
use ledger_embedded_app.Instruction.{pubkey_at, instruction_validate, system}
use ledger_embedded_app.Instruction.Accounts.{instruction_validate_iff}
use ledger_embedded_app.Instruction.Programs.{instruction_program_id_iff}
use ledger_embedded_app.Instruction.Safety.{IsFine}
use ledger_embedded_app.Instruction.Unions.{Gives}
use ledger_embedded_app.Summary.{transaction_summary_reset}
use ledger_embedded_app.Printing.{PrintConfig}
use ledger_embedded_app.Printing.FeePayer.{IsShown}
use ledger_embedded_app.System.{SystemInfo, transfer_info}
use ledger_embedded_app.System.Transfer.{parse_system_instructions-transfer, config_of}
use ledger_embedded_app.Stake.Shown.{stake_instruction-IsShown}
use ledger_embedded_app.Stake.{StakeInfo}
use ledger_embedded_app.Stake.Parse.{parse_stake_instructions}
use ledger_embedded_app.Stake.Print.{print_stake_info}
use ledger_embedded_app.Token.{RplTokenInfo}
use ledger_embedded_app.Token.Print.{print_rpl_token_info}
use ledger_embedded_app.Token.Parse.{parse_rpl_token_instructions}
use ledger_embedded_app.Token.Parse.Safety.{TokenInfoFits, parse_rpl_token_instructions_safe}
use ledger_embedded_app.Token.Shown.{token_instruction-IsShown}
use ledger_embedded_app.Transaction.{system_info}
use ledger_embedded_app.Transaction.Cases.{print_transaction}
use ledger_embedded_app.Transaction.Shown.{IsConcluded, print_transaction-Gives}
use ledger_embedded_app.Message.{
  parse_info, info_of_instruction, displayed, any_unknown, process_message_body,
}
use ledger_embedded_app.Message.Safety.{process_message_body_safe}
use ledger_embedded_app.Message.Body.{
  calls_bytes, call_instruction, infos_of_calls, process_message_body-calls,
  process_message_body-more,
}
use ledger_embedded_app.Tests.System.{recipient, keys, header, recipient_signs}

abbrev transfer_call : Call
transfer_call = record {
  program_id_index = 2;
  accounts = 0 ∷ 1 ∷ [];
  payload = 2 ∷ 0 ∷ 0 ∷ 0 ∷ 42 ∷ 0 ∷ 0 ∷ 0 ∷ 0 ∷ 0 ∷ 0 ∷ 0 ∷ [];
}

abbrev transfers : List Call
transfers = transfer_call ∷ []

abbrev config : PrintConfig
config = config_of header true recipient

abbrev transfer_of_two_keys : SystemInfo
transfer_of_two_keys =
    transfer_info (record { from = pubkey_at keys 0; to = pubkey_at keys 1; lamports = 42 })

header-HeaderFits : HeaderFits header
header-HeaderFits = record { pubkeys_in = omega arith; blockhash_in = omega arith }

transfer-is-read :
    (behind : List ℕ)
    → infos_of_calls transfers behind header ≡ done (system_info transfer_of_two_keys ∷ [])
unfolding info_of_instruction parse_info
transfer-is-read behind =
    let ix = call_instruction transfer_call behind in
    rw
      (
        (instruction_validate_iff ix header (omega arith)).1 (omega arith),
        (instruction_program_id_iff ix header (omega arith) system (λ e. cc)).1 refl,
        parse_system_instructions-transfer 2 0 1 (data_bytes transfer_call.payload behind) 2 42 []
            behind header (omega arith) (omega arith),
      )
      refl

process_message_body-calls_example :
    process_message_body (calls_bytes transfers [] ++ (9 ∷ [])) 17 config transaction_summary_reset
    ≡ (if any_unknown (system_info transfer_of_two_keys ∷ [])
        then done (1, transaction_summary_reset)
        else print_transaction config
            (displayed (system_info transfer_of_two_keys ∷ []))
            transaction_summary_reset)
process_message_body-calls_example =
    process_message_body-calls transfers (9 ∷ []) config transaction_summary_reset
      (system_info transfer_of_two_keys ∷ []) (omega arith) refl (omega arith) (omega arith)
      (transfer-is-read (9 ∷ []))

process_message_body-more_example :
    process_message_body (calls_bytes transfers (7 ∷ []) ++ []) 18 config transaction_summary_reset
    ≡ done (1, transaction_summary_reset)
process_message_body-more_example =
    process_message_body-more transfers 0 (7 ∷ []) [] config transaction_summary_reset
      (system_info transfer_of_two_keys ∷ []) (omega arith) refl (omega arith) (omega arith)
      (omega arith) (inl (omega arith)) (transfer-is-read (7 ∷ []))

process_message_body_safe_example :
    Gives IsConcluded
      (process_message_body (calls_bytes transfers []) 17 config transaction_summary_reset)
process_message_body_safe_example =
    process_message_body_safe (calls_bytes transfers []) 17 config (omega arith) header-HeaderFits
      recipient_signs

print_transaction-Gives_example :
    Gives IsConcluded
      (print_transaction config (system_info transfer_of_two_keys ∷ []) transaction_summary_reset)
print_transaction-Gives_example =
    print_transaction-Gives config (system_info transfer_of_two_keys ∷ []) recipient_signs
      (omega arith)

-- A deactivation of the stake account that the first key names.
abbrev deactivation : Instruction
deactivation = record {
  program_id_index = 2;
  accounts = 0 ∷ 2 ∷ 1 ∷ [];
  accounts_length = 3;
  data_bytes = 5 ∷ 0 ∷ 0 ∷ 0 ∷ [];
  data_length = 4;
}

deactivation-InstructionFits : InstructionFits deactivation
deactivation-InstructionFits = record { accounts_in = omega arith; data_in = omega arith }

deactivation-validates : instruction_validate deactivation header ≡ done tt
deactivation-validates =
    (instruction_validate_iff deactivation header (omega arith)).1 (omega arith)

stake_instruction-IsShown_example :
    ((e : ℕ) × (e ≢ 0) × (parse_stake_instructions deactivation header ≡ bail e))
    ⊎ ((info : StakeInfo) × (parse_stake_instructions deactivation header ≡ done info)
        × IsShown config recipient_signs (print_stake_info info config))
stake_instruction-IsShown_example =
    stake_instruction-IsShown deactivation config recipient_signs (omega arith)
      deactivation-InstructionFits header-HeaderFits deactivation-validates

-- A checked transfer of 42 tokens with 2 decimals.
abbrev token_transfer : Instruction
token_transfer = record {
  program_id_index = 2;
  accounts = 0 ∷ 2 ∷ 1 ∷ 0 ∷ [];
  accounts_length = 4;
  data_bytes = 12 ∷ 42 ∷ 0 ∷ 0 ∷ 0 ∷ 0 ∷ 0 ∷ 0 ∷ 0 ∷ 2 ∷ [];
  data_length = 10;
}

token_transfer-InstructionFits : InstructionFits token_transfer
token_transfer-InstructionFits = record { accounts_in = omega arith; data_in = omega arith }

token_transfer-validates : instruction_validate token_transfer header ≡ done tt
token_transfer-validates =
    (instruction_validate_iff token_transfer header (omega arith)).1 (omega arith)

parse_rpl_token_instructions_safe_example :
    IsFine TokenInfoFits (parse_rpl_token_instructions token_transfer header)
parse_rpl_token_instructions_safe_example =
    parse_rpl_token_instructions_safe token_transfer header token_transfer-InstructionFits
      header-HeaderFits token_transfer-validates

token_instruction-IsShown_example :
    ((e : ℕ) × (e ≢ 0) × (parse_rpl_token_instructions token_transfer header ≡ bail e))
    ⊎ ((info : RplTokenInfo) × (parse_rpl_token_instructions token_transfer header ≡ done info)
        × IsShown config recipient_signs (print_rpl_token_info info config))
token_instruction-IsShown_example =
    token_instruction-IsShown token_transfer config recipient_signs (omega arith)
      token_transfer-InstructionFits header-HeaderFits token_transfer-validates
