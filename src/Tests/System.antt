-- ===== src/Tests/System.antt =====
-- The theorems about the system program's instructions at a concrete transfer.
use ledger_embedded_app.Common.{
  ℕ, ◌≢◌, ◌⊎◌, bail, ◌≡◌, refl, [], ◌∷◌, ◌++◌, replicate, take, arith, true, false, done, codes,
  bytes_eq,
}
use ledger_embedded_app.Parser.{Pointer, Instruction, MessageHeader}
use ledger_embedded_app.Instruction.{pubkey_at, instruction_validate}
use ledger_embedded_app.Instruction.Accounts.{instruction_validate_iff}
use ledger_embedded_app.Instruction.Safety.{IsFine}
use ledger_embedded_app.Summary.{
  zero_item, TransactionSummary, amount, pubkey, kind_amount, kind_pubkey, kind_of,
  transaction_summary_finalize,
}
use ledger_embedded_app.System.{SystemInfo, transfer_info, parse_system_instructions}
use ledger_embedded_app.System.Safety.{InfoFits, parse_system_instructions_safe}
use ledger_embedded_app.System.Shown.{system_instruction-IsShown}
use ledger_embedded_app.Printing.Room.{ConfigFits}
use ledger_embedded_app.Printing.FeePayer.{IsShown}
use ledger_embedded_app.System.Print.{print_system_info}
use ledger_embedded_app.System.Transfer.{
  transfer_instruction, parse_system_instructions-transfer, show_instruction, config_of, item,
  transfer_shown,
}

abbrev pub sender : Pointer
sender = replicate 32 1

abbrev pub recipient : Pointer
recipient = replicate 32 2

abbrev pub keys : Pointer
keys = sender ++ (recipient ++ replicate 32 0)

abbrev pub header : MessageHeader
header = record {
  versioned = false;
  version = 0;
  pubkeys_header = record {
    num_required_signatures = 1;
    num_readonly_signed_accounts = 0;
    num_readonly_unsigned_accounts = 1;
    pubkeys_length = 3;
  };
  pubkeys = keys;
  blockhash = replicate 32 0;
  instructions_length = 1;
}

abbrev transfer_of_42 : Instruction
transfer_of_42 = transfer_instruction 2 0 1 [] 2 42 [] []

parse_system_instructions-transfer_example :
    parse_system_instructions transfer_of_42 header
    ≡ done
        (transfer_info (record { from = pubkey_at keys 0; to = pubkey_at keys 1; lamports = 42 }))
parse_system_instructions-transfer_example =
    parse_system_instructions-transfer 2 0 1 [] 2 42 [] [] header (omega arith) (omega arith)

transfer_shown_example :
    (s : TransactionSummary) × (show_instruction transfer_of_42 (config_of header false sender)
      ≡ done s)
    × (s.primary ≡ item (codes "Transfer") (amount 42))
    × (take 1 s.general ≡ item (codes "Recipient") (pubkey (pubkey_at keys 1)) ∷ [])
    × (s.fee_payer ≡ zero_item)
    × (transaction_summary_finalize s ≡ done (kind_amount ∷ kind_pubkey ∷ []))
unfolding bytes_eq kind_of
transfer_shown_example =
    transfer_shown 2 0 1 [] 2 42 [] [] header false sender (omega arith) (omega arith) (omega arith)
      (omega arith) (omega arith)

validated : instruction_validate transfer_of_42 header ≡ done tt
validated = (instruction_validate_iff transfer_of_42 header (omega arith)).1 (omega arith)

parse_system_instructions_safe_example :
    IsFine InfoFits (parse_system_instructions transfer_of_42 header)
parse_system_instructions_safe_example =
    parse_system_instructions_safe transfer_of_42 header
      (record { accounts_in = omega arith; data_in = omega arith })
      (record { pubkeys_in = omega arith; blockhash_in = omega arith }) validated

abbrev pub recipient_signs : ConfigFits (config_of header true recipient)
recipient_signs = record { signer = recipient; has_signer = refl; signer_in = omega arith }

system_instruction-IsShown_example :
    ((e : ℕ) × (e ≢ 0) × (parse_system_instructions transfer_of_42 header ≡ bail e))
    ⊎ ((info : SystemInfo) × (parse_system_instructions transfer_of_42 header ≡ done info)
        × IsShown
            (config_of header true recipient)
            recipient_signs
            (print_system_info info (config_of header true recipient)))
system_instruction-IsShown_example =
    system_instruction-IsShown transfer_of_42 (config_of header true recipient) recipient_signs
      (omega arith) (record { accounts_in = omega arith; data_in = omega arith })
      (record { pubkeys_in = omega arith; blockhash_in = omega arith }) validated
