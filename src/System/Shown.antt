-- ===== src/System/Shown.antt =====
-- Every instruction of the system program that parses can be shown: its printer finds a free slot for
-- each item, so that no setter is given a null pointer.
use ledger_embedded_app.Common.{◌≡◌, refl, none, done, arith, ℕ, ◌≢◌, ◌⊎◌, bail}
use ledger_embedded_app.Parser.{Instruction}
use ledger_embedded_app.Parser.Safety.Messages.{InstructionFits, HeaderFits}
use ledger_embedded_app.Instruction.{instruction_validate, pubkey_at}
use ledger_embedded_app.Instruction.Safety.{IsKey}
use ledger_embedded_app.Summary.{is_used, kind_of}
use ledger_embedded_app.Printing.{PrintConfig}
use ledger_embedded_app.Printing.Room.{
  Prints, Shows, ConfigFits, general-Prints, general_authority-Prints, when-Prints, then-Prints,
  primary-Shows, Shows-weaken,
}
use ledger_embedded_app.System.{
  parse_system_instructions, SystemCreateAccountInfo, SystemCreateAccountWithSeedInfo,
  SystemInitializeNonceInfo, SystemInfo, transfer_info, create_account_info,
  create_account_with_seed_info, advance_nonce_info, initialize_nonce_info, withdraw_nonce_info,
  authorize_nonce_info, allocate_info, assign_info, allocate_with_seed_info,
}
use ledger_embedded_app.System.Print.{
  print_system_info, print_system_transfer_info, print_system_advance_nonce_account,
  print_system_withdraw_nonce_info, print_system_authorize_nonce_info, print_system_allocate_info,
  print_system_assign_info, print_system_create_account_info,
  print_system_create_account_with_seed_info, print_system_initialize_nonce_info,
  print_system_allocate_with_seed_info,
}
use ledger_embedded_app.System.Safety.{InfoFits, parse_system_instructions_safe}
use ledger_embedded_app.Printing.FeePayer.{IsShown, Shows-IsShown, IsFine-IsShown}

module _ {R : ℕ → Type 0} (config : PrintConfig) (f : ConfigFits config) where
  -- The printer of a create-account info without a title, in a combined printer.
  pub create_account-Prints :
      (i : SystemCreateAccountInfo)
      → IsKey i.from
      → Prints R 2 (print_system_create_account_info none i config)
  unfolding print_system_create_account_info
  create_account-Prints i lk =
      then-Prints (general-Prints _ _) (general_authority-Prints _ i.from config f lk)

  pub create_account_with_seed-Prints :
      (i : SystemCreateAccountWithSeedInfo)
      → IsKey i.from
      → Prints R 4 (print_system_create_account_with_seed_info none i config)
  unfolding print_system_create_account_with_seed_info
  create_account_with_seed-Prints i lk = then-Prints (general-Prints _ _) (
      then-Prints (general_authority-Prints _ i.from config f lk)
        (then-Prints (when-Prints _ (general-Prints _ _)) (when-Prints _ (general-Prints _ _))))

  pub initialize_nonce-Prints :
      (i : SystemInitializeNonceInfo)
      → Prints R 1 (print_system_initialize_nonce_info none i config)
  unfolding print_system_initialize_nonce_info
  initialize_nonce-Prints i = general-Prints _ _

  pub print_system_info-Shows :
      (info : SystemInfo) → InfoFits info → Shows R 4 (print_system_info info config)
  unfolding print_system_info print_system_transfer_info is_used kind_of
      print_system_advance_nonce_account print_system_withdraw_nonce_info
      print_system_authorize_nonce_info print_system_allocate_info print_system_assign_info
      print_system_create_account_info print_system_create_account_with_seed_info
      print_system_initialize_nonce_info print_system_allocate_with_seed_info
  print_system_info-Shows (transfer_info i) k = Shows-weaken 4 (omega arith) (
      primary-Shows _ _ refl
        (then-Prints (general_authority-Prints _ i.from config f (k.0)) (general-Prints _ _)))
  print_system_info-Shows (create_account_info i) k =
      Shows-weaken 4 (omega arith) (primary-Shows _ _ refl (create_account-Prints i (k.0)))
  print_system_info-Shows (create_account_with_seed_info i) k =
      primary-Shows _ _ refl (create_account_with_seed-Prints i (k.0))
  print_system_info-Shows (advance_nonce_info i) k =
      Shows-weaken 4 (omega arith)
        (primary-Shows _ _ refl (general_authority-Prints _ i.authority config f (k.1)))
  print_system_info-Shows (initialize_nonce_info i) k =
      Shows-weaken 4 (omega arith) (primary-Shows _ _ refl (initialize_nonce-Prints i))
  print_system_info-Shows (withdraw_nonce_info i) k = Shows-weaken 4 (omega arith) (
      primary-Shows _ _ refl (
        then-Prints (general-Prints _ _) (
          then-Prints (general-Prints _ _)
            (general_authority-Prints _ i.authority config f (k.1)))))
  print_system_info-Shows (authorize_nonce_info i) k = Shows-weaken 4 (omega arith) (
      primary-Shows _ _ refl
        (then-Prints (general-Prints _ _) (general_authority-Prints _ i.authority config f (k.1))))
  print_system_info-Shows (allocate_info i) k =
      Shows-weaken 4 (omega arith) (primary-Shows _ _ refl (general-Prints _ _))
  print_system_info-Shows (assign_info i) k =
      Shows-weaken 4 (omega arith) (primary-Shows _ _ refl (general-Prints _ _))
  print_system_info-Shows (allocate_with_seed_info i) k = Shows-weaken 4 (omega arith) (
      primary-Shows _ _ refl (
        then-Prints (general-Prints _ _)
          (then-Prints (when-Prints _ (general-Prints _ _)) (when-Prints _ (general-Prints _ _)))))

-- On an instruction whose bytes are there and that `instruction_validate` accepts, behind a header
-- whose account keys are there, and with the signer's key and the first account key there to read, in
-- either display mode: either `parse_system_instructions` refuses it with a nonzero code, or it gives
-- an info that `print_system_info` always shows: on a fresh summary the printer succeeds, no setter
-- is given a null pointer, the primary item is set and the fee payer free, and `add_fee_payer` then
-- succeeds and sets the fee payer's item to the first account key, unless the mode is not expert and
-- it is the signer's, and changes nothing else.
pub system_instruction-IsShown :
    (ix : Instruction) (config : PrintConfig) (f : ConfigFits config)
    → IsKey (pubkey_at config.header.pubkeys 0)
    → InstructionFits ix
    → HeaderFits config.header
    → instruction_validate ix config.header ≡ done tt
    → ((e : ℕ) × (e ≢ 0) × (parse_system_instructions ix config.header ≡ bail e))
      ⊎ ((info : SystemInfo) × (parse_system_instructions ix config.header ≡ done info)
          × IsShown config f (print_system_info info config))
system_instruction-IsShown ix config f lp fi fh v =
    IsFine-IsShown config f (λ info. print_system_info info config)
      (parse_system_instructions_safe ix config.header fi fh v)
      λ info k. Shows-IsShown 4 config f lp (omega arith) (print_system_info-Shows config f info k)
