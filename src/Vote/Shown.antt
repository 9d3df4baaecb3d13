-- ===== src/Vote/Shown.antt =====
-- Every instruction of the vote program that parses can be shown.
use ledger_embedded_app.Common.{◌≡◌, refl, none, done, arith, ℕ, ◌≢◌, ◌⊎◌, bail}
use ledger_embedded_app.Parser.{Instruction}
use ledger_embedded_app.Parser.Safety.Messages.{InstructionFits, HeaderFits}
use ledger_embedded_app.Instruction.{instruction_validate, pubkey_at}
use ledger_embedded_app.Instruction.Safety.{IsKey}
use ledger_embedded_app.Summary.{is_used, kind_of}
use ledger_embedded_app.Printing.{PrintConfig}
use ledger_embedded_app.Printing.Room.{
  Prints, Shows, ConfigFits, general-Prints, general_authority-Prints, then-Prints, primary-Shows,
  Shows-weaken,
}
use ledger_embedded_app.Vote.{
  VoteInitializeInfo, VoteInfo, initialize_info, withdraw_info, authorize_info,
  authorize_checked_info, update_validator_id_info, update_commission_info, parse_vote_instructions,
}
use ledger_embedded_app.Vote.Print.{
  print_vote_info, print_vote_withdraw_info, print_vote_authorize_info,
  print_vote_update_validator_id_info, print_vote_update_commission_info,
  print_vote_initialize_info,
}
use ledger_embedded_app.Vote.Safety.{VoteInfoFits, parse_vote_instructions_safe}
use ledger_embedded_app.Printing.FeePayer.{IsShown, Shows-IsShown, IsFine-IsShown}

module _ {R : ℕ → Type 0} (config : PrintConfig) (f : ConfigFits config) where
  -- The printer of an initialize info without a title, in a combined printer.
  pub vote_initialize-Prints :
      (i : VoteInitializeInfo) → Prints R 4 (print_vote_initialize_info none i config)
  unfolding print_vote_initialize_info
  vote_initialize-Prints i =
      then-Prints (general-Prints _ _)
        (then-Prints (general-Prints _ _) (then-Prints (general-Prints _ _) (general-Prints _ _)))

  pub print_vote_info-Shows :
      (info : VoteInfo) → VoteInfoFits info → Shows R 4 (print_vote_info info config)
  unfolding print_vote_info print_vote_withdraw_info print_vote_authorize_info is_used kind_of
      print_vote_update_validator_id_info print_vote_update_commission_info
      print_vote_initialize_info
  print_vote_info-Shows (initialize_info i) k = primary-Shows _ _ refl (vote_initialize-Prints i)
  print_vote_info-Shows (withdraw_info i) k = Shows-weaken 4 (omega arith) (
      primary-Shows _ _ refl (
        then-Prints (general-Prints _ _) (
          then-Prints (general-Prints _ _)
            (general_authority-Prints _ i.authority config f (k.1)))))
  print_vote_info-Shows (authorize_info i) k = Shows-weaken 4 (omega arith) (
      primary-Shows _ _ refl
        (then-Prints (general-Prints _ _) (general_authority-Prints _ i.authority config f (k.1))))
  print_vote_info-Shows (authorize_checked_info i) k = Shows-weaken 4 (omega arith) (
      primary-Shows _ _ refl
        (then-Prints (general-Prints _ _) (general_authority-Prints _ i.authority config f (k.1))))
  print_vote_info-Shows (update_validator_id_info i) k = Shows-weaken 4 (omega arith) (
      primary-Shows _ _ refl
        (then-Prints (general-Prints _ _) (general_authority-Prints _ i.authority config f (k.1))))
  print_vote_info-Shows (update_commission_info i) k = Shows-weaken 4 (omega arith) (
      primary-Shows _ _ refl
        (then-Prints (general-Prints _ _) (general_authority-Prints _ i.authority config f (k.1))))

-- On an instruction whose bytes are there and that `instruction_validate` accepts, behind a header
-- whose account keys are there, and with the signer's key and the first account key there to read, in
-- either display mode: either `parse_vote_instructions` refuses it with a nonzero code, or it gives
-- an info that `print_vote_info` always shows: on a fresh summary the printer succeeds, no setter
-- is given a null pointer, the primary item is set and the fee payer free, and `add_fee_payer` then
-- succeeds and sets the fee payer's item to the first account key, unless the mode is not expert and
-- it is the signer's, and changes nothing else.
pub vote_instruction-IsShown :
    (ix : Instruction) (config : PrintConfig) (f : ConfigFits config)
    → IsKey (pubkey_at config.header.pubkeys 0)
    → InstructionFits ix
    → HeaderFits config.header
    → instruction_validate ix config.header ≡ done tt
    → ((e : ℕ) × (e ≢ 0) × (parse_vote_instructions ix config.header ≡ bail e))
      ⊎ ((info : VoteInfo) × (parse_vote_instructions ix config.header ≡ done info)
          × IsShown config f (print_vote_info info config))
vote_instruction-IsShown ix config f lp fi fh v =
    IsFine-IsShown config f (λ info. print_vote_info info config)
      (parse_vote_instructions_safe ix config.header fi fh v)
      λ info k. Shows-IsShown 4 config f lp (omega arith) (print_vote_info-Shows config f info k)
