-- ===== src/Stake/Shown.antt =====
-- Every instruction of the stake program that parses can be shown.
use ledger_embedded_app.Common.{
  ◌≡◌, refl, Bool, ◌||◌, Option, none, some, done, arith, ltb, take, bytes_eq, List, ℕ, ◌≢◌, ◌⊎◌,
  bail,
}
use ledger_embedded_app.Parser.{Pointer, Instruction}
use ledger_embedded_app.Parser.Safety.Messages.{InstructionFits, HeaderFits}
use ledger_embedded_app.Instruction.{instruction_validate, pubkey_at}
use ledger_embedded_app.Instruction.Safety.{IsKey, IsKeyOrNull}
use ledger_embedded_app.Summary.{is_used, kind_of}
use ledger_embedded_app.Printing.{PrintConfig}
use ledger_embedded_app.Printing.Room.{
  Prints, Shows, ConfigFits, general-Prints, general_authority-Prints, when-Prints, then-Prints,
  done-Prints, if-Prints, ask-Prints, ask-Shows, primary-Shows, Shows-weaken, Prints-weaken,
  Shows-then, pubkeys_equal_lem,
}
use ledger_embedded_app.Stake.{
  StakeDelegateInfo, StakeLockup, StakeInitializeInfo, StakeAuthorizeInfo, StakeSetLockupInfo,
  StakeSplitInfo, StakeInfo, delegate_info, initialize_info, initialize_checked_info, withdraw_info,
  authorize_info, authorize_checked_info, deactivate_info, set_lockup_info, set_lockup_checked_info,
  split_info, merge_info,
}
use ledger_embedded_app.Stake.Print.{
  print_delegate_stake_info, print_stake_withdraw_info, optional_custodian,
  print_stake_authorize_info, print_stake_deactivate_info, print_stake_set_lockup_info,
  print_stake_split_info1, print_stake_split_info2, print_stake_split_info, print_stake_merge_info,
  new_authorities, positive_i64, print_lockup, print_stake_initialize_info, print_stake_info,
}
use ledger_embedded_app.Stake.Parse.{parse_stake_instructions}
use ledger_embedded_app.Stake.Parse.Safety.{StakeInfoFits, parse_stake_instructions_safe}
use ledger_embedded_app.Printing.FeePayer.{IsShown, Shows-IsShown, IsFine-IsShown}

module _ {R : ℕ → Type 0} (config : PrintConfig) (f : ConfigFits config) where
  pub optional_custodian-Prints :
      (key : Option Pointer) → IsKeyOrNull key → Prints R 1 (optional_custodian key config)
  optional_custodian-Prints none k = done-Prints 1
  optional_custodian-Prints (some key) k = general_authority-Prints _ key config f k

  new_authorities-Prints :
      (one : Bool) (i : StakeInitializeInfo) → Prints R 2 (new_authorities one i)
  new_authorities-Prints one i =
      if-Prints one (Prints-weaken 2 (omega arith) (general-Prints _ _))
        (then-Prints (general-Prints _ _) (general-Prints _ _))

  print_lockup-Prints : (lockup : StakeLockup) → Prints R 3 (print_lockup lockup config)
  print_lockup-Prints lockup =
      let has_time = positive_i64 lockup.unix_timestamp in
      let has_epoch = ltb 0 lockup.epoch in
      if-Prints (has_time || has_epoch)
        (then-Prints (when-Prints has_time (general-Prints _ _))
          (then-Prints (when-Prints has_epoch (general-Prints _ _)) (general-Prints _ _)))
        (Prints-weaken 3 (omega arith) (when-Prints config.expert_mode (general-Prints _ _)))

  -- The printers of an initialize info and of a delegate info without a title, in a combined printer.
  pub stake_initialize-Prints :
      (i : StakeInitializeInfo)
      → IsKey i.stake_authority
      → IsKey i.withdraw_authority
      → Prints R 5 (print_stake_initialize_info none i config)
  unfolding print_stake_initialize_info
  stake_initialize-Prints i ks kw =
      let same = bytes_eq (take 32 i.withdraw_authority) (take 32 i.stake_authority) in
      ask-Prints _ same (pubkeys_equal_lem i.withdraw_authority i.stake_authority kw ks)
        (then-Prints (new_authorities-Prints same i) (print_lockup-Prints i.lockup))

  pub stake_delegate-Prints :
      (i : StakeDelegateInfo)
      → IsKey i.authorized_pubkey
      → Prints R 2 (print_delegate_stake_info none i config)
  unfolding print_delegate_stake_info
  stake_delegate-Prints i k =
      then-Prints (general_authority-Prints _ i.authorized_pubkey config f k) (general-Prints _ _)

  initialize-Shows :
      (title : List ℕ) (i : StakeInitializeInfo)
      → IsKey i.stake_authority
      → IsKey i.withdraw_authority
      → Shows R 5 (print_stake_initialize_info (some title) i config)
  unfolding print_stake_initialize_info is_used kind_of
  initialize-Shows title i ks kw =
      let same = bytes_eq (take 32 i.withdraw_authority) (take 32 i.stake_authority) in
      ask-Shows _ same (pubkeys_equal_lem i.withdraw_authority i.stake_authority kw ks) (
        primary-Shows _ _ refl
          (then-Prints (new_authorities-Prints same i) (print_lockup-Prints i.lockup)))

  authorize-Shows :
      (i : StakeAuthorizeInfo)
      → IsKey i.authority
      → IsKeyOrNull i.custodian
      → Shows R 5 (print_stake_authorize_info i config)
  unfolding print_stake_authorize_info is_used kind_of
  authorize-Shows i k kc = Shows-weaken 5 (omega arith) (
      primary-Shows _ _ refl (
        then-Prints (general-Prints _ _) (
          then-Prints (general_authority-Prints _ i.authority config f k)
            (optional_custodian-Prints i.custodian kc))))

  set_lockup-Shows :
      (i : StakeSetLockupInfo)
      → IsKey i.custodian
      → Shows R 5 (print_stake_set_lockup_info i config)
  unfolding print_stake_set_lockup_info is_used kind_of
  set_lockup-Shows i k = Shows-weaken 5 (omega arith) (
      primary-Shows _ _ refl (
        then-Prints (when-Prints i.lockup.present.has_timestamp (general-Prints _ _)) (
          then-Prints (when-Prints i.lockup.present.has_epoch (general-Prints _ _)) (
            then-Prints (when-Prints i.lockup.present.has_custodian (general-Prints _ _))
              (general_authority-Prints _ i.custodian config f k)))))

  pub split1-Shows : (i : StakeSplitInfo) → Shows R 2 (print_stake_split_info1 i config)
  unfolding print_stake_split_info1 is_used kind_of
  split1-Shows i = primary-Shows _ _ refl (then-Prints (general-Prints _ _) (general-Prints _ _))

  pub split2-Prints :
      (i : StakeSplitInfo) → IsKey i.authority → Prints R 1 (print_stake_split_info2 i config)
  unfolding print_stake_split_info2
  split2-Prints i k = general_authority-Prints _ i.authority config f k

  pub print_stake_info-Shows :
      (info : StakeInfo) → StakeInfoFits info → Shows R 5 (print_stake_info info config)
  unfolding print_stake_info print_delegate_stake_info print_stake_withdraw_info
      print_stake_deactivate_info print_stake_split_info print_stake_merge_info is_used kind_of
  print_stake_info-Shows (delegate_info i) k =
      Shows-weaken 5 (omega arith) (primary-Shows _ _ refl (stake_delegate-Prints i (k.2)))
  print_stake_info-Shows (initialize_info i) k = initialize-Shows _ i (k.1) (k.2)
  print_stake_info-Shows (initialize_checked_info i) k = initialize-Shows _ i (k.1) (k.2)
  print_stake_info-Shows (withdraw_info i) k = Shows-weaken 5 (omega arith) (
      primary-Shows _ _ refl (
        then-Prints (general-Prints _ _) (
          then-Prints (general-Prints _ _)
            (general_authority-Prints _ i.authority config f (k.1)))))
  print_stake_info-Shows (authorize_info i) k = authorize-Shows i (k.1) (k.3)
  print_stake_info-Shows (authorize_checked_info i) k = authorize-Shows i (k.1) (k.3)
  print_stake_info-Shows (deactivate_info i) k =
      Shows-weaken 5 (omega arith)
        (primary-Shows _ _ refl (general_authority-Prints _ i.authority config f (k.1)))
  print_stake_info-Shows (set_lockup_info i) k = set_lockup-Shows i (k.1)
  print_stake_info-Shows (set_lockup_checked_info i) k = set_lockup-Shows i (k.1)
  print_stake_info-Shows (split_info i) k =
      Shows-weaken 5 (omega arith) (Shows-then (split1-Shows i) (split2-Prints i (k.1)))
  print_stake_info-Shows (merge_info i) k = Shows-weaken 5 (omega arith) (
      primary-Shows _ _ refl
        (then-Prints (general-Prints _ _) (general_authority-Prints _ i.authority config f (k.2))))

-- On an instruction whose bytes are there and that `instruction_validate` accepts, behind a header
-- whose account keys are there, and with the signer's key and the first account key there to read, in
-- either display mode: either `parse_stake_instructions` refuses it with a nonzero code, or it gives
-- an info that `print_stake_info` always shows: on a fresh summary the printer succeeds, no setter
-- is given a null pointer, the primary item is set and the fee payer free, and `add_fee_payer` then
-- succeeds and sets the fee payer's item to the first account key, unless the mode is not expert and
-- it is the signer's, and changes nothing else.
pub stake_instruction-IsShown :
    (ix : Instruction) (config : PrintConfig) (f : ConfigFits config)
    → IsKey (pubkey_at config.header.pubkeys 0)
    → InstructionFits ix
    → HeaderFits config.header
    → instruction_validate ix config.header ≡ done tt
    → ((e : ℕ) × (e ≢ 0) × (parse_stake_instructions ix config.header ≡ bail e))
      ⊎ ((info : StakeInfo) × (parse_stake_instructions ix config.header ≡ done info)
          × IsShown config f (print_stake_info info config))
stake_instruction-IsShown ix config f lp fi fh v =
    IsFine-IsShown config f (λ info. print_stake_info info config)
      (parse_stake_instructions_safe ix config.header fi fh v)
      λ info k. Shows-IsShown 5 config f lp (omega arith) (print_stake_info-Shows config f info k)
