-- ===== src/Stake.antt =====
-- librenec/stake_instruction.h: what an instruction of the stake program is parsed to.
pub mod Parse
pub mod Print
pub mod Shown
pub mod Kinds
use ledger_embedded_app.Common.{ℕ, Bool, true, false, Option, List, [], ◌∷◌}
use ledger_embedded_app.Parser.{Pointer}

pub data StakeInstructionKind : Type 0 where
  stake_initialize stake_authorize stake_delegate stake_split stake_withdraw : StakeInstructionKind
  stake_deactivate stake_set_lockup stake_merge stake_authorize_with_seed : StakeInstructionKind
  stake_initialize_checked stake_authorize_checked : StakeInstructionKind
  stake_authorize_checked_with_seed stake_set_lockup_checked : StakeInstructionKind

pub record StakeDelegateInfo : Type 0 where
  pub stake_pubkey : Pointer
  pub vote_pubkey : Pointer
  pub authorized_pubkey : Pointer

-- The bits of the enumeration, one by one.
pub record StakeLockupPresent : Type 0 where
  pub has_timestamp : Bool
  pub has_epoch : Bool
  pub has_custodian : Bool

abbrev pub stake_lockup_has_none : StakeLockupPresent
stake_lockup_has_none = record { has_timestamp = false; has_epoch = false; has_custodian = false }

abbrev pub stake_lockup_has_all : StakeLockupPresent
stake_lockup_has_all = record { has_timestamp = true; has_epoch = true; has_custodian = true }

-- An int64_t is its 64 bits. A null `custodian` points to nothing.
pub record StakeLockup : Type 0 where
  pub present : StakeLockupPresent
  pub unix_timestamp : ℕ
  pub epoch : ℕ
  pub custodian : Pointer

pub record StakeInitializeInfo : Type 0 where
  pub account : Pointer
  pub stake_authority : Pointer
  pub withdraw_authority : Pointer
  pub lockup : StakeLockup

pub record StakeWithdrawInfo : Type 0 where
  pub account : Pointer
  pub authority : Pointer
  pub to : Pointer
  pub lamports : ℕ

pub data StakeAuthorize : Type 0 where
  staker withdrawer : StakeAuthorize

-- `custodian` may be null.
pub record StakeAuthorizeInfo : Type 0 where
  pub account : Pointer
  pub authority : Pointer
  pub new_authority : Pointer
  pub custodian : Option Pointer
  pub authorize : StakeAuthorize

pub record StakeDeactivateInfo : Type 0 where
  pub account : Pointer
  pub authority : Pointer

pub record StakeSetLockupInfo : Type 0 where
  pub account : Pointer
  pub custodian : Pointer
  pub lockup : StakeLockup

pub record StakeSplitInfo : Type 0 where
  pub account : Pointer
  pub authority : Pointer
  pub split_account : Pointer
  pub lamports : ℕ

pub record StakeMergeInfo : Type 0 where
  pub destination : Pointer
  pub source : Pointer
  pub authority : Pointer

-- The union, tagged by its kind.
pub data StakeInfo : Type 0 where
  delegate_info : StakeDelegateInfo → StakeInfo
  initialize_info initialize_checked_info : StakeInitializeInfo → StakeInfo
  withdraw_info : StakeWithdrawInfo → StakeInfo
  authorize_info authorize_checked_info : StakeAuthorizeInfo → StakeInfo
  deactivate_info : StakeDeactivateInfo → StakeInfo
  set_lockup_info set_lockup_checked_info : StakeSetLockupInfo → StakeInfo
  split_info : StakeSplitInfo → StakeInfo
  merge_info : StakeMergeInfo → StakeInfo

-- The enumerators by their numbers, which count from 0.
abbrev pub stake_kinds : List StakeInstructionKind
stake_kinds =
    stake_initialize ∷ stake_authorize ∷ stake_delegate ∷ stake_split ∷ stake_withdraw
    ∷ stake_deactivate ∷ stake_set_lockup ∷ stake_merge ∷ stake_authorize_with_seed
    ∷ stake_initialize_checked ∷ stake_authorize_checked ∷ stake_authorize_checked_with_seed
    ∷ stake_set_lockup_checked ∷ []

abbrev pub stake_authorizes : List StakeAuthorize
stake_authorizes = staker ∷ withdrawer ∷ []
