-- ===== src/Transaction.antt =====
-- The infos of a transaction's instructions, and the briefs that they are compared with:
-- `InstructionInfo` and `InstructionBrief` of librenec/instruction.h with their functions in
-- librenec/instruction.c.
pub mod Print
pub mod Cases
pub mod Matching
pub mod Pairs
pub mod Combined
pub mod Arms
pub mod Shown
use ledger_embedded_app.Common.{
  ℕ, zero, suc, Bool, true, false, List, [], ◌∷◌, Option, none, some, get_elem?, Outcome, done,
  fault, ◌>>=◌, if◌then◌else◌,
}
use ledger_embedded_app.Instruction.{
  ProgramId, unknown, stake, system, vote, rpl_token, rpl_associated_token_account, rpl_memo,
}
use ledger_embedded_app.System.{SystemInstructionKind, SystemInfo}
use ledger_embedded_app.System.Kinds.{is_system_kind}
use ledger_embedded_app.Stake.{StakeInstructionKind, StakeInfo}
use ledger_embedded_app.Stake.Kinds.{is_stake_kind}
use ledger_embedded_app.Vote.{VoteInstructionKind, VoteInfo}
use ledger_embedded_app.Vote.Kinds.{is_vote_kind}
use ledger_embedded_app.Token.{RplTokenInstructionKind, RplTokenInfo}
use ledger_embedded_app.Token.Kinds.{is_token_kind}
use ledger_embedded_app.AssociatedToken.{RplAssociatedTokenAccountInfo}

-- The union, tagged by its kind.
pub data InstructionInfo : Type 0 where
  unknown_info rpl_memo_info : InstructionInfo
  associated_info : RplAssociatedTokenAccountInfo → InstructionInfo
  token_info : RplTokenInfo → InstructionInfo
  stake_info : StakeInfo → InstructionInfo
  system_info : SystemInfo → InstructionInfo
  vote_info : VoteInfo → InstructionInfo

-- `info->kind`
abbrev pub info_kind : InstructionInfo → ProgramId
info_kind unknown_info = unknown
info_kind rpl_memo_info = rpl_memo
info_kind (associated_info i) = rpl_associated_token_account
info_kind (token_info i) = rpl_token
info_kind (stake_info i) = stake
info_kind (system_info i) = system
info_kind (vote_info i) = vote

-- The members of the union. A read under another tag is a fault.
unfoldable pub associated_of : InstructionInfo → Outcome RplAssociatedTokenAccountInfo
associated_of (associated_info i) = done i
associated_of _ = fault

unfoldable pub token_of : InstructionInfo → Outcome RplTokenInfo
token_of (token_info i) = done i
token_of _ = fault

unfoldable pub stake_of : InstructionInfo → Outcome StakeInfo
stake_of (stake_info i) = done i
stake_of _ = fault

unfoldable pub system_of : InstructionInfo → Outcome SystemInfo
system_of (system_info i) = done i
system_of _ = fault

unfoldable pub vote_of : InstructionInfo → Outcome VoteInfo
vote_of (vote_info i) = done i
vote_of _ = fault

pub data InstructionBrief : Type 0 where
  unknown_brief memo_brief associated_brief : InstructionBrief
  token_brief : RplTokenInstructionKind → InstructionBrief
  stake_brief : StakeInstructionKind → InstructionBrief
  system_brief : SystemInstructionKind → InstructionBrief
  vote_brief : VoteInstructionKind → InstructionBrief

unfoldable pub instruction_info_matches_brief : InstructionInfo → InstructionBrief → Bool
instruction_info_matches_brief (associated_info i) associated_brief = true
instruction_info_matches_brief rpl_memo_info memo_brief = true
instruction_info_matches_brief (token_info i) (token_brief kind) = is_token_kind kind i
instruction_info_matches_brief (stake_info i) (stake_brief kind) = is_stake_kind kind i
instruction_info_matches_brief (system_info i) (system_brief kind) = is_system_kind kind i
instruction_info_matches_brief (vote_info i) (vote_brief kind) = is_vote_kind kind i
instruction_info_matches_brief _ _ = false

-- The loop over the first `len` infos and briefs.
unfoldable pub instruction_infos_match_briefs :
    List InstructionInfo → List InstructionBrief → ℕ → Outcome Bool
instruction_infos_match_briefs infos briefs zero = done true
instruction_infos_match_briefs (info ∷ infos) (brief ∷ briefs) (suc len) =
    let rest = instruction_infos_match_briefs infos briefs len in
    if instruction_info_matches_brief info brief then rest else done false
instruction_infos_match_briefs _ _ (suc len) = fault

-- `infos[i]`
unfoldable pub info_at : List InstructionInfo → ℕ → Outcome InstructionInfo
info_at infos i = elim (get_elem? infos i) [ none ↦ fault | some info ↦ done info ]
