-- ===== src/Message.antt =====
-- librenec/message.c: the body of a message, its instructions parsed one by one and then printed.
pub mod Safety
pub mod Body
use ledger_embedded_app.Common.{
  ℕ, zero, suc, Bool, true, false, not, List, [], ◌∷◌, ltb, ◌==◌, if◌then◌else◌, ◌||◌, Outcome,
  ◌>>=◌, done, bail, fault,
}
use ledger_embedded_app.Parser.{
  Pointer, Parser, parser_is_empty, parse_length, MessageHeader, Instruction, parse_instruction,
}
use ledger_embedded_app.Instruction.{
  ProgramId, instruction_program_id, instruction_validate, unknown, stake, system, vote, rpl_token,
  rpl_associated_token_account, rpl_memo,
}
use ledger_embedded_app.Summary.{TransactionSummary}
use ledger_embedded_app.Printing.{PrintConfig}
use ledger_embedded_app.System.{parse_system_instructions}
use ledger_embedded_app.Stake.Parse.{parse_stake_instructions}
use ledger_embedded_app.Vote.{parse_vote_instructions}
use ledger_embedded_app.Token.Parse.{parse_rpl_token_instructions}
use ledger_embedded_app.AssociatedToken.{parse_rpl_associated_token_account_instructions}
use ledger_embedded_app.Transaction.{
  InstructionInfo, unknown_info, rpl_memo_info, associated_info, token_info, stake_info,
  system_info, vote_info,
}
use ledger_embedded_app.Transaction.Cases.{print_transaction}

-- `MAX_INSTRUCTIONS`
abbrev pub max_instructions : ℕ
max_instructions = 4

-- The kind of an info is set where its program's parser succeeds, and is else that of an unknown
-- program, which the zeroed info has.
abbrev pub info_or_unknown :
    {A : Type 0} → (A → InstructionInfo) → Outcome A → Outcome InstructionInfo
info_or_unknown f (done a) = done (f a)
info_or_unknown f (bail e) = done unknown_info
info_or_unknown f fault = fault

-- The `switch` on the program of an instruction.
unfoldable pub parse_info : ProgramId → Instruction → MessageHeader → Outcome InstructionInfo
parse_info rpl_associated_token_account ix h =
    info_or_unknown associated_info (parse_rpl_associated_token_account_instructions ix h)
parse_info rpl_memo ix h = done rpl_memo_info
parse_info rpl_token ix h = info_or_unknown token_info (parse_rpl_token_instructions ix h)
parse_info system ix h = info_or_unknown system_info (parse_system_instructions ix h)
parse_info stake ix h = info_or_unknown stake_info (parse_stake_instructions ix h)
parse_info vote ix h = info_or_unknown vote_info (parse_vote_instructions ix h)
parse_info unknown ix h = done unknown_info

-- The body of the loop, behind `parse_instruction`.
unfoldable pub info_of_instruction : Instruction → MessageHeader → Outcome InstructionInfo
info_of_instruction instruction header = do
  valid ← instruction_validate instruction header
  program_id ← instruction_program_id instruction header
  parse_info program_id instruction header

-- The loop, with `left` rounds to go.
unfoldable pub parse_infos : ℕ → Parser → MessageHeader → Outcome (List InstructionInfo × Parser)
parse_infos zero parser header = done ([], parser)
parse_infos (suc left) parser header = do
  (instruction, parser) ← parse_instruction parser
  info ← info_of_instruction instruction header
  (infos, parser) ← parse_infos left parser header
  done (info ∷ infos, parser)

-- `display_instruction_info`: the infos that are not ignored.
unfoldable pub displayed : List InstructionInfo → List InstructionInfo
displayed [] = []
displayed (rpl_memo_info ∷ infos) = displayed infos
displayed (info ∷ infos) = info ∷ displayed infos

abbrev pub is_unknown : InstructionInfo → Bool
is_unknown unknown_info = true
is_unknown _ = false

unfoldable pub any_unknown : List InstructionInfo → Bool
any_unknown [] = false
any_unknown (info ∷ infos) = is_unknown info || any_unknown infos

-- The account tables of a versioned message, of which there may be none.
unfoldable pub parse_account_tables : Bool → Parser → Outcome Parser
parse_account_tables false parser = done parser
parse_account_tables true parser = do
  (account_tables_length, parser) ← parse_length parser
  if ltb 0 account_tables_length then bail 1 else done parser

-- What follows the loop, up to the call of `print_transaction`.
unfoldable pub check_body :
    MessageHeader → List InstructionInfo → Parser → Outcome (List InstructionInfo)
check_body header infos parser = do
  parser ← parse_account_tables header.versioned parser
  if not (parser_is_empty parser)
      then bail 1
      else if any_unknown infos
      then bail 1
      else done (displayed infos)

unfoldable pub parse_message_body : Pointer → ℕ → MessageHeader → Outcome (List InstructionInfo)
parse_message_body message_body message_body_length header =
    if header.instructions_length == 0
    then bail 1
    else if ltb max_instructions header.instructions_length
    then bail 1
    else (do
      (infos, parser) ←
          parse_infos header.instructions_length
            (record { buffer = message_body; buffer_length = message_body_length }) header
      check_body header infos parser)

-- The return value, with the summary as it is left.
unfoldable pub process_message_body :
    Pointer → ℕ → PrintConfig → TransactionSummary → Outcome (ℕ × TransactionSummary)
process_message_body message_body message_body_length config s =
    elim (parse_message_body message_body message_body_length config.header) [
      | done infos ↦ print_transaction config infos s
      | bail e ↦ done (e, s)
      | fault ↦ fault
    ]
