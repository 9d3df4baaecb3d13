-- ===== src/Message/Safety.antt =====
-- Memory safety of the message's body: from its bytes to what is shown of it.
use ledger_embedded_app.Common.{
  ℕ, zero, suc, ◌*◌, ◌≤◌, ◌≡◌, refl, inl, inr, Bool, true, false, List, [], ◌∷◌, arith, ltb, ◌==◌,
  Bool-cases, length, All, length-drop, Outcome, done,
}
use ledger_embedded_app.Parser.{Pointer, Parser, parser_is_empty, MessageHeader, Instruction}
use ledger_embedded_app.Parser.Safety.{IsWithin, parse_length_safe}
use ledger_embedded_app.Parser.Safety.Messages.{InstructionFits, parse_instruction_safe, HeaderFits}
use ledger_embedded_app.Instruction.{
  ProgramId, instruction_validate, unknown, stake, system, vote, rpl_token,
  rpl_associated_token_account, rpl_memo,
}
use ledger_embedded_app.Instruction.Accounts.{instruction_validate_iff, instruction_validate-cases}
use ledger_embedded_app.Instruction.Programs.{instruction_program_id_lem}
use ledger_embedded_app.Instruction.Safety.{IsFine, IsFine-bind, Ends-IsFine, fine, refused}
use ledger_embedded_app.Instruction.Unions.{Gives}
use ledger_embedded_app.Summary.{transaction_summary_reset}
use ledger_embedded_app.Printing.{PrintConfig}
use ledger_embedded_app.Printing.Room.{ConfigFits}
use ledger_embedded_app.System.Safety.{parse_system_instructions_safe}
use ledger_embedded_app.Stake.Parse.Safety.{parse_stake_instructions_safe}
use ledger_embedded_app.Vote.Safety.{parse_vote_instructions_safe}
use ledger_embedded_app.Token.Parse.Safety.{parse_rpl_token_instructions_safe}
use ledger_embedded_app.AssociatedToken.{parse_rpl_associated_token_account_instructions_safe}
use ledger_embedded_app.Transaction.{
  InstructionInfo, unknown_info, rpl_memo_info, associated_info, token_info, stake_info,
  system_info, vote_info,
}
use ledger_embedded_app.Transaction.Matching.{InstructionInfoFits}
use ledger_embedded_app.Transaction.Shown.{
  IsConcluded, concluded_lem, reset-IsFresh, print_transaction-Gives,
}
use ledger_embedded_app.Message.{
  max_instructions, info_or_unknown, parse_info, info_of_instruction, parse_infos, displayed,
  any_unknown, parse_account_tables, check_body, parse_message_body, process_message_body,
}

info_or_unknown-IsFine :
    {A : Type 0} {P : A → Type 0} (f : A → InstructionInfo) {o : Outcome A}
    → ((a : A) → P a → InstructionInfoFits (f a))
    → IsFine P o
    → IsFine InstructionInfoFits (info_or_unknown f o)
info_or_unknown-IsFine f k (fine {a} p) = fine (k a p)
info_or_unknown-IsFine f k (refused n) = fine tt

parse_info-IsFine :
    (program : ProgramId) (ix : Instruction) (h : MessageHeader)
    → InstructionFits ix
    → HeaderFits h
    → instruction_validate ix h ≡ done tt
    → IsFine InstructionInfoFits (parse_info program ix h)
unfolding parse_info
parse_info-IsFine rpl_associated_token_account ix h fi fh v =
    info_or_unknown-IsFine _ (λ _ k. k)
      (parse_rpl_associated_token_account_instructions_safe ix h fi fh v)
parse_info-IsFine rpl_memo ix h fi fh v = fine tt
parse_info-IsFine rpl_token ix h fi fh v =
    info_or_unknown-IsFine _ (λ _ k. k) (parse_rpl_token_instructions_safe ix h fi fh v)
parse_info-IsFine system ix h fi fh v =
    info_or_unknown-IsFine _ (λ _ k. k) (parse_system_instructions_safe ix h fi fh v)
parse_info-IsFine stake ix h fi fh v =
    info_or_unknown-IsFine _ (λ _ k. k) (parse_stake_instructions_safe ix h fi fh v)
parse_info-IsFine vote ix h fi fh v =
    info_or_unknown-IsFine _ (λ _ k. k) (parse_vote_instructions_safe ix h fi fh v)
parse_info-IsFine unknown ix h fi fh v = fine tt

info_of_instruction-IsFine :
    (ix : Instruction) (h : MessageHeader)
    → InstructionFits ix
    → HeaderFits h
    → IsFine InstructionInfoFits (info_of_instruction ix h)
unfolding info_of_instruction
info_of_instruction-IsFine ix h fi fh = elim (instruction_validate-cases ix h fi.accounts_in) [
  | inr no_index ↦ rw no_index (refused (λ e. cc))
  | inl v ↦
      let index = ((instruction_validate_iff ix h fi.accounts_in).0 v).0 in
      rw
        (
          v,
          instruction_program_id_lem ix h
              (omega (arith, fh.pubkeys_in, length-drop (ix.program_id_index * 32) h.pubkeys)),
        )
        (parse_info-IsFine _ ix h fi fh v)
]

parse_infos-IsFine :
    (left : ℕ) (p : Parser) (h : MessageHeader)
    → IsWithin p
    → HeaderFits h
    → IsFine (λ r. All InstructionInfoFits (r.0) × IsWithin (r.1)) (parse_infos left p h)
unfolding parse_infos
parse_infos-IsFine zero p h w fh = fine (tt, w)
parse_infos-IsFine (suc left) p h w fh =
    IsFine-bind (Ends-IsFine w (parse_instruction_safe p w)) λ (ix, q) (fi, wq).
      IsFine-bind (info_of_instruction-IsFine ix h fi fh) λ info fits.
        IsFine-bind (parse_infos-IsFine left q h wq fh)
          λ (infos, r) (all, wr). fine ((fits, all), wr)

displayed-All :
    (infos : List InstructionInfo)
    → All InstructionInfoFits infos
    → All InstructionInfoFits (displayed infos)
unfolding displayed
displayed-All [] k = tt
displayed-All (unknown_info ∷ infos) k = (tt, displayed-All infos (k.1))
displayed-All (rpl_memo_info ∷ infos) k = displayed-All infos (k.1)
displayed-All (associated_info i ∷ infos) k = (k.0, displayed-All infos (k.1))
displayed-All (token_info i ∷ infos) k = (k.0, displayed-All infos (k.1))
displayed-All (stake_info i ∷ infos) k = (k.0, displayed-All infos (k.1))
displayed-All (system_info i ∷ infos) k = (k.0, displayed-All infos (k.1))
displayed-All (vote_info i ∷ infos) k = (k.0, displayed-All infos (k.1))

parse_account_tables-IsFine :
    (versioned : Bool) (p : Parser)
    → IsWithin p
    → IsFine (λ q. Unit {0}) (parse_account_tables versioned p)
unfolding parse_account_tables
parse_account_tables-IsFine false p w = fine tt
parse_account_tables-IsFine true p w =
    IsFine-bind (Ends-IsFine w (parse_length_safe p w)) λ (n, q) _. elim (Bool-cases (ltb 0 n)) [
      | inl some_tables ↦ rw some_tables (refused (λ e. cc))
      | inr no_tables ↦ rw no_tables (fine tt)
    ]

check_body-IsFine :
    (h : MessageHeader) (infos : List InstructionInfo) (p : Parser)
    → All InstructionInfoFits infos
    → IsWithin p
    → IsFine (All InstructionInfoFits) (check_body h infos p)
unfolding check_body
check_body-IsFine h infos p k w = IsFine-bind (parse_account_tables-IsFine h.versioned p w) λ q _.
    elim (Bool-cases (parser_is_empty q)) [
      | inr more ↦ rw more (refused (λ e. cc))
      | inl whole ↦ rw whole (elim (Bool-cases (any_unknown infos)) [
        | inl one ↦ rw one (refused (λ e. cc))
        | inr known ↦ rw known (fine (displayed-All infos k))
      ])
    ]

parse_message_body-IsFine :
    (body : Pointer) (n : ℕ) (h : MessageHeader)
    → n ≤ length body
    → HeaderFits h
    → IsFine (All InstructionInfoFits) (parse_message_body body n h)
unfolding parse_message_body
parse_message_body-IsFine body n h w fh = elim (Bool-cases (h.instructions_length == 0)) [
  | inl none_there ↦ rw none_there (refused (λ e. cc))
  | inr there ↦ rw there (elim (Bool-cases (ltb max_instructions h.instructions_length)) [
    | inl many ↦ rw many (refused (λ e. cc))
    | inr few ↦ rw few (
        IsFine-bind
          (parse_infos-IsFine h.instructions_length (record { buffer = body; buffer_length = n }) h
            w fh)
          λ (infos, q) (k, wq). check_body-IsFine h infos q k wq)
  ])
]

process_of :
    {o : Outcome (List InstructionInfo)} (body : Pointer) (n : ℕ) (config : PrintConfig)
    → o ≡ parse_message_body body n config.header
    → ConfigFits config
    → IsFine (All InstructionInfoFits) o
    → Gives IsConcluded (process_message_body body n config transaction_summary_reset)
unfolding process_message_body
process_of body n config e f (fine {a} k) =
    rw (← e, process_message_body) (print_transaction-Gives config a f k)
process_of body n config e f (refused {e = code} c) =
    rw (← e, process_message_body)
      (concluded_lem transaction_summary_reset reset-IsFresh (refused c))

-- On any body whose announced bytes are there, behind a header whose account keys are there, with the
-- signer's key there to read, and in either display mode: `process_message_body` on a fresh summary
-- ends, and reads and writes nothing that is not there; no setter is given a null pointer. It answers
-- 0 exactly where the primary item is then set; where it answers another value, no general item is
-- set. The fee payer is left free.
pub process_message_body_safe :
    (body : Pointer) (n : ℕ) (config : PrintConfig)
    → n ≤ length body
    → HeaderFits config.header
    → ConfigFits config
    → Gives IsConcluded (process_message_body body n config transaction_summary_reset)
process_message_body_safe body n config w fh f =
    process_of body n config refl f (parse_message_body-IsFine body n config.header w fh)
