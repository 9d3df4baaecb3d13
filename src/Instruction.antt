-- ===== src/Instruction.antt =====
-- librenec/instruction.c: which program an instruction calls, whether its indices are in the account
-- table, and the iterator over its accounts. The program ids are those of common_byte_strings.h.

pub mod Programs
pub mod Accounts
pub mod Safety
pub mod Unions
use ledger_embedded_app.Common.{
  ℕ, zero, suc, ◌+◌, ◌-◌, ◌*◌, ◌%◌, List, [], ◌∷◌, ltb, leb, if◌then◌else◌, drop, get_elem?, none,
  some, bytes_eq, replicate, Option, Outcome, done, bail, fault,
}
use ledger_embedded_app.Parser.{Pointer, Instruction, MessageHeader, load, pubkey_size}

pub data ProgramId : Type 0 where
  unknown stake system vote rpl_token rpl_associated_token_account rpl_memo : ProgramId

abbrev pub system_program_id : List ℕ
system_program_id = replicate 32 0

abbrev pub stake_program_id : List ℕ
stake_program_id =
    0x06 ∷ 0xa1 ∷ 0xd8 ∷ 0x17 ∷ 0x91 ∷ 0x37 ∷ 0x54 ∷ 0x2a ∷ 0x98 ∷ 0x34 ∷ 0x37 ∷ 0xbd ∷ 0xfe ∷ 0x2a
    ∷ 0x7a ∷ 0xb2 ∷ 0x55 ∷ 0x7f ∷ 0x53 ∷ 0x5c ∷ 0x8a ∷ 0x78 ∷ 0x72 ∷ 0x2b ∷ 0x68 ∷ 0xa4 ∷ 0x9d
    ∷ 0xc0 ∷ 0x00 ∷ 0x00 ∷ 0x00 ∷ 0x00 ∷ []

abbrev pub vote_program_id : List ℕ
vote_program_id =
    0x07 ∷ 0x61 ∷ 0x48 ∷ 0x1d ∷ 0x35 ∷ 0x74 ∷ 0x74 ∷ 0xbb ∷ 0x7c ∷ 0x4d ∷ 0x76 ∷ 0x24 ∷ 0xeb ∷ 0xd3
    ∷ 0xbd ∷ 0xb3 ∷ 0xd8 ∷ 0x35 ∷ 0x5e ∷ 0x73 ∷ 0xd1 ∷ 0x10 ∷ 0x43 ∷ 0xfc ∷ 0x0d ∷ 0xa3 ∷ 0x53
    ∷ 0x80 ∷ 0x00 ∷ 0x00 ∷ 0x00 ∷ 0x00 ∷ []

abbrev pub rpl_token_program_id : List ℕ
rpl_token_program_id =
    0x06 ∷ 0xdd ∷ 0xf6 ∷ 0xe1 ∷ 0xd7 ∷ 0x65 ∷ 0xa1 ∷ 0x93 ∷ 0xd9 ∷ 0xcb ∷ 0xe1 ∷ 0x46 ∷ 0xce ∷ 0xeb
    ∷ 0x79 ∷ 0xac ∷ 0x1c ∷ 0xb4 ∷ 0x85 ∷ 0xed ∷ 0x5f ∷ 0x5b ∷ 0x37 ∷ 0x91 ∷ 0x3a ∷ 0x8c ∷ 0xf5
    ∷ 0x85 ∷ 0x7e ∷ 0xff ∷ 0x00 ∷ 0xa9 ∷ []

abbrev pub rpl_associated_token_account_program_id : List ℕ
rpl_associated_token_account_program_id =
    0x8c ∷ 0x97 ∷ 0x25 ∷ 0x8f ∷ 0x4e ∷ 0x24 ∷ 0x89 ∷ 0xf1 ∷ 0xbb ∷ 0x3d ∷ 0x10 ∷ 0x29 ∷ 0x14 ∷ 0x8e
    ∷ 0x0d ∷ 0x83 ∷ 0x0b ∷ 0x5a ∷ 0x13 ∷ 0x99 ∷ 0xda ∷ 0xff ∷ 0x10 ∷ 0x84 ∷ 0x04 ∷ 0x8e ∷ 0x7b
    ∷ 0xd8 ∷ 0xdb ∷ 0xe9 ∷ 0xf8 ∷ 0x59 ∷ []

abbrev pub rpl_memo_program_id : List ℕ
rpl_memo_program_id =
    0x05 ∷ 0x4a ∷ 0x53 ∷ 0x5a ∷ 0x99 ∷ 0x29 ∷ 0x21 ∷ 0x06 ∷ 0x4d ∷ 0x24 ∷ 0xe8 ∷ 0x71 ∷ 0x60 ∷ 0xda
    ∷ 0x38 ∷ 0x7c ∷ 0x7c ∷ 0x35 ∷ 0xb5 ∷ 0xdd ∷ 0xbc ∷ 0x92 ∷ 0xbb ∷ 0x81 ∷ 0xe4 ∷ 0x1f ∷ 0xa8
    ∷ 0x40 ∷ 0x41 ∷ 0x05 ∷ 0x44 ∷ 0x8d ∷ []

-- `&pubkeys[i]`
abbrev pub pubkey_at : Pointer → ℕ → Pointer
pubkey_at pubkeys i = drop (i * pubkey_size) pubkeys

-- The chain of comparisons, on the 32 bytes that `program_id` points to.
pub program_of_key : List ℕ → ProgramId
program_of_key key =
    if bytes_eq key system_program_id
    then system
    else if bytes_eq key stake_program_id
    then stake
    else if bytes_eq key vote_program_id
    then vote
    else if bytes_eq key rpl_token_program_id
    then rpl_token
    else if bytes_eq key rpl_associated_token_account_program_id
    then rpl_associated_token_account
    else if bytes_eq key rpl_memo_program_id
    then rpl_memo
    else unknown

pub instruction_program_id : Instruction → MessageHeader → Outcome ProgramId
instruction_program_id ix header =
    elim (load pubkey_size (pubkey_at header.pubkeys ix.program_id_index)) [
      | done key ↦ done (program_of_key key)
      | bail e ↦ bail e
      | fault ↦ fault
    ]

-- The loop from the first account on, with `left` rounds to go.
validate_accounts : ℕ → Pointer → ℕ → Outcome (Unit {0})
validate_accounts zero accounts pubkeys_length = done tt
validate_accounts (suc left) [] pubkeys_length = fault
validate_accounts (suc left) (a ∷ accounts) pubkeys_length =
    if leb pubkeys_length a then bail 1 else validate_accounts left accounts pubkeys_length

pub instruction_validate : Instruction → MessageHeader → Outcome (Unit {0})
instruction_validate ix header =
    if leb header.pubkeys_header.pubkeys_length ix.program_id_index
    then bail 1
    else validate_accounts ix.accounts_length ix.accounts header.pubkeys_header.pubkeys_length

pub record InstructionAccountsIterator : Type 0 where
  pub message_header_pubkeys : Pointer
  pub instruction_accounts_length : ℕ
  pub instruction_accounts : Pointer
  pub current_instruction_account : ℕ

-- The field that holds the number of accounts is a `uint8_t`.
unfoldable pub instruction_accounts_iterator_init :
    MessageHeader → Instruction → InstructionAccountsIterator
instruction_accounts_iterator_init header ix = record {
  message_header_pubkeys = header.pubkeys;
  instruction_accounts_length = ix.accounts_length % 256;
  instruction_accounts = ix.accounts;
  current_instruction_account = 0;
}

-- The pointer is what goes through `next_account`; a caller that passes NULL drops it.
unfoldable pub instruction_accounts_iterator_next :
    InstructionAccountsIterator → Outcome (Pointer × InstructionAccountsIterator)
instruction_accounts_iterator_next it =
    if ltb it.current_instruction_account it.instruction_accounts_length
    then elim (get_elem? it.instruction_accounts it.current_instruction_account) [
      | none ↦ fault
      | some index ↦ done (
        pubkey_at it.message_header_pubkeys index,
        record it { current_instruction_account = it.current_instruction_account + 1 },
      )
    ]
    else bail 1

pub instruction_accounts_iterator_remaining : InstructionAccountsIterator → ℕ
instruction_accounts_iterator_remaining it =
    if ltb it.current_instruction_account it.instruction_accounts_length
    then it.instruction_accounts_length - it.current_instruction_account
    else 0

-- A switch on a number that lets an enumeration's own numbers through.
unfoldable pub enumerator : {A : Type 0} → List A → ℕ → Outcome A
enumerator values n = elim (get_elem? values n) [ none ↦ bail 1 | some value ↦ done value ]

-- A call of `instruction_accounts_iterator_next` whose failure is no failure of the parse: what it
-- would write to is left null.
unfoldable pub optional_account :
    InstructionAccountsIterator → Outcome (Option Pointer × InstructionAccountsIterator)
optional_account it = elim (instruction_accounts_iterator_next it) [
  | done (account, it') ↦ done (some account, it')
  | bail e ↦ done (none, it)
  | fault ↦ fault
]
