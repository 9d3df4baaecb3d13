-- ===== src/System.antt =====
-- librenec/system_instruction.c and system_instruction.h: the instructions of the system program. A
-- function that fills an info through a pointer gives it back with the parser as it left it; an
-- account that the code skips is a call of the iterator whose key is dropped.
pub mod Print
pub mod Safety
pub mod Transfer
pub mod Shown
pub mod Kinds
use ledger_embedded_app.Common.{
  ℕ, ◌≡◌, Bool, true, false, List, [], ◌∷◌, Option, none, get_elem?, some, Outcome, done, bail,
  fault, ◌>>=◌,
}
use ledger_embedded_app.Parser.{
  Pointer, Parser, SizedString, Instruction, MessageHeader, parse_u32, parse_u64, parse_pubkey,
  parse_sized_string,
}
use ledger_embedded_app.Instruction.{
  instruction_accounts_iterator_init, instruction_accounts_iterator_next,
}

pub data SystemInstructionKind : Type 0 where
  create_account assign transfer create_account_with_seed : SystemInstructionKind
  advance_nonce_account withdraw_nonce_account initialize_nonce_account : SystemInstructionKind
  authorize_nonce_account allocate allocate_with_seed assign_with_seed : SystemInstructionKind

pub record SystemCreateAccountInfo : Type 0 where
  pub from : Pointer
  pub to : Pointer
  pub lamports : ℕ

pub record SystemCreateAccountWithSeedInfo : Type 0 where
  pub from : Pointer
  pub to : Pointer
  pub base : Pointer
  pub seed : SizedString
  pub lamports : ℕ

pub record SystemTransferInfo : Type 0 where
  pub from : Pointer
  pub to : Pointer
  pub lamports : ℕ

pub record SystemAdvanceNonceInfo : Type 0 where
  pub account : Pointer
  pub authority : Pointer

pub record SystemInitializeNonceInfo : Type 0 where
  pub account : Pointer
  pub authority : Pointer

pub record SystemWithdrawNonceInfo : Type 0 where
  pub account : Pointer
  pub authority : Pointer
  pub to : Pointer
  pub lamports : ℕ

pub record SystemAuthorizeNonceInfo : Type 0 where
  pub account : Pointer
  pub authority : Pointer
  pub new_authority : Pointer

pub record SystemAllocateInfo : Type 0 where
  pub account : Pointer
  pub space : ℕ

pub record SystemAssignInfo : Type 0 where
  pub account : Pointer
  pub program_id : Pointer

pub record SystemAllocateWithSeedInfo : Type 0 where
  pub account : Pointer
  pub base : Pointer
  pub seed : SizedString
  pub space : ℕ
  pub program_id : Pointer

-- The union, tagged by its kind.
pub data SystemInfo : Type 0 where
  transfer_info : SystemTransferInfo → SystemInfo
  create_account_info : SystemCreateAccountInfo → SystemInfo
  create_account_with_seed_info : SystemCreateAccountWithSeedInfo → SystemInfo
  advance_nonce_info : SystemAdvanceNonceInfo → SystemInfo
  initialize_nonce_info : SystemInitializeNonceInfo → SystemInfo
  withdraw_nonce_info : SystemWithdrawNonceInfo → SystemInfo
  authorize_nonce_info : SystemAuthorizeNonceInfo → SystemInfo
  allocate_info : SystemAllocateInfo → SystemInfo
  assign_info : SystemAssignInfo → SystemInfo
  allocate_with_seed_info : SystemAllocateWithSeedInfo → SystemInfo

-- The enumerators by their numbers, which count from 0.
abbrev pub system_kinds : List SystemInstructionKind
system_kinds =
    create_account ∷ assign ∷ transfer ∷ create_account_with_seed ∷ advance_nonce_account
    ∷ withdraw_nonce_account ∷ initialize_nonce_account ∷ authorize_nonce_account ∷ allocate
    ∷ allocate_with_seed ∷ assign_with_seed ∷ []

-- The switch of `parse_system_instruction_kind`.
system_kind : ℕ → Outcome SystemInstructionKind
system_kind maybe_kind = elim (get_elem? system_kinds maybe_kind) [
  | none ↦ bail 1
  | some kind ↦ done kind
]

parse_system_instruction_kind : Parser → Outcome (SystemInstructionKind × Parser)
parse_system_instruction_kind parser = do
  (maybe_kind, parser) ← parse_u32 parser
  kind ← system_kind maybe_kind
  done (kind, parser)

abbrev pub InfoParser : Type 0 → Type 0
InfoParser Info = Parser → Instruction → MessageHeader → Outcome (Info × Parser)

parse_system_transfer_instruction : InfoParser SystemTransferInfo
parse_system_transfer_instruction parser instruction header = do
  (from, it) ←
      instruction_accounts_iterator_next (instruction_accounts_iterator_init header instruction)
  (to, it) ← instruction_accounts_iterator_next it
  (lamports, parser) ← parse_u64 parser
  done (record { from = from; to = to; lamports = lamports }, parser)

parse_system_create_account_instruction : InfoParser SystemCreateAccountInfo
parse_system_create_account_instruction parser instruction header = do
  (from, it) ←
      instruction_accounts_iterator_next (instruction_accounts_iterator_init header instruction)
  (to, it) ← instruction_accounts_iterator_next it
  (lamports, parser) ← parse_u64 parser
  done (record { from = from; to = to; lamports = lamports }, parser)

parse_system_create_account_with_seed_instruction : InfoParser SystemCreateAccountWithSeedInfo
parse_system_create_account_with_seed_instruction parser instruction header = do
  (from, it) ←
      instruction_accounts_iterator_next (instruction_accounts_iterator_init header instruction)
  (to, it) ← instruction_accounts_iterator_next it
  (base, parser) ← parse_pubkey parser
  (seed, parser) ← parse_sized_string parser
  (lamports, parser) ← parse_u64 parser
  done (record { from = from; to = to; base = base; seed = seed; lamports = lamports }, parser)

parse_system_advance_nonce_account_instruction : InfoParser SystemAdvanceNonceInfo
parse_system_advance_nonce_account_instruction parser instruction header = do
  (account, it) ←
      instruction_accounts_iterator_next (instruction_accounts_iterator_init header instruction)
  (_, it) ← instruction_accounts_iterator_next it
  (authority, it) ← instruction_accounts_iterator_next it
  done (record { account = account; authority = authority }, parser)

parse_system_initialize_nonce_account_instruction : InfoParser SystemInitializeNonceInfo
parse_system_initialize_nonce_account_instruction parser instruction header = do
  (account, it) ←
      instruction_accounts_iterator_next (instruction_accounts_iterator_init header instruction)
  (_, it) ← instruction_accounts_iterator_next it
  (_, it) ← instruction_accounts_iterator_next it
  (authority, parser) ← parse_pubkey parser
  done (record { account = account; authority = authority }, parser)

parse_system_withdraw_nonce_account_instruction : InfoParser SystemWithdrawNonceInfo
parse_system_withdraw_nonce_account_instruction parser instruction header = do
  (account, it) ←
      instruction_accounts_iterator_next (instruction_accounts_iterator_init header instruction)
  (to, it) ← instruction_accounts_iterator_next it
  (_, it) ← instruction_accounts_iterator_next it
  (_, it) ← instruction_accounts_iterator_next it
  (authority, it) ← instruction_accounts_iterator_next it
  (lamports, parser) ← parse_u64 parser
  done (record { account = account; authority = authority; to = to; lamports = lamports }, parser)

parse_system_authorize_nonce_account_instruction : InfoParser SystemAuthorizeNonceInfo
parse_system_authorize_nonce_account_instruction parser instruction header = do
  (account, it) ←
      instruction_accounts_iterator_next (instruction_accounts_iterator_init header instruction)
  (authority, it) ← instruction_accounts_iterator_next it
  (new_authority, parser) ← parse_pubkey parser
  done (record { account = account; authority = authority; new_authority = new_authority }, parser)

parse_system_allocate_instruction : InfoParser SystemAllocateInfo
parse_system_allocate_instruction parser instruction header = do
  (account, it) ←
      instruction_accounts_iterator_next (instruction_accounts_iterator_init header instruction)
  (space, parser) ← parse_u64 parser
  done (record { account = account; space = space }, parser)

parse_system_assign_instruction : InfoParser SystemAssignInfo
parse_system_assign_instruction parser instruction header = do
  (account, it) ←
      instruction_accounts_iterator_next (instruction_accounts_iterator_init header instruction)
  (program_id, parser) ← parse_pubkey parser
  done (record { account = account; program_id = program_id }, parser)

parse_system_allocate_with_seed_instruction : InfoParser SystemAllocateWithSeedInfo
parse_system_allocate_with_seed_instruction parser instruction header = do
  (account, it) ←
      instruction_accounts_iterator_next (instruction_accounts_iterator_init header instruction)
  (_, it) ← instruction_accounts_iterator_next it
  (base, parser) ← parse_pubkey parser
  (seed, parser) ← parse_sized_string parser
  (space, parser) ← parse_u64 parser
  (program_id, parser) ← parse_pubkey parser
  done (
    record { account = account; base = base; seed = seed; space = space; program_id = program_id },
    parser,
  )

-- The info of one kind as the union, its parser dropped.
abbrev as_info :
    {Info : Type 0} → (Info → SystemInfo) → Outcome (Info × Parser) → Outcome SystemInfo
as_info f o = do (info, parser) ← o; done (f info)

parse_system_of_kind :
    SystemInstructionKind → Parser → Instruction → MessageHeader → Outcome SystemInfo
parse_system_of_kind transfer p ix h =
    as_info transfer_info (parse_system_transfer_instruction p ix h)
parse_system_of_kind advance_nonce_account p ix h =
    as_info advance_nonce_info (parse_system_advance_nonce_account_instruction p ix h)
parse_system_of_kind create_account p ix h =
    as_info create_account_info (parse_system_create_account_instruction p ix h)
parse_system_of_kind create_account_with_seed p ix h =
    as_info create_account_with_seed_info (parse_system_create_account_with_seed_instruction p ix h)
parse_system_of_kind initialize_nonce_account p ix h =
    as_info initialize_nonce_info (parse_system_initialize_nonce_account_instruction p ix h)
parse_system_of_kind withdraw_nonce_account p ix h =
    as_info withdraw_nonce_info (parse_system_withdraw_nonce_account_instruction p ix h)
parse_system_of_kind authorize_nonce_account p ix h =
    as_info authorize_nonce_info (parse_system_authorize_nonce_account_instruction p ix h)
parse_system_of_kind assign p ix h = as_info assign_info (parse_system_assign_instruction p ix h)
parse_system_of_kind allocate p ix h =
    as_info allocate_info (parse_system_allocate_instruction p ix h)
parse_system_of_kind allocate_with_seed p ix h =
    as_info allocate_with_seed_info (parse_system_allocate_with_seed_instruction p ix h)
parse_system_of_kind assign_with_seed p ix h = bail 1

pub parse_system_instructions : Instruction → MessageHeader → Outcome SystemInfo
parse_system_instructions instruction header = do
  (kind, parser) ←
      parse_system_instruction_kind
        (record { buffer = instruction.data_bytes; buffer_length = instruction.data_length })
  parse_system_of_kind kind parser instruction header
