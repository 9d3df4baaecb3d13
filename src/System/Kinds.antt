-- ===== src/System/Kinds.antt =====
-- The tag of SystemInfo and the members of its union, which a caller reads by the tag that it has compared.
use ledger_embedded_app.Common.{ℕ, Bool, true, ◌≡◌, refl, ◌==◌, Outcome, done, fault}
use ledger_embedded_app.Instruction.Safety.{IsKey}
use ledger_embedded_app.Instruction.Unions.{Gives}
use ledger_embedded_app.System.{
  SystemInstructionKind, SystemInfo, SystemAdvanceNonceInfo, SystemAllocateWithSeedInfo,
  SystemCreateAccountInfo, SystemCreateAccountWithSeedInfo, SystemInitializeNonceInfo,
  create_account, assign, transfer, create_account_with_seed, advance_nonce_account,
  withdraw_nonce_account, initialize_nonce_account, authorize_nonce_account, allocate,
  allocate_with_seed, assign_with_seed, transfer_info, create_account_info,
  create_account_with_seed_info, advance_nonce_info, initialize_nonce_info, withdraw_nonce_info,
  authorize_nonce_info, allocate_info, assign_info, allocate_with_seed_info,
}
use ledger_embedded_app.System.Safety.{InfoFits}

-- The number of an enumerator.
abbrev pub system_number : SystemInstructionKind → ℕ
system_number create_account = 0
system_number assign = 1
system_number transfer = 2
system_number create_account_with_seed = 3
system_number advance_nonce_account = 4
system_number withdraw_nonce_account = 5
system_number initialize_nonce_account = 6
system_number authorize_nonce_account = 7
system_number allocate = 8
system_number allocate_with_seed = 9
system_number assign_with_seed = 10

-- `kind` of the union
abbrev pub system_kind_of : SystemInfo → SystemInstructionKind
system_kind_of (transfer_info i) = transfer
system_kind_of (create_account_info i) = create_account
system_kind_of (create_account_with_seed_info i) = create_account_with_seed
system_kind_of (advance_nonce_info i) = advance_nonce_account
system_kind_of (initialize_nonce_info i) = initialize_nonce_account
system_kind_of (withdraw_nonce_info i) = withdraw_nonce_account
system_kind_of (authorize_nonce_info i) = authorize_nonce_account
system_kind_of (allocate_info i) = allocate
system_kind_of (assign_info i) = assign
system_kind_of (allocate_with_seed_info i) = allocate_with_seed

abbrev pub is_system_kind : SystemInstructionKind → SystemInfo → Bool
is_system_kind kind info = system_number kind == system_number (system_kind_of info)

-- The member `create_account`. A read under another tag is a fault.
unfoldable pub system_create_account_of : SystemInfo → Outcome SystemCreateAccountInfo
system_create_account_of (create_account_info i) = done i
system_create_account_of _ = fault

-- The member `create_account_with_seed`. A read under another tag is a fault.
unfoldable pub system_create_account_with_seed_of :
    SystemInfo → Outcome SystemCreateAccountWithSeedInfo
system_create_account_with_seed_of (create_account_with_seed_info i) = done i
system_create_account_with_seed_of _ = fault

-- The member `advance_nonce`. A read under another tag is a fault.
unfoldable pub system_advance_nonce_of : SystemInfo → Outcome SystemAdvanceNonceInfo
system_advance_nonce_of (advance_nonce_info i) = done i
system_advance_nonce_of _ = fault

-- The member `initialize_nonce`. A read under another tag is a fault.
unfoldable pub system_initialize_nonce_of : SystemInfo → Outcome SystemInitializeNonceInfo
system_initialize_nonce_of (initialize_nonce_info i) = done i
system_initialize_nonce_of _ = fault

-- The member `allocate_with_seed`. A read under another tag is a fault.
unfoldable pub system_allocate_with_seed_of : SystemInfo → Outcome SystemAllocateWithSeedInfo
system_allocate_with_seed_of (allocate_with_seed_info i) = done i
system_allocate_with_seed_of _ = fault

pub system_create_account_of-create_account :
    (info : SystemInfo)
    → InfoFits info
    → is_system_kind create_account info ≡ true
    → Gives (λ i. IsKey i.from) (system_create_account_of info)
unfolding system_create_account_of
system_create_account_of-create_account (create_account_info i) k e = record {
  value = i;
  gives = refl;
  fits = k.0;
}
system_create_account_of-create_account _ k e = absurd cc

pub system_create_account_with_seed_of-create_account_with_seed :
    (info : SystemInfo)
    → InfoFits info
    → is_system_kind create_account_with_seed info ≡ true
    → Gives (λ i. IsKey i.from) (system_create_account_with_seed_of info)
unfolding system_create_account_with_seed_of
system_create_account_with_seed_of-create_account_with_seed (create_account_with_seed_info i) k e =
    record { value = i; gives = refl; fits = k.0 }
system_create_account_with_seed_of-create_account_with_seed _ k e = absurd cc

pub system_advance_nonce_of-advance_nonce_account :
    (info : SystemInfo)
    → InfoFits info
    → is_system_kind advance_nonce_account info ≡ true
    → Gives (λ i. Unit {0}) (system_advance_nonce_of info)
unfolding system_advance_nonce_of
system_advance_nonce_of-advance_nonce_account (advance_nonce_info i) k e = record {
  value = i;
  gives = refl;
  fits = tt;
}
system_advance_nonce_of-advance_nonce_account _ k e = absurd cc

pub system_initialize_nonce_of-initialize_nonce_account :
    (info : SystemInfo)
    → InfoFits info
    → is_system_kind initialize_nonce_account info ≡ true
    → Gives (λ i. Unit {0}) (system_initialize_nonce_of info)
unfolding system_initialize_nonce_of
system_initialize_nonce_of-initialize_nonce_account (initialize_nonce_info i) k e = record {
  value = i;
  gives = refl;
  fits = tt;
}
system_initialize_nonce_of-initialize_nonce_account _ k e = absurd cc

pub system_allocate_with_seed_of-allocate_with_seed :
    (info : SystemInfo)
    → InfoFits info
    → is_system_kind allocate_with_seed info ≡ true
    → Gives (λ i. Unit {0}) (system_allocate_with_seed_of info)
unfolding system_allocate_with_seed_of
system_allocate_with_seed_of-allocate_with_seed (allocate_with_seed_info i) k e = record {
  value = i;
  gives = refl;
  fits = tt;
}
system_allocate_with_seed_of-allocate_with_seed _ k e = absurd cc
