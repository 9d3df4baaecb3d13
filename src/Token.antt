-- ===== src/Token.antt =====
-- librenec/rpl_token_instruction.h and librenec/token_info.c: what an instruction of the token program
-- is parsed to, and the symbols of the tokens. The kinds and authority types are those of
-- librenec/include/rpl/token.h.
pub mod Parse
pub mod Print
pub mod Shown
pub mod Kinds
use ledger_embedded_app.Common.{
  ℕ, Option, List, [], ◌∷◌, Outcome, done, ◌>>=◌, if◌then◌else◌, codes, bytes_eq,
}
use ledger_embedded_app.Parser.{Pointer, load, pubkey_size}
use ledger_embedded_app.Instruction.{rpl_token_program_id}

-- `Token_MAX_SIGNERS`
abbrev pub token_max_signers : ℕ
token_max_signers = 11

pub data RplTokenInstructionKind : Type 0 where
  initialize_mint initialize_account initialize_multisig transfer : RplTokenInstructionKind
  approve revoke set_authority mint_to burn close_account : RplTokenInstructionKind
  freeze_account thaw_account transfer_checked approve_checked : RplTokenInstructionKind
  mint_to_checked burn_checked initialize_account2 sync_native : RplTokenInstructionKind

-- The enumerators by their numbers, which count from 0.
abbrev pub token_kinds : List RplTokenInstructionKind
token_kinds =
    initialize_mint ∷ initialize_account ∷ initialize_multisig ∷ transfer ∷ approve ∷ revoke
    ∷ set_authority ∷ mint_to ∷ burn ∷ close_account ∷ freeze_account ∷ thaw_account
    ∷ transfer_checked ∷ approve_checked ∷ mint_to_checked ∷ burn_checked ∷ initialize_account2
    ∷ sync_native ∷ []

pub data TokenAuthorityType : Type 0 where
  mint_tokens freeze_authority_type account_owner close_authority_type : TokenAuthorityType

abbrev pub token_authority_types : List TokenAuthorityType
token_authority_types =
    mint_tokens ∷ freeze_authority_type ∷ account_owner ∷ close_authority_type ∷ []

pub record RplTokenMultisigners : Type 0 where
  pub first : Pointer
  pub count : ℕ

pub data RplTokenSign : Type 0 where
  single : Pointer → RplTokenSign
  multi : Pointer → RplTokenMultisigners → RplTokenSign

-- `freeze_authority` may be null.
pub record RplTokenInitializeMintInfo : Type 0 where
  pub mint_account : Pointer
  pub mint_authority : Pointer
  pub freeze_authority : Option Pointer
  pub decimals : ℕ

pub record RplTokenInitializeAccountInfo : Type 0 where
  pub token_account : Pointer
  pub mint_account : Pointer
  pub owner : Pointer

-- `m` is the only field of `body`.
pub record RplTokenInitializeMultisigInfo : Type 0 where
  pub multisig_account : Pointer
  pub signers : RplTokenMultisigners
  pub m : ℕ

-- The bodies of the four instructions that move or allow an amount have the same fields.
pub record RplTokenCheckedBody : Type 0 where
  pub amount : ℕ
  pub decimals : ℕ

pub record RplTokenTransferInfo : Type 0 where
  pub src_account : Pointer
  pub dest_account : Pointer
  pub mint_account : Pointer
  pub sign : RplTokenSign
  pub body : RplTokenCheckedBody

pub record RplTokenApproveInfo : Type 0 where
  pub token_account : Pointer
  pub delegate : Pointer
  pub mint_account : Pointer
  pub sign : RplTokenSign
  pub body : RplTokenCheckedBody

pub record RplTokenRevokeInfo : Type 0 where
  pub token_account : Pointer
  pub sign : RplTokenSign

-- `new_authority` may be null.
pub record RplTokenSetAuthorityInfo : Type 0 where
  pub account : Pointer
  pub new_authority : Option Pointer
  pub authority_type : TokenAuthorityType
  pub sign : RplTokenSign

pub record RplTokenMintToInfo : Type 0 where
  pub mint_account : Pointer
  pub token_account : Pointer
  pub sign : RplTokenSign
  pub body : RplTokenCheckedBody

pub record RplTokenBurnInfo : Type 0 where
  pub token_account : Pointer
  pub mint_account : Pointer
  pub sign : RplTokenSign
  pub body : RplTokenCheckedBody

pub record RplTokenCloseAccountInfo : Type 0 where
  pub token_account : Pointer
  pub dest_account : Pointer
  pub sign : RplTokenSign

pub record RplTokenFreezeAccountInfo : Type 0 where
  pub token_account : Pointer
  pub mint_account : Pointer
  pub sign : RplTokenSign

pub record RplTokenThawAccountInfo : Type 0 where
  pub token_account : Pointer
  pub mint_account : Pointer
  pub sign : RplTokenSign

pub record RplTokenSyncNativeInfo : Type 0 where
  pub token_account : Pointer

-- The union, tagged by its kind.
pub data RplTokenInfo : Type 0 where
  initialize_mint_info : RplTokenInitializeMintInfo → RplTokenInfo
  initialize_account_info initialize_account2_info : RplTokenInitializeAccountInfo → RplTokenInfo
  initialize_multisig_info : RplTokenInitializeMultisigInfo → RplTokenInfo
  transfer_info : RplTokenTransferInfo → RplTokenInfo
  approve_info : RplTokenApproveInfo → RplTokenInfo
  revoke_info : RplTokenRevokeInfo → RplTokenInfo
  set_owner_info : RplTokenSetAuthorityInfo → RplTokenInfo
  mint_to_info : RplTokenMintToInfo → RplTokenInfo
  burn_info : RplTokenBurnInfo → RplTokenInfo
  close_account_info : RplTokenCloseAccountInfo → RplTokenInfo
  freeze_account_info : RplTokenFreezeAccountInfo → RplTokenInfo
  thaw_account_info : RplTokenThawAccountInfo → RplTokenInfo
  sync_native_info : RplTokenSyncNativeInfo → RplTokenInfo

-- `struct token_info`
pub record TokenInfo : Type 0 where
  pub mint_address : List ℕ
  pub symbol : List ℕ

abbrev pub token_infos : List TokenInfo
token_infos = record { mint_address = rpl_token_program_id; symbol = codes "WRENEC" } ∷ []

-- The loop of `get_token_symbol`, on the key that is looked for.
abbrev pub symbol_among : List TokenInfo → List ℕ → List ℕ
symbol_among [] key = codes "???"
symbol_among (info ∷ infos) key =
    let rest = symbol_among infos key in
    if bytes_eq info.mint_address key then info.symbol else rest

unfoldable pub get_token_symbol : Pointer → Outcome (List ℕ)
get_token_symbol mint_address = do
  key ← load pubkey_size mint_address
  done (symbol_among token_infos key)
