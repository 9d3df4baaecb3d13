-- ===== src/Token/Shown.antt =====
-- Every instruction of the token program that parses can be shown.
use ledger_embedded_app.Common.{
  ◌≡◌, refl, ℕ, true, false, List, length, take, Option, none, some, done, bail, arith, le→leb,
  Bool-cases, inl, inr, ◌⊎◌, ◌++◌, codes, ltb, ◌≢◌,
}
use ledger_embedded_app.Parser.{Pointer, Instruction}
use ledger_embedded_app.Parser.Safety.Messages.{InstructionFits, HeaderFits}
use ledger_embedded_app.Instruction.{instruction_validate, pubkey_at}
use ledger_embedded_app.Instruction.Safety.{IsKey}
use ledger_embedded_app.Summary.{token_amount, string, is_used, kind_of}
use ledger_embedded_app.Printing.{PrintConfig}
use ledger_embedded_app.Printing.Room.{
  Prints, Shows, ConfigFits, general-Prints, general_authority-Prints, when-Prints, then-Prints,
  done-Prints, ask-Prints, ask-Shows, primary-Shows, only_primary-Shows, Shows-weaken,
  Prints-weaken,
}
use ledger_embedded_app.Token.{
  RplTokenSign, single, multi, RplTokenTransferInfo, RplTokenCheckedBody, RplTokenMintToInfo,
  RplTokenBurnInfo, RplTokenApproveInfo, RplTokenSetAuthorityInfo, RplTokenInfo, token_infos,
  symbol_among, get_token_symbol, token_max_signers, initialize_mint_info, initialize_account_info,
  initialize_account2_info, initialize_multisig_info, transfer_info, approve_info, revoke_info,
  set_owner_info, mint_to_info, burn_info, close_account_info, freeze_account_info,
  thaw_account_info, sync_native_info,
}
use ledger_embedded_app.Token.Print.{
  count_digits, m_of_n_max_len, print_m_of_n_string, general_multisig_m_of_n, print_rpl_token_sign,
  general_key, tokens, print_rpl_token_info, print_rpl_token_initialize_mint_info,
  print_rpl_token_initialize_account_info, print_rpl_token_initialize_multisig_info,
  print_rpl_token_transfer_info, print_rpl_token_approve_info, print_rpl_token_revoke_info,
  print_rpl_token_set_authority_info, print_rpl_token_mint_to_info, print_rpl_token_burn_info,
  print_rpl_token_close_account_info, print_rpl_token_freeze_account_info,
  print_rpl_token_thaw_account_info, print_rpl_token_sync_native_info,
}
use ledger_embedded_app.Token.Parse.{parse_rpl_token_instructions}
use ledger_embedded_app.Token.Parse.Safety.{
  SignFits, TokenInfoFits, parse_rpl_token_instructions_safe,
}
use ledger_embedded_app.Printing.FeePayer.{IsShown, Shows-IsShown, IsFine-IsShown}

pub tokens_lem :
    (mint : Pointer) (body : RplTokenCheckedBody)
    → IsKey mint
    → tokens mint body
      ≡ done (
          token_amount (record {
            value = body.amount;
            symbol = symbol_among token_infos (take 32 mint);
            decimals = body.decimals;
          }))
unfolding get_token_symbol
tokens_lem mint body k = rw (le→leb 32 (length mint) k, get_token_symbol) refl

m_of_n_cases :
    (m n : ℕ)
    → (print_m_of_n_string m n m_of_n_max_len ≡ bail 1)
      ⊎ ((str : List ℕ) × (print_m_of_n_string m n m_of_n_max_len ≡ done str))
unfolding print_m_of_n_string
m_of_n_cases m n = elim (Bool-cases (ltb token_max_signers n)) [
  | inl many ↦ inl (rw many refl)
  | inr few ↦ elim (Bool-cases (ltb n m)) [
    | inl more ↦ inl (rw (few, more) refl)
    | inr fits ↦ inr (count_digits m ++ (codes " of " ++ count_digits n), rw (few, fits) refl)
  ]
]

pub m_of_n-Prints : {R : ℕ → Type 0} (m n : ℕ) → Prints R 1 (general_multisig_m_of_n m n)
unfolding general_multisig_m_of_n
m_of_n-Prints m n = record {
  prints = λ s k h. elim (m_of_n_cases m n) [
    | inl none_shown ↦ rw (none_shown, general_multisig_m_of_n) ((done-Prints 1).prints s k h)
    | inr (str, e) ↦ rw (e, general_multisig_m_of_n) ((general-Prints _ (string str)).prints s k h)
  ];
}

pub general_key-Prints :
    {R : ℕ → Type 0} (title : List ℕ) (key : Option Pointer) → Prints R 1 (general_key title key)
general_key-Prints title none = done-Prints 1
general_key-Prints title (some key) = general-Prints _ _

module _ {R : ℕ → Type 0} (config : PrintConfig) (f : ConfigFits config) where
  sign-Prints :
      (sign : RplTokenSign) → SignFits sign → Prints R 2 (print_rpl_token_sign sign config)
  unfolding print_rpl_token_sign
  sign-Prints (single signer) k =
      Prints-weaken 2 (omega arith) (general_authority-Prints _ signer config f k)
  sign-Prints (multi account signers) k = then-Prints (general-Prints _ _) (general-Prints _ _)

  -- A transfer that is shown behind another primary item.
  pub transfer-Prints :
      (i : RplTokenTransferInfo)
      → IsKey i.mint_account
      → SignFits i.sign
      → Prints R 5 (print_rpl_token_transfer_info i config false)
  unfolding print_rpl_token_transfer_info
  transfer-Prints i km ks = ask-Prints _ _ (tokens_lem i.mint_account i.body km) (
      then-Prints (general-Prints _ _) (
        then-Prints (general-Prints _ _)
          (then-Prints (general-Prints _ _) (sign-Prints i.sign ks))))

  transfer-Shows :
      (i : RplTokenTransferInfo)
      → IsKey i.mint_account
      → SignFits i.sign
      → Shows R 4 (print_rpl_token_transfer_info i config true)
  unfolding print_rpl_token_transfer_info is_used kind_of
  transfer-Shows i km ks = ask-Shows _ _ (tokens_lem i.mint_account i.body km) (
      primary-Shows _ _ refl (
        then-Prints (general-Prints _ _)
          (then-Prints (general-Prints _ _) (sign-Prints i.sign ks))))

  approve-Shows :
      (i : RplTokenApproveInfo)
      → IsKey i.mint_account
      → SignFits i.sign
      → Shows R 4 (print_rpl_token_approve_info i config)
  unfolding print_rpl_token_approve_info is_used kind_of
  approve-Shows i km ks = primary-Shows _ _ refl (
      ask-Prints _ _ (tokens_lem i.mint_account i.body km) (
        then-Prints (general-Prints _ _)
          (then-Prints (general-Prints _ _) (sign-Prints i.sign ks))))

  mint_to-Shows :
      (i : RplTokenMintToInfo)
      → IsKey i.mint_account
      → SignFits i.sign
      → Shows R 4 (print_rpl_token_mint_to_info i config)
  unfolding print_rpl_token_mint_to_info is_used kind_of
  mint_to-Shows i km ks = ask-Shows _ _ (tokens_lem i.mint_account i.body km) (
      primary-Shows _ _ refl (
        then-Prints (when-Prints config.expert_mode (general-Prints _ _))
          (then-Prints (general-Prints _ _) (sign-Prints i.sign ks))))

  burn-Shows :
      (i : RplTokenBurnInfo)
      → IsKey i.mint_account
      → SignFits i.sign
      → Shows R 4 (print_rpl_token_burn_info i config)
  unfolding print_rpl_token_burn_info is_used kind_of
  burn-Shows i km ks = ask-Shows _ _ (tokens_lem i.mint_account i.body km) (
      Shows-weaken 4 (omega arith)
        (primary-Shows _ _ refl (then-Prints (general-Prints _ _) (sign-Prints i.sign ks))))

  set_authority-Shows :
      (i : RplTokenSetAuthorityInfo)
      → SignFits i.sign
      → Shows R 4 (print_rpl_token_set_authority_info i config)
  unfolding print_rpl_token_set_authority_info is_used kind_of
  set_authority-Shows i ks = primary-Shows _ _ refl (
      then-Prints (general-Prints _ _)
        (then-Prints (general_key-Prints _ i.new_authority) (sign-Prints i.sign ks)))

  pub print_rpl_token_info-Shows :
      (info : RplTokenInfo) → TokenInfoFits info → Shows R 4 (print_rpl_token_info info config)
  unfolding print_rpl_token_info print_rpl_token_initialize_mint_info
      print_rpl_token_initialize_account_info print_rpl_token_initialize_multisig_info
      print_rpl_token_revoke_info print_rpl_token_close_account_info
      print_rpl_token_freeze_account_info print_rpl_token_thaw_account_info
      print_rpl_token_sync_native_info is_used kind_of
  print_rpl_token_info-Shows (initialize_mint_info i) k = Shows-weaken 4 (omega arith) (
      primary-Shows _ _ refl (
        then-Prints (general-Prints _ _)
          (then-Prints (general-Prints _ _) (general_key-Prints _ i.freeze_authority))))
  print_rpl_token_info-Shows (initialize_account_info i) k =
      Shows-weaken 4 (omega arith)
        (primary-Shows _ _ refl (then-Prints (general-Prints _ _) (general-Prints _ _)))
  print_rpl_token_info-Shows (initialize_account2_info i) k =
      Shows-weaken 4 (omega arith)
        (primary-Shows _ _ refl (then-Prints (general-Prints _ _) (general-Prints _ _)))
  print_rpl_token_info-Shows (initialize_multisig_info i) k =
      Shows-weaken 4 (omega arith) (primary-Shows _ _ refl (m_of_n-Prints i.m i.signers.count))
  print_rpl_token_info-Shows (transfer_info i) k = transfer-Shows i (k.2) (k.3)
  print_rpl_token_info-Shows (approve_info i) k = approve-Shows i (k.2) (k.3)
  print_rpl_token_info-Shows (revoke_info i) k =
      Shows-weaken 4 (omega arith) (primary-Shows _ _ refl (sign-Prints i.sign (k.1)))
  print_rpl_token_info-Shows (set_owner_info i) k = set_authority-Shows i (k.2)
  print_rpl_token_info-Shows (mint_to_info i) k = mint_to-Shows i (k.0) (k.2)
  print_rpl_token_info-Shows (burn_info i) k = burn-Shows i (k.1) (k.2)
  print_rpl_token_info-Shows (close_account_info i) k =
      Shows-weaken 4 (omega arith)
        (primary-Shows _ _ refl (then-Prints (general-Prints _ _) (sign-Prints i.sign (k.2))))
  print_rpl_token_info-Shows (freeze_account_info i) k = Shows-weaken 4 (omega arith) (
      primary-Shows _ _ refl (
        then-Prints (when-Prints config.expert_mode (general-Prints _ _))
          (sign-Prints i.sign (k.2))))
  print_rpl_token_info-Shows (thaw_account_info i) k = Shows-weaken 4 (omega arith) (
      primary-Shows _ _ refl (
        then-Prints (when-Prints config.expert_mode (general-Prints _ _))
          (sign-Prints i.sign (k.2))))
  print_rpl_token_info-Shows (sync_native_info i) k =
      Shows-weaken 4 (omega arith) (only_primary-Shows _ _ refl)

-- On an instruction whose bytes are there and that `instruction_validate` accepts, behind a header
-- whose account keys are there, and with the signer's key and the first account key there to read, in
-- either display mode: either `parse_rpl_token_instructions` refuses it with a nonzero code, or it gives
-- an info that `print_rpl_token_info` always shows: on a fresh summary the printer succeeds, no setter
-- is given a null pointer, the primary item is set and the fee payer free, and `add_fee_payer` then
-- succeeds and sets the fee payer's item to the first account key, unless the mode is not expert and
-- it is the signer's, and changes nothing else.
pub token_instruction-IsShown :
    (ix : Instruction) (config : PrintConfig) (f : ConfigFits config)
    → IsKey (pubkey_at config.header.pubkeys 0)
    → InstructionFits ix
    → HeaderFits config.header
    → instruction_validate ix config.header ≡ done tt
    → ((e : ℕ) × (e ≢ 0) × (parse_rpl_token_instructions ix config.header ≡ bail e))
      ⊎ ((info : RplTokenInfo) × (parse_rpl_token_instructions ix config.header ≡ done info)
          × IsShown config f (print_rpl_token_info info config))
token_instruction-IsShown ix config f lp fi fh v =
    IsFine-IsShown config f (λ info. print_rpl_token_info info config)
      (parse_rpl_token_instructions_safe ix config.header fi fh v)
      λ info k.
        Shows-IsShown 4 config f lp (omega arith) (print_rpl_token_info-Shows config f info k)
