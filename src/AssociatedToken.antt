-- ===== src/AssociatedToken.antt =====
-- librenec/rpl_associated_token_account_instruction.c with its header: the one instruction of the
-- program of associated token accounts.
use ledger_embedded_app.Common.{◌≡◌, refl, codes, Outcome, done, ◌>>=◌, ℕ}
use ledger_embedded_app.Parser.{Pointer, Instruction, MessageHeader}
use ledger_embedded_app.Parser.Safety.Messages.{InstructionFits, HeaderFits}
use ledger_embedded_app.Instruction.{
  instruction_validate, instruction_accounts_iterator_init, instruction_accounts_iterator_next,
  optional_account,
}
use ledger_embedded_app.Instruction.Safety.{
  IsFine, fine, IsFine-bind, IsKey, next-IsFine, init-IteratorFits, optional_account-IsFine,
}
use ledger_embedded_app.Summary.{pubkey, is_used, kind_of}
use ledger_embedded_app.Printing.{PrintConfig, Printer, primary, general}
use ledger_embedded_app.Printing.Room.{Shows, primary-Shows, then-Prints, general-Prints}

pub record RplAssociatedTokenAccountCreateInfo : Type 0 where
  pub funder : Pointer
  pub address : Pointer
  pub owner : Pointer
  pub mint : Pointer

pub record RplAssociatedTokenAccountInfo : Type 0 where
  pub create : RplAssociatedTokenAccountCreateInfo

parse_create_rpl_associated_token_account_instruction :
    Instruction → MessageHeader → Outcome RplAssociatedTokenAccountCreateInfo
parse_create_rpl_associated_token_account_instruction instruction header = do
  (funder, it) ←
      instruction_accounts_iterator_next (instruction_accounts_iterator_init header instruction)
  (address, it) ← instruction_accounts_iterator_next it
  (owner, it) ← instruction_accounts_iterator_next it
  (mint, it) ← instruction_accounts_iterator_next it
  (_, it) ← instruction_accounts_iterator_next it
  (_, it) ← instruction_accounts_iterator_next it
  (_, it) ← optional_account it
  done (record { funder = funder; address = address; owner = owner; mint = mint })

-- The data of the instruction is not looked at.
pub parse_rpl_associated_token_account_instructions :
    Instruction → MessageHeader → Outcome RplAssociatedTokenAccountInfo
parse_rpl_associated_token_account_instructions instruction header = do
  create ← parse_create_rpl_associated_token_account_instruction instruction header
  done (record { create = create })

unfoldable pub print_rpl_associated_token_account_create_info :
    RplAssociatedTokenAccountCreateInfo → PrintConfig → Printer
print_rpl_associated_token_account_create_info info config s = do
  s ← primary (codes "Create token acct") (pubkey info.address) s
  s ← general (codes "From mint") (pubkey info.mint) s
  s ← general (codes "Owned by") (pubkey info.owner) s
  general (codes "Funded by") (pubkey info.funder) s

unfoldable pub print_rpl_associated_token_account_info :
    RplAssociatedTokenAccountInfo → PrintConfig → Printer
print_rpl_associated_token_account_info info config =
    print_rpl_associated_token_account_create_info info.create config

abbrev pub AssociatedInfoFits : RplAssociatedTokenAccountInfo → Type 0
AssociatedInfoFits info =
    let i = info.create in IsKey i.funder × IsKey i.address × IsKey i.owner × IsKey i.mint

-- On an instruction whose bytes are there and that `instruction_validate` accepts, behind a header
-- whose account keys are there, the parser accesses nothing that is not there: it answers with a
-- nonzero code, or gives an info whose every key has 32 bytes to read.
pub parse_rpl_associated_token_account_instructions_safe :
    (ix : Instruction) (h : MessageHeader)
    → InstructionFits ix
    → HeaderFits h
    → instruction_validate ix h ≡ done tt
    → IsFine AssociatedInfoFits (parse_rpl_associated_token_account_instructions ix h)
unfolding parse_rpl_associated_token_account_instructions
    parse_create_rpl_associated_token_account_instruction
parse_rpl_associated_token_account_instructions_safe ix h fi fh v =
    IsFine-bind
      (IsFine-bind (next-IsFine _ (init-IteratorFits ix h fi fh v)) λ (_, it1) (k_f, f1).
        IsFine-bind (next-IsFine it1 f1) λ (_, it2) (k_a, f2).
          IsFine-bind (next-IsFine it2 f2) λ (_, it3) (k_o, f3).
            IsFine-bind (next-IsFine it3 f3) λ (_, it4) (k_m, f4).
              IsFine-bind (next-IsFine it4 f4) λ (_, it5) (_, f5).
                IsFine-bind (next-IsFine it5 f5) λ (_, it6) (_, f6).
                  IsFine-bind (optional_account-IsFine it6 f6)
                    λ (_, it7) (_, f7). fine (k_f, k_a, k_o, k_m))
      λ _ fits. fine fits

pub create_associated-Shows :
    {R : ℕ → Type 0} (config : PrintConfig) (i : RplAssociatedTokenAccountCreateInfo)
    → Shows R 3 (print_rpl_associated_token_account_create_info i config)
unfolding print_rpl_associated_token_account_create_info is_used kind_of
create_associated-Shows config i =
    primary-Shows _ _ refl
      (then-Prints (general-Prints _ _) (then-Prints (general-Prints _ _) (general-Prints _ _)))
