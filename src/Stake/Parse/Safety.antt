-- ===== src/Stake/Parse/Safety.antt =====
-- Memory safety of `parse_stake_instructions`.
use ledger_embedded_app.Common.{
  ◌≡◌, Bool, true, false, Option, none, some, done, Bool-cases, inl, inr,
}
use ledger_embedded_app.Parser.{
  Pointer, Parser, Instruction, MessageHeader, OptionTag, option_none, option_some,
}
use ledger_embedded_app.Parser.Safety.{IsWithin}
use ledger_embedded_app.Parser.Safety.Messages.{InstructionFits, HeaderFits}
use ledger_embedded_app.Instruction.{instruction_validate, instruction_accounts_iterator_init}
use ledger_embedded_app.Instruction.Safety.{
  IsFine, fine, refused, IsFine-bind, IsKey, IsKeyOrNull, IteratorFits, next-IsFine,
  init-IteratorFits, optional_account-IsFine, parse_pubkey-IsFine, parse_u64-IsFine,
  parse_u32-IsFine, parse_i64-IsFine, parse_option-IsFine, enumerator-IsFine,
}
use ledger_embedded_app.Stake.{
  StakeInstructionKind, stake_initialize, stake_authorize, stake_delegate, stake_split,
  stake_withdraw, stake_deactivate, stake_set_lockup, stake_merge, stake_authorize_with_seed,
  stake_initialize_checked, stake_authorize_checked, stake_authorize_checked_with_seed,
  stake_set_lockup_checked, StakeLockup, StakeInfo, delegate_info, initialize_info,
  initialize_checked_info, withdraw_info, authorize_info, authorize_checked_info, deactivate_info,
  set_lockup_info, set_lockup_checked_info, split_info, merge_info, stake_kinds, stake_authorizes,
}
use ledger_embedded_app.Stake.Parse.{
  parse_stake_instruction_kind, parse_stake_authorize, parse_delegate_stake_instruction,
  parse_stake_initialize_instruction, parse_stake_initialize_checked_instruction,
  parse_stake_withdraw_instruction, parse_stake_authorize_instruction,
  parse_stake_authorize_checked_instruction, parse_stake_deactivate_instruction,
  parse_lockup_timestamp, parse_lockup_epoch, parse_lockup_custodian, parse_stake_lockupargs,
  parse_stake_set_lockup_instruction, with_custodian, parse_stake_set_lockup_checked_instruction,
  parse_stake_split_instruction, parse_stake_merge_instruction, parse_stake_of_kind,
  parse_stake_instructions, zero_lockup,
}

-- A lockup that has a custodian has its key.
abbrev pub LockupFits : StakeLockup → Type 0
LockupFits lockup = lockup.present.has_custodian ≡ true → IsKey lockup.custodian

-- What an info points to is there to read.
abbrev pub StakeInfoFits : StakeInfo → Type 0
StakeInfoFits (delegate_info i) =
    IsKey i.stake_pubkey × IsKey i.vote_pubkey × IsKey i.authorized_pubkey
StakeInfoFits (initialize_info i) =
    IsKey i.account × IsKey i.stake_authority × IsKey i.withdraw_authority × LockupFits i.lockup
StakeInfoFits (initialize_checked_info i) =
    IsKey i.account × IsKey i.stake_authority × IsKey i.withdraw_authority × LockupFits i.lockup
StakeInfoFits (withdraw_info i) = IsKey i.account × IsKey i.authority × IsKey i.to
StakeInfoFits (authorize_info i) =
    IsKey i.account × IsKey i.authority × IsKey i.new_authority × IsKeyOrNull i.custodian
StakeInfoFits (authorize_checked_info i) =
    IsKey i.account × IsKey i.authority × IsKey i.new_authority × IsKeyOrNull i.custodian
StakeInfoFits (deactivate_info i) = IsKey i.account × IsKey i.authority
StakeInfoFits (set_lockup_info i) = IsKey i.account × IsKey i.custodian × LockupFits i.lockup
StakeInfoFits (set_lockup_checked_info i) =
    IsKey i.account × IsKey i.custodian × LockupFits i.lockup
StakeInfoFits (split_info i) = IsKey i.account × IsKey i.authority × IsKey i.split_account
StakeInfoFits (merge_info i) = IsKey i.destination × IsKey i.source × IsKey i.authority

parse_stake_instruction_kind-IsFine :
    (p : Parser)
    → IsWithin p
    → IsFine (λ r. Unit {0} × IsWithin (r.1)) (parse_stake_instruction_kind p)
unfolding parse_stake_instruction_kind
parse_stake_instruction_kind-IsFine p w =
    IsFine-bind (parse_u32-IsFine p w)
      λ (n, q) (_, wq). IsFine-bind (enumerator-IsFine stake_kinds n) λ k _. fine (tt, wq)

parse_stake_authorize-IsFine :
    (p : Parser) → IsWithin p → IsFine (λ r. Unit {0} × IsWithin (r.1)) (parse_stake_authorize p)
unfolding parse_stake_authorize
parse_stake_authorize-IsFine p w =
    IsFine-bind (parse_u32-IsFine p w)
      λ (n, q) (_, wq). IsFine-bind (enumerator-IsFine stake_authorizes n) λ k _. fine (tt, wq)

parse_lockup_timestamp-IsFine :
    (tag : OptionTag) (p : Parser) (lockup : StakeLockup)
    → IsWithin p
    → LockupFits lockup
    → IsFine (λ r. LockupFits (r.0) × IsWithin (r.1)) (parse_lockup_timestamp tag p lockup)
unfolding parse_lockup_timestamp
parse_lockup_timestamp-IsFine option_none p lockup w fl = fine (fl, w)
parse_lockup_timestamp-IsFine option_some p lockup w fl =
    IsFine-bind (parse_i64-IsFine p w) λ (_, q) (k, wq). fine (fl, wq)

parse_lockup_epoch-IsFine :
    (tag : OptionTag) (p : Parser) (lockup : StakeLockup)
    → IsWithin p
    → LockupFits lockup
    → IsFine (λ r. LockupFits (r.0) × IsWithin (r.1)) (parse_lockup_epoch tag p lockup)
unfolding parse_lockup_epoch
parse_lockup_epoch-IsFine option_none p lockup w fl = fine (fl, w)
parse_lockup_epoch-IsFine option_some p lockup w fl =
    IsFine-bind (parse_u64-IsFine p w) λ (_, q) (k, wq). fine (fl, wq)

parse_lockup_custodian-IsFine :
    (tag : OptionTag) (p : Parser) (lockup : StakeLockup)
    → IsWithin p
    → LockupFits lockup
    → IsFine (λ r. LockupFits (r.0) × IsWithin (r.1)) (parse_lockup_custodian tag p lockup)
unfolding parse_lockup_custodian
parse_lockup_custodian-IsFine option_none p lockup w fl = fine (fl, w)
parse_lockup_custodian-IsFine option_some p lockup w fl =
    IsFine-bind (parse_pubkey-IsFine p w) λ (_, q) (k, wq). fine (λ _. k, wq)

zero_lockup-Fits : LockupFits zero_lockup
zero_lockup-Fits e = cc

parse_stake_lockupargs-IsFine :
    (p : Parser) (parse_custodian : Bool)
    → IsWithin p
    → IsFine (λ r. LockupFits (r.0) × IsWithin (r.1)) (parse_stake_lockupargs p parse_custodian)
unfolding parse_stake_lockupargs
parse_stake_lockupargs-IsFine p parse_custodian w =
    IsFine-bind (parse_option-IsFine p w) λ (t0, q0) (_, w0).
      IsFine-bind (parse_lockup_timestamp-IsFine t0 q0 zero_lockup w0 zero_lockup-Fits)
        λ (l1, q1) (f1, w1). IsFine-bind (parse_option-IsFine q1 w1) λ (t2, q2) (_, w2).
          IsFine-bind (parse_lockup_epoch-IsFine t2 q2 l1 w2 f1) λ (l3, q3) (f3, w3).
            elim (Bool-cases parse_custodian) [
              | inr out ↦ rw out (fine (f3, w3))
              | inl within ↦ rw within (
                  IsFine-bind (parse_option-IsFine q3 w3)
                    λ (t4, q4) (_, w4). parse_lockup_custodian-IsFine t4 q4 l3 w4 f3)
            ]

with_custodian-Fits :
    (custodian : Option Pointer) (lockup : StakeLockup)
    → IsKeyOrNull custodian
    → LockupFits lockup
    → LockupFits (with_custodian custodian lockup)
with_custodian-Fits none lockup k f = f
with_custodian-Fits (some key) lockup k f = λ _. k

module _ (p : Parser) (ix : Instruction) (h : MessageHeader) (w : IsWithin p)
    (start : IteratorFits (instruction_accounts_iterator_init h ix)) where
  delegate-IsFine : IsFine StakeInfoFits (parse_stake_of_kind stake_delegate p ix h)
  unfolding parse_stake_of_kind parse_delegate_stake_instruction
  delegate-IsFine =
      IsFine-bind
        (IsFine-bind (next-IsFine _ start) λ (_, it1) (k_s, f1).
          IsFine-bind (next-IsFine it1 f1) λ (_, it2) (k_v, f2).
            IsFine-bind (next-IsFine it2 f2) λ (_, it3) (_, f3).
              IsFine-bind (next-IsFine it3 f3) λ (_, it4) (_, f4).
                IsFine-bind (next-IsFine it4 f4) λ (_, it5) (_, f5).
                  IsFine-bind (next-IsFine it5 f5) λ (_, it6) (k_a, f6). fine (k_s, k_v, k_a))
        λ _ fits. fine fits

  initialize-IsFine : IsFine StakeInfoFits (parse_stake_of_kind stake_initialize p ix h)
  unfolding parse_stake_of_kind parse_stake_initialize_instruction
  initialize-IsFine =
      IsFine-bind
        (IsFine-bind (next-IsFine _ start) λ (_, it1) (k_a, f1).
          IsFine-bind (next-IsFine it1 f1) λ (_, it2) (_, f2).
            IsFine-bind (parse_pubkey-IsFine p w) λ (_, q3) (k_s, w3).
              IsFine-bind (parse_pubkey-IsFine q3 w3) λ (_, q4) (k_w, w4).
                IsFine-bind (parse_i64-IsFine q4 w4) λ (_, q5) (_, w5).
                  IsFine-bind (parse_u64-IsFine q5 w5) λ (_, q6) (_, w6).
                    IsFine-bind (parse_pubkey-IsFine q6 w6)
                      λ (_, q7) (k_c, w7). fine (k_a, k_s, k_w, λ _. k_c))
        λ _ fits. fine fits

  initialize_checked-IsFine :
      IsFine StakeInfoFits (parse_stake_of_kind stake_initialize_checked p ix h)
  unfolding parse_stake_of_kind parse_stake_initialize_checked_instruction
  initialize_checked-IsFine =
      IsFine-bind
        (IsFine-bind (next-IsFine _ start) λ (_, it1) (k_a, f1).
          IsFine-bind (next-IsFine it1 f1) λ (_, it2) (_, f2).
            IsFine-bind (next-IsFine it2 f2) λ (_, it3) (k_s, f3).
              IsFine-bind (next-IsFine it3 f3)
                λ (_, it4) (k_w, f4). fine (k_a, k_s, k_w, zero_lockup-Fits))
        λ _ fits. fine fits

  withdraw-IsFine : IsFine StakeInfoFits (parse_stake_of_kind stake_withdraw p ix h)
  unfolding parse_stake_of_kind parse_stake_withdraw_instruction
  withdraw-IsFine =
      IsFine-bind
        (IsFine-bind (next-IsFine _ start) λ (_, it1) (k_a, f1).
          IsFine-bind (next-IsFine it1 f1) λ (_, it2) (k_t, f2).
            IsFine-bind (next-IsFine it2 f2) λ (_, it3) (_, f3).
              IsFine-bind (next-IsFine it3 f3) λ (_, it4) (_, f4).
                IsFine-bind (next-IsFine it4 f4) λ (_, it5) (k_u, f5).
                  IsFine-bind (parse_u64-IsFine p w) λ (_, q6) (_, w6). fine (k_a, k_u, k_t))
        λ _ fits. fine fits

  authorize-IsFine : IsFine StakeInfoFits (parse_stake_of_kind stake_authorize p ix h)
  unfolding parse_stake_of_kind parse_stake_authorize_instruction
  authorize-IsFine =
      IsFine-bind
        (IsFine-bind (next-IsFine _ start) λ (_, it1) (k_a, f1).
          IsFine-bind (next-IsFine it1 f1) λ (_, it2) (_, f2).
            IsFine-bind (next-IsFine it2 f2) λ (_, it3) (k_u, f3).
              IsFine-bind (optional_account-IsFine it3 f3) λ (_, it4) (k_c, f4).
                IsFine-bind (parse_pubkey-IsFine p w) λ (_, q5) (k_n, w5).
                  IsFine-bind (parse_stake_authorize-IsFine q5 w5)
                    λ (_, q6) (_, w6). fine (k_a, k_u, k_n, k_c))
        λ _ fits. fine fits

  authorize_checked-IsFine :
      IsFine StakeInfoFits (parse_stake_of_kind stake_authorize_checked p ix h)
  unfolding parse_stake_of_kind parse_stake_authorize_checked_instruction
  authorize_checked-IsFine =
      IsFine-bind
        (IsFine-bind (next-IsFine _ start) λ (_, it1) (k_a, f1).
          IsFine-bind (next-IsFine it1 f1) λ (_, it2) (_, f2).
            IsFine-bind (next-IsFine it2 f2) λ (_, it3) (k_u, f3).
              IsFine-bind (next-IsFine it3 f3) λ (_, it4) (k_n, f4).
                IsFine-bind (optional_account-IsFine it4 f4) λ (_, it5) (k_c, f5).
                  IsFine-bind (parse_stake_authorize-IsFine p w)
                    λ (_, q6) (_, w6). fine (k_a, k_u, k_n, k_c))
        λ _ fits. fine fits

  deactivate-IsFine : IsFine StakeInfoFits (parse_stake_of_kind stake_deactivate p ix h)
  unfolding parse_stake_of_kind parse_stake_deactivate_instruction
  deactivate-IsFine =
      IsFine-bind
        (IsFine-bind (next-IsFine _ start) λ (_, it1) (k_a, f1).
          IsFine-bind (next-IsFine it1 f1) λ (_, it2) (_, f2).
            IsFine-bind (next-IsFine it2 f2) λ (_, it3) (k_u, f3). fine (k_a, k_u))
        λ _ fits. fine fits

  set_lockup-IsFine : IsFine StakeInfoFits (parse_stake_of_kind stake_set_lockup p ix h)
  unfolding parse_stake_of_kind parse_stake_set_lockup_instruction
  set_lockup-IsFine =
      IsFine-bind
        (IsFine-bind (next-IsFine _ start) λ (_, it1) (k_a, f1).
          IsFine-bind (next-IsFine it1 f1) λ (_, it2) (k_c, f2).
            IsFine-bind (parse_stake_lockupargs-IsFine p true w)
              λ (_, q3) (f_l, w3). fine (k_a, k_c, f_l))
        λ _ fits. fine fits

  set_lockup_checked-IsFine :
      IsFine StakeInfoFits (parse_stake_of_kind stake_set_lockup_checked p ix h)
  unfolding parse_stake_of_kind parse_stake_set_lockup_checked_instruction
  set_lockup_checked-IsFine =
      IsFine-bind
        (IsFine-bind (next-IsFine _ start) λ (_, it1) (k_a, f1).
          IsFine-bind (next-IsFine it1 f1) λ (_, it2) (k_c, f2).
            IsFine-bind (parse_stake_lockupargs-IsFine p false w) λ (l, q3) (f_l, w3).
              IsFine-bind (optional_account-IsFine it2 f2)
                λ (c, it4) (k_n, f4). fine (k_a, k_c, with_custodian-Fits c l k_n f_l))
        λ _ fits. fine fits

  split-IsFine : IsFine StakeInfoFits (parse_stake_of_kind stake_split p ix h)
  unfolding parse_stake_of_kind parse_stake_split_instruction
  split-IsFine =
      IsFine-bind
        (IsFine-bind (next-IsFine _ start) λ (_, it1) (k_a, f1).
          IsFine-bind (next-IsFine it1 f1) λ (_, it2) (k_t, f2).
            IsFine-bind (next-IsFine it2 f2) λ (_, it3) (k_u, f3).
              IsFine-bind (parse_u64-IsFine p w) λ (_, q4) (_, w4). fine (k_a, k_u, k_t))
        λ _ fits. fine fits

  merge-IsFine : IsFine StakeInfoFits (parse_stake_of_kind stake_merge p ix h)
  unfolding parse_stake_of_kind parse_stake_merge_instruction
  merge-IsFine =
      IsFine-bind
        (IsFine-bind (next-IsFine _ start) λ (_, it1) (k_d, f1).
          IsFine-bind (next-IsFine it1 f1) λ (_, it2) (k_s, f2).
            IsFine-bind (next-IsFine it2 f2) λ (_, it3) (_, f3).
              IsFine-bind (next-IsFine it3 f3) λ (_, it4) (_, f4).
                IsFine-bind (next-IsFine it4 f4) λ (_, it5) (k_u, f5). fine (k_d, k_s, k_u))
        λ _ fits. fine fits

  of_kind-IsFine :
      (kind : StakeInstructionKind) → IsFine StakeInfoFits (parse_stake_of_kind kind p ix h)
  unfolding parse_stake_of_kind
  of_kind-IsFine stake_delegate = delegate-IsFine
  of_kind-IsFine stake_initialize = initialize-IsFine
  of_kind-IsFine stake_initialize_checked = initialize_checked-IsFine
  of_kind-IsFine stake_withdraw = withdraw-IsFine
  of_kind-IsFine stake_authorize = authorize-IsFine
  of_kind-IsFine stake_authorize_checked = authorize_checked-IsFine
  of_kind-IsFine stake_deactivate = deactivate-IsFine
  of_kind-IsFine stake_set_lockup = set_lockup-IsFine
  of_kind-IsFine stake_set_lockup_checked = set_lockup_checked-IsFine
  of_kind-IsFine stake_split = split-IsFine
  of_kind-IsFine stake_merge = merge-IsFine
  of_kind-IsFine stake_authorize_with_seed = refused (λ e. cc)
  of_kind-IsFine stake_authorize_checked_with_seed = refused (λ e. cc)

-- On an instruction whose bytes are there and that `instruction_validate` accepts, behind a header
-- whose account keys are there, `parse_stake_instructions` accesses nothing that is not there: it
-- answers with a nonzero code, or gives an info whose every key has 32 bytes to read, the custodians
-- that may be left out if they are given.
pub parse_stake_instructions_safe :
    (ix : Instruction) (h : MessageHeader)
    → InstructionFits ix
    → HeaderFits h
    → instruction_validate ix h ≡ done tt
    → IsFine StakeInfoFits (parse_stake_instructions ix h)
unfolding parse_stake_instructions
parse_stake_instructions_safe ix h fi fh v =
    let p : Parser = record { buffer = ix.data_bytes; buffer_length = ix.data_length } in
    IsFine-bind (parse_stake_instruction_kind-IsFine p (fi.data_in))
      λ (k, q) (_, wq). of_kind-IsFine q ix h wq (init-IteratorFits ix h fi fh v) k
