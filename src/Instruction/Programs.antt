-- ===== src/Instruction/Programs.antt =====
-- Which program an instruction is taken to call.
use ledger_embedded_app.Common.{
  ℕ, ◌≤◌, ◌≡◌, ◌≢◌, ◌↔◌, refl, ◌∙◌, List, length, take, arith, done, bytes_eq, bytes_eq→eq, Option,
  none, some, sym, ap,
}
use ledger_embedded_app.Parser.{Instruction, MessageHeader}
use ledger_embedded_app.Instruction.{
  ProgramId, unknown, stake, system, vote, rpl_token, rpl_associated_token_account, rpl_memo,
  system_program_id, stake_program_id, vote_program_id, rpl_token_program_id,
  rpl_associated_token_account_program_id, rpl_memo_program_id, pubkey_at, program_of_key,
  instruction_program_id,
}

-- The id of each program that the device knows.
abbrev pub id_of : ProgramId → Option (List ℕ)
id_of unknown = none
id_of stake = some stake_program_id
id_of system = some system_program_id
id_of vote = some vote_program_id
id_of rpl_token = some rpl_token_program_id
id_of rpl_associated_token_account = some rpl_associated_token_account_program_id
id_of rpl_memo = some rpl_memo_program_id

-- A key that is taken for a program's is that program's id.
program_of_key_sound :
    (key : List ℕ) → program_of_key key ≢ unknown → id_of (program_of_key key) ≡ some key
unfolding program_of_key
program_of_key_sound key h = ground (
  arith,
  bytes_eq→eq key system_program_id,
  bytes_eq→eq key stake_program_id,
  bytes_eq→eq key vote_program_id,
  bytes_eq→eq key rpl_token_program_id,
  bytes_eq→eq key rpl_associated_token_account_program_id,
  bytes_eq→eq key rpl_memo_program_id,
)

by_id :
    {k : ProgramId} (id key : List ℕ)
    → some id ≡ some key
    → program_of_key id ≡ k
    → program_of_key key ≡ k
by_id id key h e = let same : id ≡ key = cc in rw (← same) e

program_of_key_complete :
    (k : ProgramId) (key : List ℕ) → id_of k ≡ some key → program_of_key key ≡ k
unfolding program_of_key bytes_eq
program_of_key_complete unknown key h = cc
program_of_key_complete stake key h = by_id stake_program_id key h refl
program_of_key_complete system key h = by_id system_program_id key h refl
program_of_key_complete vote key h = by_id vote_program_id key h refl
program_of_key_complete rpl_token key h = by_id rpl_token_program_id key h refl
program_of_key_complete rpl_associated_token_account key h =
    by_id rpl_associated_token_account_program_id key h refl
program_of_key_complete rpl_memo key h = by_id rpl_memo_program_id key h refl

pub instruction_program_id_lem :
    (ix : Instruction) (h : MessageHeader)
    → 32 ≤ length (pubkey_at h.pubkeys ix.program_id_index)
    → instruction_program_id ix h
      ≡ done (program_of_key (take 32 (pubkey_at h.pubkeys ix.program_id_index)))
unfolding instruction_program_id
instruction_program_id_lem ix h l = ground arith

-- Where the key that an instruction's index names is there to read, `instruction_program_id` ends
-- with a program, and that is a known program `k` exactly when the key is the id of `k`.
pub instruction_program_id_iff :
    (ix : Instruction) (h : MessageHeader)
    → 32 ≤ length (pubkey_at h.pubkeys ix.program_id_index)
    → (k : ProgramId) → k ≢ unknown
    → (instruction_program_id ix h ≡ done k)
      ↔ (id_of k ≡ some (take 32 (pubkey_at h.pubkeys ix.program_id_index)))
instruction_program_id_iff ix h l k known =
    rw (instruction_program_id_lem ix h l)
      (from_code, λ e. ap done (program_of_key_complete k key e))
  where
    key : List ℕ
    key = take 32 (pubkey_at h.pubkeys ix.program_id_index)

    from_code : done (program_of_key key) ≡ done k → id_of k ≡ some key
    from_code e =
        let same : program_of_key key ≡ k = cc in
        rw (← same) (program_of_key_sound key (λ u. known (sym same ∙ u)))
