-- ===== src/Apdu/Refusals.antt =====
-- Messages that do not belong to the command in progress, against src/apdu.c.
use ledger_embedded_app.Common.{
  ap, ◌+◌, bit_and, not, Option, some, take, ℕ, ◌≤◌, ◌≡◌, refl, ◌∙◌, Bool, true, false, List, [],
  ◌∷◌, none, length, arith, done, Bool-cases, inl, inr, ◌==◌,
}
use ledger_embedded_app.Apdu.{
  payload_in_progress, payload_complete, ApduState, uninitialized, ApduCommand, zero_command, cla,
  ApduHeader, p2_extend, p2_more, ins_get_pubkey, p1_non_confirm, invalid_message,
  parse_apdu_header, modern_header,
}
use ledger_embedded_app.Apdu.Command.{
  apdu_handle_message, handle_header, continues, is_in_progress, same_bool, resume, copy_data,
  finish,
}
use ledger_embedded_app.Parser.{Pointer}
use ledger_embedded_app.Apdu.Chunks.{
  copy_data_lem, modern_header_lem, state_of, Signing, transaction, offchain, code_of, extending,
  header_of, parse_apdu_header_lem, handle_done,
}

-- The command in progress is the one that a message of instruction `k` and of `p1` extends.
pub record IsContinuedBy (k : Signing) (p1 : ℕ) (cmd : ApduCommand) : Type 0 where
  pub in_progress : cmd.state ≡ payload_in_progress
  pub same_instruction : cmd.instruction ≡ code_of k
  pub same_confirm : cmd.non_confirm ≡ (p1 == p1_non_confirm)
  pub one_path : cmd.num_derivation_paths ≡ 1

is_in_progress→eq : (st : ApduState) → is_in_progress st ≡ true → st ≡ payload_in_progress
is_in_progress→eq payload_in_progress h = refl
is_in_progress→eq payload_complete h = cc
is_in_progress→eq uninitialized h = cc

same_bool→eq : (a b : Bool) → same_bool a b ≡ true → a ≡ b
same_bool→eq true b h = ground arith
same_bool→eq false b h = ground arith

continues_sound :
    (k : Signing) (p1 p2 : ℕ) (bs : List ℕ) (cmd : ApduCommand)
    → continues (header_of k p1 p2 bs) cmd ≡ true
    → IsContinuedBy k p1 cmd
unfolding continues
continues_sound k p1 p2 bs cmd h =
    ground (arith, is_in_progress→eq cmd.state, same_bool→eq cmd.non_confirm (p1 == p1_non_confirm))

refuse :
    (k : Signing) (p1 : ℕ) (more : Bool) (b : ℕ) (bs : List ℕ) (cmd : ApduCommand)
    → length (b ∷ bs) ≤ 255
    → ((p2 : ℕ) → continues (header_of k p1 p2 (b ∷ bs)) cmd ≡ false)
    → apdu_handle_message (extending k p1 more (b ∷ bs)) cmd ≡ done (invalid_message, cmd)
unfolding handle_header
refuse transaction p1 true b bs cmd h c =
    handle_done _ cmd (parse_apdu_header_lem transaction p1 3 b bs h) ∙ rw (c 3)
refuse transaction p1 false b bs cmd h c =
    handle_done _ cmd (parse_apdu_header_lem transaction p1 1 b bs h) ∙ rw (c 1)
refuse offchain p1 true b bs cmd h c =
    handle_done _ cmd (parse_apdu_header_lem offchain p1 3 b bs h) ∙ rw (c 3)
refuse offchain p1 false b bs cmd h c =
    handle_done _ cmd (parse_apdu_header_lem offchain p1 1 b bs h) ∙ rw (c 1)

-- A message that extends a message to sign, sent when the command in progress is not the one that
-- it extends (none is in progress, another instruction or confirmation flag, or not one path), is
-- answered with the invalid-message code and leaves the command as it was.
pub extending_refused :
    (k : Signing) (p1 : ℕ) (more : Bool) (b : ℕ) (bs : List ℕ) (cmd : ApduCommand)
    → length (b ∷ bs) ≤ 255
    → ¬ IsContinuedBy k p1 cmd
    → apdu_handle_message (extending k p1 more (b ∷ bs)) cmd ≡ done (invalid_message, cmd)
extending_refused k p1 more b bs cmd h n = refuse k p1 more b bs cmd h no
  where
    no : (p2 : ℕ) → continues (header_of k p1 p2 (b ∷ bs)) cmd ≡ false
    no p2 = elim (Bool-cases (continues (header_of k p1 p2 (b ∷ bs)) cmd)) [
      | inl yes' ↦ absurd (n (continues_sound k p1 p2 (b ∷ bs) cmd yes'))
      | inr no' ↦ no'
    ]

abbrev get_pubkey_header : (p1 p2 : ℕ) → Option Pointer → ℕ → ApduHeader
get_pubkey_header p1 p2 buffer n = record {
  instruction = ins_get_pubkey;
  p1 = p1;
  p2 = p2;
  data_pointer = buffer;
  data_length = n;
}

-- `header.data` is null where there is no data.
abbrev buffer_of : List ℕ → Option Pointer
buffer_of [] = none
buffer_of (b ∷ bs) = some (b ∷ bs)

parse_get_pubkey :
    (p1 p2 : ℕ) (bs : List ℕ)
    → length bs ≤ 255
    → parse_apdu_header (cla ∷ ins_get_pubkey ∷ p1 ∷ p2 ∷ length bs ∷ bs)
      ≡ done (get_pubkey_header p1 p2 (buffer_of bs) (length bs))
unfolding parse_apdu_header modern_header
parse_get_pubkey p1 p2 [] h = refl
parse_get_pubkey p1 p2 (b ∷ bs) h = ground (arith, modern_header_lem ins_get_pubkey p1 p2 b bs)

-- What a GetPubkey message leaves that skips the derivation path: its data as the message, and no path.
pub record IsPathless (more : Bool) (p1 : ℕ) (bs : List ℕ) (cmd : ApduCommand) : Type 0 where
  pub state_is : cmd.state ≡ state_of more
  pub instruction_is : cmd.instruction ≡ ins_get_pubkey
  pub confirm_is : cmd.non_confirm ≡ (p1 == p1_non_confirm)
  pub no_paths : cmd.num_derivation_paths ≡ 0
  pub no_path : cmd.derivation_path_length ≡ 0
  pub held : take cmd.message_length cmd.message ≡ bs
  pub counted : cmd.message_length ≡ length bs

-- The command before the data is copied.
abbrev pathless : ℕ → ApduCommand
pathless p1 = record zero_command {
  state = payload_in_progress;
  instruction = ins_get_pubkey;
  non_confirm = p1 == p1_non_confirm;
}

skips_path :
    (p1 p2 : ℕ) (buffer : Option Pointer) (n : ℕ) (cmd : ApduCommand)
    → (bit_and p2 p2_extend == 0) ≡ false
    → handle_header (get_pubkey_header p1 p2 buffer n) cmd
      ≡ copy_data (get_pubkey_header p1 p2 buffer n) (pathless p1) buffer n
unfolding handle_header resume
skips_path p1 p2 buffer n cmd e = rw e refl

copies :
    (p1 p2 : ℕ) (bs : List ℕ)
    → length bs ≤ 255
    → let h = get_pubkey_header p1 p2 (buffer_of bs) (length bs) in
      (r : List ℕ) × (n : ℕ) × (copy_data h (pathless p1) (buffer_of bs) (length bs)
        ≡ done (finish h (record (pathless p1) { message = r; message_length = n })))
      × (take n r ≡ bs)
      × (n ≡ length bs)
unfolding copy_data zero_command
copies p1 p2 [] h = ((pathless p1).message, 0, refl, refl, refl)
copies p1 p2 (b ∷ bs) h =
    let (r, copied, _, t) =
      copy_data_lem (get_pubkey_header p1 p2 (some (b ∷ bs)) (length (b ∷ bs))) (b ∷ bs)
        (pathless p1) refl (omega arith) in
    (r, 0 + length (b ∷ bs), copied, t, omega arith)

finish-IsPathless :
    (h : ApduHeader) (p1 n : ℕ) (bs r : List ℕ)
    → take n r ≡ bs
    → n ≡ length bs
    → let (e, cmd) = finish h (record (pathless p1) { message = r; message_length = n }) in
      (e ≡ 0) × IsPathless (not (bit_and h.p2 p2_more == 0)) p1 bs cmd
unfolding finish zero_command
finish-IsPathless h p1 n bs r t c = elim (Bool-cases (bit_and h.p2 p2_more == 0)) [
  | inl last ↦ rw last (
    refl,
    record {
      state_is = refl;
      instruction_is = refl;
      confirm_is = refl;
      no_paths = refl;
      no_path = refl;
      held = t;
      counted = c;
    },
  )
  | inr more ↦ rw more (
    refl,
    record {
      state_is = refl;
      instruction_is = refl;
      confirm_is = refl;
      no_paths = refl;
      no_path = refl;
      held = t;
      counted = c;
    },
  )
]

-- A GetPubkey message with the extend bit set in p2, whatever its data of at most 255 bytes and
-- whatever the command in progress, is answered with 0 and starts a new command: no derivation path is
-- read, so that the command has none, its message is the data, and it is complete, or in progress
-- where the more bit is set.
pub get_pubkey_extended :
    (p1 p2 : ℕ) (bs : List ℕ) (cmd : ApduCommand)
    → (bit_and p2 p2_extend == 0) ≡ false
    → length bs ≤ 255
    → (cmd' : ApduCommand) × (apdu_handle_message
          (cla ∷ ins_get_pubkey ∷ p1 ∷ p2 ∷ length bs ∷ bs)
          cmd
        ≡ done (0, cmd'))
      × IsPathless (not (bit_and p2 p2_more == 0)) p1 bs cmd'
get_pubkey_extended p1 p2 bs cmd e h =
    let header = get_pubkey_header p1 p2 (buffer_of bs) (length bs) in
    let (r, n, copied, t, c) = copies p1 p2 bs h in
    let left = finish header (record (pathless p1) { message = r; message_length = n }) in
    let (answer, k) = finish-IsPathless header p1 n bs r t c in
    (
      left.1,
      handle_done _ cmd (parse_get_pubkey p1 p2 bs h)
          ∙ skips_path p1 p2 (buffer_of bs) (length bs) cmd e
          ∙ copied
          ∙ ap (λ a. done (a, left.1)) answer,
      k,
    )
