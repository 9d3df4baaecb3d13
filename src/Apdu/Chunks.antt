-- ===== src/Apdu/Chunks.antt =====
-- A message that the host sends in chunks, against src/apdu.c.
use ledger_embedded_app.Common.{
  ℕ, ◌+◌, ◌≤◌, ◌≡◌, refl, ◌∙◌, ap, Bool, true, false, List, ◌∷◌, ◌++◌, append_assoc, some, length,
  take, drop, length-append, length-take, length-drop, take-append_exact, take-length, le→leb,
  le→ltb, ◌==◌, arith, done,
}
use ledger_embedded_app.Apdu.{
  ApduState, payload_in_progress, payload_complete, ApduCommand, ApduHeader, write_at,
  parse_apdu_header, modern_header, cla, ins_sign_message, ins_sign_offchain_message,
  p1_non_confirm,
}
use ledger_embedded_app.Apdu.Command.{
  go_on, finish, copy_data, resume, handle_header, apdu_handle_message, continues,
}

-- The two instructions that sign.
pub data Signing : Type 0 where
  transaction offchain : Signing

abbrev pub code_of : Signing → ℕ
code_of transaction = ins_sign_message
code_of offchain = ins_sign_offchain_message

abbrev pub state_of : Bool → ApduState
state_of true = payload_in_progress
state_of false = payload_complete

-- A command that holds the bytes `acc` of the message.
pub record Carries (k : Signing) (st : ApduState) (acc : List ℕ) (cmd : ApduCommand) : Type 0 where
  pub state_is : cmd.state ≡ st
  pub instruction_is : cmd.instruction ≡ code_of k
  pub one_path : cmd.num_derivation_paths ≡ 1
  pub size : length cmd.message ≡ 1280
  pub held : take cmd.message_length cmd.message ≡ acc
  pub counted : cmd.message_length ≡ length acc

-- The message that sends the data `bs`, of 1 to 255 bytes, behind what was sent: `more` says that
-- another follows.
abbrev pub extending : Signing → ℕ → Bool → List ℕ → List ℕ
extending k p1 true bs = cla ∷ code_of k ∷ p1 ∷ 3 ∷ length bs ∷ bs
extending k p1 false bs = cla ∷ code_of k ∷ p1 ∷ 1 ∷ length bs ∷ bs

-- The header that a message of a signing instruction has.
abbrev pub header_of : Signing → ℕ → ℕ → List ℕ → ApduHeader
header_of k p1 p2 bs = record {
  instruction = code_of k;
  p1 = p1;
  p2 = p2;
  data_pointer = some bs;
  data_length = length bs;
}

pub modern_header_lem :
    (ins p1 p2 b : ℕ) (bs : List ℕ)
    → length (b ∷ bs) ≤ 255
    → modern_header (cla ∷ ins ∷ p1 ∷ p2 ∷ length (b ∷ bs) ∷ b ∷ bs) ins
      ≡ done (record {
        instruction = ins;
        p1 = p1;
        p2 = p2;
        data_pointer = some (b ∷ bs);
        data_length = length (b ∷ bs);
      })
unfolding modern_header
modern_header_lem ins p1 p2 b bs h = ground arith

pub parse_apdu_header_lem :
    (k : Signing) (p1 p2 b : ℕ) (bs : List ℕ)
    → length (b ∷ bs) ≤ 255
    → parse_apdu_header (cla ∷ code_of k ∷ p1 ∷ p2 ∷ length (b ∷ bs) ∷ b ∷ bs)
      ≡ done (header_of k p1 p2 (b ∷ bs))
unfolding parse_apdu_header
parse_apdu_header_lem transaction p1 p2 b bs h =
    ground (arith, modern_header_lem ins_sign_message p1 p2 b bs)
parse_apdu_header_lem offchain p1 p2 b bs h =
    ground (arith, modern_header_lem ins_sign_offchain_message p1 p2 b bs)

take-write_at :
    (offset : ℕ) (xs buffer : List ℕ)
    → offset + length xs ≤ length buffer
    → (r : List ℕ) × (write_at offset xs buffer ≡ done r)
      × (length r ≡ length buffer)
      × (take (offset + length xs) r ≡ take offset buffer ++ xs)
unfolding write_at
take-write_at offset xs buffer h = (
  take offset buffer ++ (xs ++ behind),
  rw (le→leb (offset + length xs) (length buffer) h),
  omega (
    arith,
    length-append (take offset buffer) (xs ++ behind),
    length-append xs behind,
    length-take offset buffer,
    length-drop (offset + length xs) buffer,
  ),
  rw (← append_assoc (take offset buffer) xs behind) (
      take-append_exact (offset + length xs) (take offset buffer ++ xs) behind
        (omega (arith, length-append (take offset buffer) xs, length-take offset buffer))),
)
  where
    behind : List ℕ
    behind = drop (offset + length xs) buffer

continues_lem :
    (k : Signing) (p1 p2 : ℕ) (bs acc : List ℕ) (cmd : ApduCommand)
    → Carries k payload_in_progress acc cmd
    → cmd.non_confirm ≡ (p1 == p1_non_confirm)
    → continues (header_of k p1 p2 bs) cmd ≡ true
unfolding continues
continues_lem transaction p1 p2 bs acc cmd c n =
    rw (c.state_is, c.instruction_is, n, c.one_path) (ground arith)
continues_lem offchain p1 p2 bs acc cmd c n =
    rw (c.state_is, c.instruction_is, n, c.one_path) (ground arith)

-- Data that fits is appended to what the command holds.
pub copy_data_lem :
    (h : ApduHeader) (bs : List ℕ) (cmd : ApduCommand)
    → length cmd.message ≡ 1280
    → cmd.message_length + length bs ≤ 1280
    → (r : List ℕ) × (copy_data h cmd (some bs) (length bs)
        ≡ done (
            finish h (record cmd { message = r; message_length = cmd.message_length + length bs })))
      × (length r ≡ 1280)
      × (take (cmd.message_length + length bs) r ≡ take cmd.message_length cmd.message ++ bs)
unfolding copy_data
copy_data_lem h bs cmd size room =
    let (r, w, n, t) = take-write_at cmd.message_length bs cmd.message (omega arith) in
    (
      r,
      rw (
        le→ltb 1280 (cmd.message_length + length bs) room,
        le→leb (length bs) (length bs) (omega arith),
        take-length bs,
        w,
      ),
      n ∙ size,
      t,
    )

pub resume_lem :
    (k : Signing) (p1 p2 : ℕ) (bs : List ℕ) (cmd : ApduCommand)
    → resume (header_of k p1 p2 bs) (go_on cmd (some bs) (length bs))
      ≡ copy_data
          (header_of k p1 p2 bs)
          (record cmd {
            state = payload_in_progress;
            instruction = code_of k;
            non_confirm = p1 == p1_non_confirm;
          })
          (some bs)
          (length bs)
unfolding resume
resume_lem k p1 p2 bs cmd = refl

abbrev p2_of : Bool → ℕ
p2_of true = 3
p2_of false = 1

pub handle_done :
    (msg : List ℕ) (cmd : ApduCommand) {h : ApduHeader}
    → parse_apdu_header msg ≡ done h
    → apdu_handle_message msg cmd ≡ handle_header h cmd
unfolding apdu_handle_message
handle_done msg cmd e = rw (e, apdu_handle_message)

handle_extending :
    (k : Signing) (p1 : ℕ) (more : Bool) (bs : List ℕ) (cmd : ApduCommand)
    → continues (header_of k p1 (p2_of more) bs) cmd ≡ true
    → handle_header (header_of k p1 (p2_of more) bs) cmd
      ≡ resume (header_of k p1 (p2_of more) bs) (go_on cmd (some bs) (length bs))
unfolding handle_header
handle_extending transaction p1 true bs cmd c = rw c
handle_extending transaction p1 false bs cmd c = rw c
handle_extending offchain p1 true bs cmd c = rw c
handle_extending offchain p1 false bs cmd c = rw c

extending_header :
    (k : Signing) (p1 b : ℕ) (more : Bool) (bs : List ℕ)
    → length (b ∷ bs) ≤ 255
    → parse_apdu_header (extending k p1 more (b ∷ bs)) ≡ done (header_of k p1 (p2_of more) (b ∷ bs))
extending_header k p1 b true bs h = parse_apdu_header_lem k p1 3 b bs h
extending_header k p1 b false bs h = parse_apdu_header_lem k p1 1 b bs h

finish_lem :
    (k : Signing) (p1 : ℕ) (more : Bool) (bs : List ℕ) (cmd : ApduCommand)
    → cmd.state ≡ payload_in_progress
    → finish (header_of k p1 (p2_of more) bs) cmd ≡ (0, record cmd { state = state_of more })
unfolding finish
finish_lem k p1 true bs cmd e = ap (λ st. (0, record cmd { state = st })) e
finish_lem k p1 false bs cmd e = refl

-- A command that carries `acc` for a path, and keeps the path as it is.
pub record Holds (k : Signing) (p1 : ℕ) (path : List ℕ × ℕ) (st : ApduState) (acc : List ℕ)
    (cmd : ApduCommand) : Type 0 where
  pub carries : Carries k st acc cmd
  pub confirm : cmd.non_confirm ≡ (p1 == p1_non_confirm)
  pub path_is : cmd.derivation_path ≡ path.0
  pub path_length_is : cmd.derivation_path_length ≡ path.1

-- A message that extends the one in progress, and still fits the buffer, is accepted, and its data
-- is appended; the message is complete where no more was announced.
pub handle_extending-Holds :
    (k : Signing) (p1 : ℕ) (path : List ℕ × ℕ) (more : Bool) (acc : List ℕ) (b : ℕ) (bs : List ℕ)
    (cmd : ApduCommand)
    → Holds k p1 path payload_in_progress acc cmd
    → length (b ∷ bs) ≤ 255
    → length acc + length (b ∷ bs) ≤ 1280
    → (cmd' : ApduCommand) × (apdu_handle_message (extending k p1 more (b ∷ bs)) cmd
        ≡ done (0, cmd'))
      × Holds k p1 path (state_of more) (acc ++ (b ∷ bs)) cmd'
handle_extending-Holds k p1 path more acc b bs cmd v small room =
    let c = v.carries in
    let started : ApduCommand = record cmd {
      state = payload_in_progress;
      instruction = code_of k;
      non_confirm = p1 == p1_non_confirm;
    } in
    let (r, w, n, t) =
      copy_data_lem (header_of k p1 (p2_of more) (b ∷ bs)) (b ∷ bs) started c.size
        (omega (arith, c.counted)) in
    let after : ApduCommand = record started {
      message = r;
      message_length = cmd.message_length + length (b ∷ bs);
    } in
    (
      record after { state = state_of more },
      handle_done _ cmd (extending_header k p1 b more bs small)
          ∙ handle_extending k p1 more (b ∷ bs) cmd
              (continues_lem k p1 (p2_of more) (b ∷ bs) acc cmd c v.confirm)
          ∙ resume_lem k p1 (p2_of more) (b ∷ bs) cmd
          ∙ w
          ∙ ap done (finish_lem k p1 more (b ∷ bs) after refl),
      record {
        carries = record {
          state_is = refl;
          instruction_is = refl;
          one_path = c.one_path;
          size = n;
          held = t ∙ ap (λ xs. xs ++ (b ∷ bs)) c.held;
          counted = omega (arith, c.counted, length-append acc (b ∷ bs));
        };
        confirm = refl;
        path_is = v.path_is;
        path_length_is = v.path_length_is;
      },
    )
