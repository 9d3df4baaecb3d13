-- ===== src/Apdu/Start.antt =====
-- The first message of a command to sign, with its derivation path, against src/apdu.c.
use ledger_embedded_app.Common.{
  ℕ, suc, ◌+◌, ◌*◌, ◌/◌, ◌%◌, ◌^◌, ◌≤◌, ◌<◌, ◌≡◌, refl, ◌∙◌, ap, Bool, true, false, List, [], ◌∷◌,
  ◌++◌, some, length, take, drop, replicate, length-replicate, le→leb, le→ltb, ◌==◌, suc-==-zero,
  arith, done,
}
use ledger_embedded_app.Common.Bits.{bit_or-shift}
use ledger_embedded_app.Apdu.{
  payload_in_progress, ApduCommand, zero_command, write_at, read_u32_be, read_indices,
  read_derivation_path, cla, p1_non_confirm, parse_apdu_header,
}
use ledger_embedded_app.Apdu.Command.{
  Stage, go_on, path_stage, read_path, signing_stage, read_paths, handle_header,
  apdu_handle_message, resume, finish, copy_data,
}
use ledger_embedded_app.Apdu.Chunks.{
  Signing, transaction, offchain, code_of, state_of, header_of, parse_apdu_header_lem,
  copy_data_lem, handle_done, Holds,
}

-- The four bytes of each index, the highest first.
abbrev pub path_bytes : List ℕ → List ℕ → List ℕ
path_bytes [] tail = tail
path_bytes (n ∷ path) tail =
    n / 16777216 ∷ n / 65536 % 256 ∷ n / 256 % 256 ∷ n % 256 ∷ path_bytes path tail

abbrev pub AreIndices : List ℕ → Type 0
AreIndices [] = Unit {0}
AreIndices (n ∷ path) = (n < 2 ^ 32) × AreIndices path

length-path_bytes : (path bs : List ℕ) → length (path_bytes path bs) ≡ 4 * length path + length bs
length-path_bytes [] bs = omega arith
length-path_bytes (n ∷ path) bs = omega (arith, length-path_bytes path bs)

read_u32_be_lem :
    (a b c d : ℕ)
    → b < 256
    → c < 256
    → d < 256
    → read_u32_be a b c d ≡ ((a * 256 + b) * 256 + c) * 256 + d
unfolding read_u32_be
read_u32_be_lem a b c d hb hc hd = rw (bit_or-shift 24 a (b * 2 ^ 16) (omega arith)) (
    rw (first) (
      rw (bit_or-shift 16 (a * 256 + b) (c * 2 ^ 8) (omega arith))
        (rw (second) (bit_or-shift 8 ((a * 256 + b) * 256 + c) d (omega arith) ∙ omega arith))))
  where
    first : a * 2 ^ 24 + b * 2 ^ 16 ≡ (a * 256 + b) * 2 ^ 16
    first = omega arith

    second : (a * 256 + b) * 2 ^ 16 + c * 2 ^ 8 ≡ ((a * 256 + b) * 256 + c) * 2 ^ 8
    second = omega arith

read_indices-path_bytes :
    (path bs : List ℕ)
    → AreIndices path
    → read_indices (length path) (path_bytes path bs) ≡ done path
unfolding read_indices
read_indices-path_bytes [] bs h = refl
read_indices-path_bytes (n ∷ path) bs h = rw (read_indices-path_bytes path bs h.1) (
    ap (λ k. done (k ∷ path))
      (read_u32_be_lem (n / 16777216) (n / 65536 % 256) (n / 256 % 256) (n % 256) (omega arith)
          (omega arith) (omega arith)
        ∙ omega (arith, h.0)))

-- `read_derivation_path` reads back every path of one to five 32-bit indices from its bytes,
-- whatever follows these.
pub read_derivation_path-path_bytes :
    (path bs : List ℕ)
    → AreIndices path
    → 1 ≤ length path
    → length path ≤ 5
    → read_derivation_path
        (some (length path ∷ path_bytes path bs))
        (length (length path ∷ path_bytes path bs))
      ≡ done path
unfolding read_derivation_path
read_derivation_path-path_bytes path bs h lo hi = rw (suc-==-zero (length (path_bytes path bs))) (
    rw (le→ltb (length path) 1 lo, le→ltb 5 (length path) hi)
      (rw
        (le→ltb (suc (length (path_bytes path bs))) (1 + 4 * length path)
          (omega (arith, length-path_bytes path bs)))
        (read_indices-path_bytes path bs h)))

-- The array that a path is written into, from the start of a zeroed one.
abbrev pub padded : List ℕ → List ℕ
padded path = path ++ drop (length path) (replicate 5 0)

-- The data of a first message: one path, its length, its indices, and the first bytes to sign.
abbrev pub start_data : List ℕ → List ℕ → List ℕ
start_data path bs = 1 ∷ length path ∷ path_bytes path bs

-- The command behind its path.
abbrev with_path : List ℕ → ApduCommand
with_path path = record zero_command {
  num_derivation_paths = 1;
  derivation_path = padded path;
  derivation_path_length = length path;
}

drop-path_bytes : (path bs : List ℕ) → drop (length path * 4) (path_bytes path bs) ≡ bs
drop-path_bytes [] bs = refl
drop-path_bytes (n ∷ path) bs =
    ap (λ k. drop k (path_bytes (n ∷ path) bs)) four ∙ drop-path_bytes path bs
  where
    four : length (n ∷ path) * 4 ≡ suc (suc (suc (suc (length path * 4))))
    four = omega arith

write_path :
    (path : List ℕ)
    → length path ≤ 5
    → write_at 0 path (zero_command.derivation_path) ≡ done (padded path)
unfolding write_at zero_command
write_path path h =
    rw (le→leb (0 + length path) 5 (omega arith))
      (ap (λ k. done (path ++ drop k (replicate 5 0))) (omega arith))

path_stage_lem :
    (path bs : List ℕ)
    → length path ≤ 5
    → path_stage
        (record zero_command { num_derivation_paths = 1 })
        (some (length path ∷ path_bytes path bs))
        (length (length path ∷ path_bytes path bs))
        (done path)
      ≡ done (go_on (with_path path) (some bs) (length bs))
unfolding path_stage
path_stage_lem path bs h = rw (write_path path h) (
    ground (
      arith,
      drop-path_bytes path bs,
      length-path_bytes path bs,
      ap (λ k. drop k (length path ∷ path_bytes path bs)) behind,
    ))
  where
    behind : 1 + length path * 4 ≡ suc (length path * 4)
    behind = omega arith

start_stage :
    (k : Signing) (p1 p2 : ℕ) (path bs : List ℕ)
    → AreIndices path
    → 1 ≤ length path
    → length path ≤ 5
    → read_paths (header_of k p1 p2 (start_data path bs)) zero_command
      ≡ done (go_on (with_path path) (some bs) (length bs))
unfolding read_paths signing_stage read_path
start_stage transaction p1 p2 path bs h lo hi =
    rw (read_derivation_path-path_bytes path bs h lo hi) (path_stage_lem path bs hi)
start_stage offchain p1 p2 path bs h lo hi =
    rw (read_derivation_path-path_bytes path bs h lo hi) (path_stage_lem path bs hi)

-- The message that starts a message to sign: `more` says that another message follows.
abbrev pub starting : Signing → ℕ → Bool → List ℕ → List ℕ → List ℕ
starting k p1 true path bs =
    cla ∷ code_of k ∷ p1 ∷ 2 ∷ length (start_data path bs) ∷ start_data path bs
starting k p1 false path bs =
    cla ∷ code_of k ∷ p1 ∷ 0 ∷ length (start_data path bs) ∷ start_data path bs

abbrev p2_start : Bool → ℕ
p2_start true = 2
p2_start false = 0

starting_header :
    (k : Signing) (p1 : ℕ) (more : Bool) (path bs : List ℕ)
    → length (start_data path bs) ≤ 255
    → parse_apdu_header (starting k p1 more path bs)
      ≡ done (header_of k p1 (p2_start more) (start_data path bs))
starting_header k p1 true path bs h =
    parse_apdu_header_lem k p1 2 1 (length path ∷ path_bytes path bs) h
starting_header k p1 false path bs h =
    parse_apdu_header_lem k p1 0 1 (length path ∷ path_bytes path bs) h

handle_starting :
    (k : Signing) (p1 : ℕ) (more : Bool) (d : List ℕ) (cmd : ApduCommand) {s : Stage}
    → read_paths (header_of k p1 (p2_start more) d) zero_command ≡ done s
    → handle_header (header_of k p1 (p2_start more) d) cmd
      ≡ resume (header_of k p1 (p2_start more) d) s
unfolding handle_header
handle_starting transaction p1 true d cmd e = rw e
handle_starting transaction p1 false d cmd e = rw e
handle_starting offchain p1 true d cmd e = rw e
handle_starting offchain p1 false d cmd e = rw e

resume_start :
    (k : Signing) (p1 p2 : ℕ) (d bs : List ℕ) (cmd : ApduCommand)
    → resume (header_of k p1 p2 d) (go_on cmd (some bs) (length bs))
      ≡ copy_data
          (header_of k p1 p2 d)
          (record cmd {
            state = payload_in_progress;
            instruction = code_of k;
            non_confirm = p1 == p1_non_confirm;
          })
          (some bs)
          (length bs)
unfolding resume
resume_start k p1 p2 d bs cmd = refl

finish_start :
    (k : Signing) (p1 : ℕ) (more : Bool) (d : List ℕ) (cmd : ApduCommand)
    → cmd.state ≡ payload_in_progress
    → finish (header_of k p1 (p2_start more) d) cmd ≡ (0, record cmd { state = state_of more })
unfolding finish
finish_start k p1 true d cmd e = ap (λ st. (0, record cmd { state = st })) e
finish_start k p1 false d cmd e = refl

-- A message that starts a message to sign is accepted in any state, and what was in progress is
-- gone: the command holds exactly the path and the data of this message, and is complete where no
-- more was announced.
pub handle_starting-Holds :
    (k : Signing) (p1 : ℕ) (more : Bool) (path bs : List ℕ) (cmd : ApduCommand)
    → AreIndices path
    → 1 ≤ length path
    → length path ≤ 5
    → length (start_data path bs) ≤ 255
    → (cmd' : ApduCommand) × (apdu_handle_message (starting k p1 more path bs) cmd ≡ done (0, cmd'))
      × Holds k p1 (padded path, length path) (state_of more) bs cmd'
handle_starting-Holds k p1 more path bs cmd h lo hi small =
    let d : List ℕ = start_data path bs in
    let started : ApduCommand = record (with_path path) {
      state = payload_in_progress;
      instruction = code_of k;
      non_confirm = p1 == p1_non_confirm;
    } in
    let zeroed : length zero_command.message ≡ 1280 =
      unfold zero_command in length-replicate {A = ℕ} 1280 0 in
    let empty : zero_command.message_length ≡ 0 = unfold zero_command in refl in
    let (r, w, n, t) =
      copy_data_lem (header_of k p1 (p2_start more) d) bs started zeroed
        (omega (arith, empty, length-path_bytes path bs)) in
    let after : ApduCommand = record started {
      message = r;
      message_length = zero_command.message_length + length bs;
    } in
    (
      record after { state = state_of more },
      handle_done _ cmd (starting_header k p1 more path bs small)
          ∙ handle_starting k p1 more d cmd (start_stage k p1 (p2_start more) path bs h lo hi)
          ∙ resume_start k p1 (p2_start more) d bs (with_path path)
          ∙ w
          ∙ ap done (finish_start k p1 more d after refl),
      record {
        carries = record {
          state_is = refl;
          instruction_is = refl;
          one_path = refl;
          size = n;
          held = t ∙ ap (λ m. take m zero_command.message ++ bs) empty;
          counted = omega (arith, empty);
        };
        confirm = refl;
        path_is = refl;
        path_length_is = refl;
      },
    )
