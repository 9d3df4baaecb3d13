-- ===== src/Apdu/Valid.antt =====
-- The command that src/apdu.c builds stays inside its arrays.
use ledger_embedded_app.Common.{
  ℕ, ◌+◌, ◌≤◌, ◌≡◌, refl, ◌∙◌, false, List, ◌++◌, Option, none, some, length, take, drop,
  length-append, length-take, length-drop, length-replicate, ltb, le→leb, ◌==◌, arith, Outcome,
  done, ◌>>=◌, Bool-cases, inl, inr,
}
use ledger_embedded_app.Parser.{Pointer}
use ledger_embedded_app.Apdu.{
  ApduCommand, zero_command, ApduHeader, write_at, max_message_length, ins_get_pubkey,
}
use ledger_embedded_app.Apdu.Command.{Reply, Stage, go_on, stop, finish, copy_data, resume}

-- The arrays of a command have their sizes, and its lengths lie inside them.
pub record IsValid (cmd : ApduCommand) : Type 0 where
  pub message_size : length cmd.message ≡ 1280
  pub message_in : cmd.message_length ≤ 1280
  pub path_size : length cmd.derivation_path ≡ 5
  pub path_in : cmd.derivation_path_length ≤ 5

pub zero_command-IsValid : IsValid zero_command
unfolding zero_command
zero_command-IsValid = record {
  message_size = length-replicate {A = ℕ} 1280 0;
  message_in = omega arith;
  path_size = refl;
  path_in = omega arith;
}

-- A write inside an array keeps its size.
pub write_at_ok :
    (offset : ℕ) (xs buffer : List ℕ)
    → offset + length xs ≤ length buffer
    → (r : List ℕ) × (write_at offset xs buffer ≡ done r) × (length r ≡ length buffer)
unfolding write_at
write_at_ok offset xs buffer h = (
  take offset buffer ++ (xs ++ drop (offset + length xs) buffer),
  rw (le→leb (offset + length xs) (length buffer) h),
  omega (
    arith,
    length-append (take offset buffer) (xs ++ drop (offset + length xs) buffer),
    length-append xs (drop (offset + length xs) buffer),
    length-take offset buffer,
    length-drop (offset + length xs) buffer,
  ),
)

-- A reply that leaves a valid command; no fault.
pub data Keeps : Outcome Reply → Type 0 where
  keeps : {e : ℕ} {cmd : ApduCommand} → IsValid cmd → Keeps (done (e, cmd))

-- A stage that leaves a valid command, and data that is there to read.
abbrev pub DataFits : Option Pointer → ℕ → Type 0
DataFits none size = Unit {0}
DataFits (some buffer) size = size ≤ length buffer

pub data StageFits : Outcome Stage → Type 0 where
  fits :
      {cmd : ApduCommand} {ptr : Option Pointer} {size : ℕ}
      → IsValid cmd
      → DataFits ptr size
      → StageFits (done (go_on cmd ptr size))
  stopped : {e : ℕ} {cmd : ApduCommand} → IsValid cmd → StageFits (done (stop e cmd))

finish-IsValid : (h : ApduHeader) (cmd : ApduCommand) → IsValid cmd → IsValid (finish h cmd).1
unfolding finish
finish-IsValid h cmd v = ground arith

copy_data-Keeps :
    (h : ApduHeader) (cmd : ApduCommand) (ptr : Option Pointer) (size : ℕ)
    → IsValid cmd
    → DataFits ptr size
    → Keeps (copy_data h cmd ptr size)
unfolding copy_data
copy_data-Keeps h cmd none size v f = elim (Bool-cases (h.instruction == ins_get_pubkey)) [
  | inl e ↦ rw e (keeps (finish-IsValid h cmd v))
  | inr e ↦ rw e (keeps v)
]
copy_data-Keeps h cmd (some buffer) size v f =
    elim (Bool-cases (ltb max_message_length (cmd.message_length + size))) [
      | inl e ↦ rw e (keeps v)
      | inr e ↦
          let (r, w, n) = write_at_ok cmd.message_length (take size buffer) cmd.message (room e) in
          rw (e, le→leb size (length buffer) f, w)
            (keeps (finish-IsValid h _ (grown r n (ground arith))))
    ]
  where
    taken : length (take size buffer) ≡ size
    taken = omega (arith, length-take size buffer)

    room :
        ltb max_message_length (cmd.message_length + size) ≡ false
        → cmd.message_length + length (take size buffer) ≤ length cmd.message
    room e = ground (arith, taken, v.message_size)

    grown :
        (r : List ℕ)
        → length r ≡ length cmd.message
        → cmd.message_length + size ≤ 1280
        → IsValid (record cmd { message = r; message_length = cmd.message_length + size })
    grown r n l = record {
      message_size = n ∙ v.message_size;
      message_in = l;
      path_size = v.path_size;
      path_in = v.path_in;
    }

pub resume-Keeps : (h : ApduHeader) {o : Outcome Stage} → StageFits o → Keeps (o >>= resume h)
unfolding resume
resume-Keeps h (fits {cmd} {ptr} {size} v f) =
    copy_data-Keeps h _ ptr size
      (record {
        message_size = v.message_size;
        message_in = v.message_in;
        path_size = v.path_size;
        path_in = v.path_in;
      })
      f
resume-Keeps h (stopped v) = keeps v
