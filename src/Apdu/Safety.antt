-- ===== src/Apdu/Safety.antt =====
-- `apdu_handle_message` of src/apdu.c on any message: no access outside an array, and a valid command.
use ledger_embedded_app.Common.{
  ℕ, zero, suc, ◌+◌, ◌*◌, ◌<◌, ◌≡◌, refl, ◌∙◌, false, not, ◌&&◌, List, [], ◌∷◌, Option, none, some,
  length, length-drop, ltb, leb, ◌==◌, if◌then◌else◌, arith, Outcome, done, bail, fault, Bool-cases,
  inl, inr, lt→ltb, le→ltb, ==_iff,
}
use ledger_embedded_app.Parser.{Pointer}
use ledger_embedded_app.Apdu.{
  ApduCommand, zero_command, ApduHeader, parse_apdu_header, modern_header, is_modern, cla,
  ins_get_pubkey, ins_get_app_configuration, payload_complete,
}
use ledger_embedded_app.Apdu.Command.{
  path_stage, read_path, read_paths, signing_stage, non_confirm_of, handle_header,
  apdu_handle_message, continues, is_signing, is_first_chunk,
}
use ledger_embedded_app.Apdu.Valid.{
  IsValid, zero_command-IsValid, Keeps, keeps, DataFits, StageFits, fits, stopped, resume-Keeps,
  write_at_ok,
}
use ledger_embedded_app.Apdu.Paths.{PathEnds, path_read, refused, read_derivation_path_ends}

path_stage-StageFits :
    (cmd : ApduCommand) (ptr : Option Pointer) (size : ℕ) {o : Outcome (List ℕ)}
    → IsValid cmd
    → DataFits ptr size
    → PathEnds ptr size o
    → StageFits (path_stage cmd ptr size o)
unfolding path_stage
path_stage-StageFits cmd ptr size v f refused = stopped v
path_stage-StageFits cmd none size v f (path_read {path} buffer e lo hi enough) = cc
path_stage-StageFits cmd (some src) size v f (path_read {path} buffer e lo hi enough) =
    let (r, w, n) = write_at_ok 0 path cmd.derivation_path (omega (arith, v.path_size)) in
    rw w (
      fits
        (record {
          message_size = v.message_size;
          message_in = v.message_in;
          path_size = n ∙ v.path_size;
          path_in = hi;
        })
        (omega (arith, length-drop (1 + length path * 4) src)))

read_path-StageFits :
    (cmd : ApduCommand) (ptr : Option Pointer) (size : ℕ)
    → IsValid cmd
    → DataFits ptr size
    → StageFits (read_path cmd ptr size)
unfolding read_path
read_path-StageFits cmd ptr size v f =
    path_stage-StageFits cmd ptr size v f (read_derivation_path_ends ptr size f)

renumber :
    (cmd : ApduCommand) (n : ℕ) → IsValid cmd → IsValid (record cmd { num_derivation_paths = n })
renumber cmd n v = record {
  message_size = v.message_size;
  message_in = v.message_in;
  path_size = v.path_size;
  path_in = v.path_in;
}

signing_stage-StageFits :
    (cmd : ApduCommand) (ptr : Option Pointer) (size : ℕ)
    → (ptr ≡ none → size ≡ 0)
    → DataFits ptr size
    → IsValid cmd
    → StageFits (signing_stage cmd ptr size)
unfolding signing_stage
signing_stage-StageFits cmd ptr zero null f v = stopped v
signing_stage-StageFits cmd none (suc size) null f v = absurd (omega (arith, null refl))
signing_stage-StageFits cmd (some []) (suc size) null f v = absurd (omega arith)
signing_stage-StageFits cmd (some (n ∷ bs)) (suc size) null f v = elim (Bool-cases (n == 1)) [
  | inl e ↦ rw e (read_path-StageFits _ (some bs) size (renumber cmd n v) (omega arith))
  | inr e ↦ rw e (stopped (renumber cmd n v))
]

-- The data of a header is there, and its pointer is null only where there is none.
pub record HeaderData (h : ApduHeader) : Type 0 where
  pub null : h.data_pointer ≡ none → h.data_length ≡ 0
  pub there : DataFits h.data_pointer h.data_length

read_paths-StageFits :
    (h : ApduHeader) (cmd : ApduCommand) → HeaderData h → IsValid cmd → StageFits (read_paths h cmd)
unfolding read_paths
read_paths-StageFits h cmd d v = elim (Bool-cases (h.instruction == ins_get_pubkey)) [
  | inl e ↦ rw e (read_path-StageFits _ h.data_pointer h.data_length (renumber cmd 1 v) d.there)
  | inr e ↦ rw e (signing_stage-StageFits cmd h.data_pointer h.data_length d.null d.there v)
]

handle_header-Keeps :
    (h : ApduHeader) (cmd : ApduCommand) → HeaderData h → IsValid cmd → Keeps (handle_header h cmd)
unfolding handle_header
handle_header-Keeps h cmd d v = elim (Bool-cases (h.instruction == ins_get_app_configuration)) [
  | inl e ↦ rw e (keeps config)
  | inr e ↦ rw e (elim (Bool-cases (is_signing h.instruction && not (is_first_chunk h))) [
    | inl ext ↦ rw ext (elim (Bool-cases (continues h cmd)) [
      | inl ok ↦ rw ok (resume-Keeps h (fits v d.there))
      | inr bad ↦ rw bad (keeps v)
    ])
    | inr fresh ↦ rw fresh (elim (Bool-cases (is_first_chunk h)) [
      | inl first ↦
          rw first (resume-Keeps h (read_paths-StageFits h zero_command d zero_command-IsValid))
      | inr later ↦ rw later (resume-Keeps h (fits zero_command-IsValid d.there))
    ])
  ])
]
  where
    config : IsValid (record zero_command {
      state = payload_complete;
      instruction = h.instruction;
      non_confirm = non_confirm_of h;
    })
    config = record {
      message_size = zero_command-IsValid.message_size;
      message_in = zero_command-IsValid.message_in;
      path_size = zero_command-IsValid.path_size;
      path_in = zero_command-IsValid.path_in;
    }

-- A header whose data is there, or a reply.
pub data HeaderEnds : Outcome ApduHeader → Type 0 where
  header : {h : ApduHeader} → HeaderData h → HeaderEnds (done h)
  no_header : {e : ℕ} → HeaderEnds (bail e)

data_of :
    (lc : ℕ) (bs : List ℕ) (ins p1 p2 : ℕ)
    → lc ≡ length bs
    → HeaderData (record {
      instruction = ins;
      p1 = p1;
      p2 = p2;
      data_pointer = if ltb 0 lc then some bs else none;
      data_length = lc;
    })
data_of zero bs ins p1 p2 e = record { null = λ _. refl; there = tt }
data_of (suc lc) bs ins p1 p2 e =
    rw (lt→ltb 0 (suc lc) (omega arith)) (record { null = λ n. cc; there = omega arith })

modern_header-HeaderEnds : (msg : List ℕ) (ins : ℕ) → HeaderEnds (modern_header msg ins)
unfolding modern_header
modern_header-HeaderEnds (c ∷ i ∷ p ∷ q ∷ lc ∷ bs) ins =
    rw (le→ltb (length (c ∷ i ∷ p ∷ q ∷ lc ∷ bs)) 5 (omega arith))
      (elim (Bool-cases (ltb 260 (length (c ∷ i ∷ p ∷ q ∷ lc ∷ bs)))) [
        | inl long ↦ rw long no_header
        | inr within ↦ rw within (elim (Bool-cases (length (c ∷ i ∷ p ∷ q ∷ lc ∷ bs) == lc + 5)) [
          | inl e ↦ rw e (header (data_of lc bs _ _ _ (omega (arith, (==_iff _ _).0 e))))
          | inr e ↦ rw e no_header
        ])
      ])
modern_header-HeaderEnds msg ins = short msg (omega arith)
  where
    short : (msg : List ℕ) → length msg < 5 → HeaderEnds (modern_header msg ins)
    short msg h = rw (lt→ltb (length msg) 5 h) no_header

parse_apdu_header-HeaderEnds : (msg : List ℕ) → HeaderEnds (parse_apdu_header msg)
unfolding parse_apdu_header
parse_apdu_header-HeaderEnds [] = no_header
parse_apdu_header-HeaderEnds (c ∷ []) = no_header
parse_apdu_header-HeaderEnds (c ∷ i ∷ bs) = rw (two_or_more) (elim (Bool-cases (c == cla)) [
  | inl e ↦ rw e (elim (Bool-cases (is_modern i)) [
    | inl m ↦ rw m (modern_header-HeaderEnds (c ∷ i ∷ bs) i)
    | inr m ↦ rw m no_header
  ])
  | inr e ↦ rw e no_header
])
  where
    two_or_more : leb (length (c ∷ i ∷ bs)) 1 ≡ false
    two_or_more = ground arith

-- On a valid command, and on any message whatever, `apdu_handle_message` accesses nothing outside
-- the message and the command's arrays, and the command that it leaves is valid, whether it replies
-- with success or with an error.
pub apdu_handle_message-Keeps :
    (msg : List ℕ) (cmd : ApduCommand) → IsValid cmd → Keeps (apdu_handle_message msg cmd)
unfolding apdu_handle_message
apdu_handle_message-Keeps msg cmd v = go (parse_apdu_header-HeaderEnds msg)
  where
    go :
        {o : Outcome ApduHeader}
        → HeaderEnds o
        → Keeps (elim o [ done h ↦ handle_header h cmd | bail e ↦ done (e, cmd) | fault ↦ fault ])
    go (header {h} d) = handle_header-Keeps h cmd d v
    go no_header = keeps v
