-- ===== src/Tests/Offchain.antt =====
-- The theorems about off-chain messages at concrete texts.
use ledger_embedded_app.Common.{
  ℕ, zero, suc, ◌≡◌, ◌↔◌, Bool, true, false, some, List, [], ◌∷◌, ◌++◌, arith, replicate,
  length-append, length-replicate,
}
use ledger_embedded_app.Parser.{offchain_domain}
use ledger_embedded_app.Instruction.Safety.{IsFine}
use ledger_embedded_app.Apdu.{ApduCommand, zero_command, payload_complete}
use ledger_embedded_app.Apdu.Valid.{IsValid, zero_command-IsValid}
use ledger_embedded_app.Signing.{Settings}
use ledger_embedded_app.Offchain.{is_data_utf8, handle_sign_offchain_message}
use ledger_embedded_app.Offchain.Sequences.{AreBytes}
use ledger_embedded_app.Offchain.Utf8.{IsEncoded, is_data_utf8_lem}
use ledger_embedded_app.Offchain.Safety.{Accepts, handle_sign_offchain_message_safe}
use ledger_embedded_app.Tests.Signing.{twos, twos-IsSdk}

-- U+00E9 and U+20AC.
abbrev text : List ℕ
text = 0xc3 ∷ 0xa9 ∷ 0xe2 ∷ 0x82 ∷ 0xac ∷ []

is_data_utf8_lem_example : (b : Bool) × (is_data_utf8 text ≡ some b) × ((b ≡ true) ↔ IsEncoded text)
is_data_utf8_lem_example = is_data_utf8_lem text (omega arith)

replicate-AreBytes : (n : ℕ) → AreBytes (replicate n 0)
replicate-AreBytes zero = tt
replicate-AreBytes (suc n) = (omega arith, replicate-AreBytes n)

append-AreBytes : (xs ys : List ℕ) → AreBytes xs → AreBytes ys → AreBytes (xs ++ ys)
append-AreBytes [] ys k l = l
append-AreBytes (x ∷ xs) ys k l = (k.0, append-AreBytes xs ys (k.1) l)

-- A message of version 0 and format 0 with the text "hi".
abbrev message : List ℕ
message = offchain_domain ++ (0 ∷ 0 ∷ 2 ∷ 0 ∷ 104 ∷ 105 ∷ [])

abbrev command : ApduCommand
command = record zero_command {
  state = payload_complete;
  instruction = 4;
  derivation_path_length = 1;
  message = message ++ replicate 1259 0;
  message_length = 21;
}

command-IsValid : IsValid command
command-IsValid = record {
  message_size =
      omega (arith, length-append message (replicate 1259 0), length-replicate {A = ℕ} 1259 0);
  message_in = omega arith;
  path_size = zero_command-IsValid.path_size;
  path_in = omega arith;
}

abbrev settings : Settings
settings = record { expert_mode = true; allow_blind_sign = false }

handle_sign_offchain_message_safe_example :
    IsFine (Accepts settings command) (handle_sign_offchain_message twos settings command)
handle_sign_offchain_message_safe_example =
    handle_sign_offchain_message_safe twos settings command twos-IsSdk command-IsValid
      (append-AreBytes message (replicate 1259 0) (omega arith) (replicate-AreBytes 1259))
