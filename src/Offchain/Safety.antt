-- ===== src/Offchain/Safety.antt =====
-- Memory safety of src/handle_sign_offchain_message.c, and which texts it accepts.
use ledger_embedded_app.Common.{
  codes, ℕ, zero, suc, ◌+◌, ◌-◌, ◌≤◌, ◌≡◌, refl, sym, subst, Bool, true, false, not, ◌||◌, List, [],
  ◌∷◌, arith, leb, ◌==◌, le→leb, length, take, drop, All, length-drop, done,
}
use ledger_embedded_app.Parser.{OffchainMessageHeader}
use ledger_embedded_app.Parser.Safety.{IsWithin}
use ledger_embedded_app.Parser.Safety.Messages.{parse_offchain_message_header_safe}
use ledger_embedded_app.Instruction.Safety.{IsFine, IsFine-bind, Ends-IsFine, fine, refused}
use ledger_embedded_app.Apdu.{ins_sign_offchain_message, invalid_message_header, ApduCommand}
use ledger_embedded_app.Apdu.Valid.{IsValid}
use ledger_embedded_app.Summary.{
  kind_of, transaction_summary_reset, is_used, transaction_summary_finalize, pubkey, string,
}
use ledger_embedded_app.Summary.Order.{finalize_lem}
use ledger_embedded_app.Printing.Room.{
  Prints, Shows, general-Prints, when-Prints, then-Prints, primary-Shows, Prints-weaken, if-Prints,
  Shows-fresh,
}
use ledger_embedded_app.Signing.{Sdk, IsSdk, Settings, is_complete, command_parser}
use ledger_embedded_app.Signing.Signer.{get_public_key-IsFine}
use ledger_embedded_app.Signing.Safety.{if-IsFine, or_throw-IsFine}
use ledger_embedded_app.Offchain.{
  is_data_ascii, offchain_message_header_length, OffchainShown, is_refused_header, is_utf8_text,
  check_text, hash_message, show_details, show_offchain, show_text, sign_offchain,
  handle_sign_offchain_message,
}
use ledger_embedded_app.Offchain.Sequences.{AreBytes}
use ledger_embedded_app.Offchain.Utf8.{IsEncoded, AreBytes-drop, is_data_utf8_lem}
use ledger_embedded_app.Offchain.Ascii.{IsPrintable, is_data_ascii→All}
use ledger_embedded_app.Printing.Yields.{Refusal, Yields-bind, IsFine-Yields, Yields-IsFine}

-- The bytes behind the header.
abbrev pub text_of : ApduCommand → List ℕ
text_of cmd =
    take (cmd.message_length - offchain_message_header_length)
      (drop offchain_message_header_length cmd.message)

-- What is known of a message that is shown.
pub record Accepts (settings : Settings) (cmd : ApduCommand) (r : OffchainShown) : Type 0 where
  pub command : IsValid r.command
  pub header_in : offchain_message_header_length ≤ cmd.message_length
  pub printable : r.is_ascii ≡ true → All IsPrintable (text_of cmd)
  pub encoded : r.is_ascii ≡ false → (settings.allow_blind_sign ≡ true) × IsEncoded (text_of cmd)
  pub finalizes : transaction_summary_finalize r.summary ≡ done r.kinds

show_details-Prints :
    (sdk : Sdk) (header : OffchainMessageHeader) (cmd : ApduCommand)
    → IsSdk sdk
    → Prints Refusal 5 (show_details sdk header cmd)
unfolding show_details
show_details-Prints sdk header cmd f = then-Prints (general-Prints _ _) (
    then-Prints (general-Prints _ _) (
      then-Prints (general-Prints _ _) (
        then-Prints (general-Prints _ _) (record {
          prints = λ s n h.
              Yields-bind
                (IsFine-Yields
                  (get_public_key-IsFine sdk cmd.derivation_path cmd.derivation_path_length f))
                λ key _. (general-Prints (codes "Signer") (pubkey key)).prints s n h;
        }))))

show_offchain-Shows :
    (sdk : Sdk) (settings : Settings) (header : OffchainMessageHeader) (is_ascii : Bool)
    (cmd : ApduCommand)
    → IsSdk sdk
    → Shows Refusal 5 (show_offchain sdk settings header is_ascii cmd)
unfolding show_offchain is_used kind_of
show_offchain-Shows sdk settings header is_ascii cmd f =
    primary-Shows (codes "Sign") (string (codes "Off-Chain Message")) refl (
      if-Prints settings.expert_mode (show_details-Prints sdk header cmd f)
        (Prints-weaken 5 (omega arith) (when-Prints (not is_ascii) (general-Prints _ _))))

not-false : {b : Bool} → not b ≡ false → b ≡ true
not-false {b = true} e = refl
not-false {b = false} e = absurd cc

check_text-IsFine :
    (settings : Settings) (header : OffchainMessageHeader) (is_ascii is_utf8 : Bool)
    → IsFine
        (λ _. is_ascii ≡ false → (is_utf8 ≡ true) × (settings.allow_blind_sign ≡ true))
        (check_text settings header is_ascii is_utf8)
unfolding check_text
check_text-IsFine settings header true is_utf8 = fine (λ e. cc)
check_text-IsFine settings header false false = refused (λ e. cc)
check_text-IsFine settings header false true =
    if-IsFine (header.format == 0) (λ _. refused (λ e. cc))
      λ _.
        if-IsFine (not settings.allow_blind_sign) (λ _. refused (λ e. cc))
          λ b. fine (λ _. (refl, not-false b))

hash_message-IsFine :
    (sdk : Sdk) (needed : Bool) (cmd : ApduCommand)
    → IsValid cmd
    → IsFine IsValid (hash_message sdk needed cmd)
unfolding hash_message
hash_message-IsFine sdk false cmd v = fine v
hash_message-IsFine sdk true cmd v =
    let there : leb cmd.message_length (length cmd.message) ≡ true =
      le→leb cmd.message_length (length cmd.message)
        (omega (arith, v.message_in, v.message_size)) in
    rw there (
      fine (record {
        message_size = v.message_size;
        message_in = v.message_in;
        path_size = v.path_size;
        path_in = v.path_in;
      }))

is_utf8_text-IsFine :
    (is_ascii : Bool) (text : List ℕ)
    → AreBytes text
    → IsFine (λ b. is_ascii ≡ false → b ≡ true → IsEncoded text) (is_utf8_text is_ascii text)
unfolding is_utf8_text
is_utf8_text-IsFine true text k = fine (λ e. cc)
is_utf8_text-IsFine false text k =
    let (b, e, t) = is_data_utf8_lem text k in rw (e, is_utf8_text) (fine (λ _ u. t.0 u))

-- The header's length is that of the text.
header_length :
    (header : OffchainMessageHeader) (cmd : ApduCommand)
    → is_refused_header header cmd ≡ false
    → header.len + offchain_message_header_length ≡ cmd.message_length
unfolding is_refused_header
header_length header cmd e = ground arith

AreBytes-take : (n : ℕ) (xs : List ℕ) → AreBytes xs → AreBytes (take n xs)
AreBytes-take zero xs k = tt
AreBytes-take (suc n) [] k = tt
AreBytes-take (suc n) (x ∷ xs) k = (k.0, AreBytes-take n xs (k.1))

-- From the text on, that the header announces `len` bytes of.
text-Accepts :
    (sdk : Sdk) (settings : Settings) (cmd : ApduCommand) (header : OffchainMessageHeader)
    → IsSdk sdk
    → IsValid cmd
    → AreBytes cmd.message
    → header.len + offchain_message_header_length ≡ cmd.message_length
    → IsFine (Accepts settings cmd) (show_text sdk settings cmd header (text_of cmd))
unfolding show_text transaction_summary_reset
text-Accepts sdk settings cmd header f v k e =
    let text = text_of cmd in
    let bytes : AreBytes text =
      AreBytes-take _ (drop offchain_message_header_length cmd.message)
        (AreBytes-drop offchain_message_header_length cmd.message k) in
    IsFine-bind (is_utf8_text-IsFine (is_data_ascii text) text bytes) λ is_utf8 utf8.
      IsFine-bind (check_text-IsFine settings header (is_data_ascii text) is_utf8) λ _ accepted.
        IsFine-bind (hash_message-IsFine sdk _ cmd v) λ cmd' v'.
          IsFine-bind
            (Yields-IsFine (
              Shows-fresh 5 (omega arith)
                (show_offchain-Shows sdk settings header (is_data_ascii text) cmd' f)))
            λ s c. rw (finalize_lem s (c.primary_set)) (
              fine (record {
                command = v';
                header_in = omega arith;
                printable = is_data_ascii→All text;
                encoded = λ other. let (u, blind) = accepted other in (blind, utf8 other u);
                finalizes = finalize_lem s (c.primary_set);
              }))

sign_offchain-IsFine :
    (sdk : Sdk) (settings : Settings) (cmd : ApduCommand) (header : OffchainMessageHeader)
    → IsSdk sdk
    → IsValid cmd
    → AreBytes cmd.message
    → IsFine (Accepts settings cmd) (sign_offchain sdk settings cmd header)
unfolding sign_offchain
sign_offchain-IsFine sdk settings cmd header f v k =
    if-IsFine (is_refused_header header cmd) (λ _. refused (λ e. cc))
      λ valid.
        let e = header_length header cmd valid in
        let n : header.len ≡ cmd.message_length - offchain_message_header_length = omega arith in
        let there : leb header.len (length (drop offchain_message_header_length cmd.message))
            ≡ true =
          le→leb header.len _ (
            omega (
              arith,
              v.message_in,
              v.message_size,
              length-drop offchain_message_header_length cmd.message,
            )) in
        rw there (
          subst
            (λ m. IsFine (Accepts settings cmd) (
              show_text sdk settings cmd header
                (take m (drop offchain_message_header_length cmd.message))))
            (sym n) (text-Accepts sdk settings cmd header f v k e))

-- On any valid command whose message consists of bytes, with any settings:
-- `handle_sign_offchain_message` accesses nothing that is not there and gives no setter a null pointer.
-- It throws a reply that is not 0, or shows a summary of its message: then the text behind the header
-- is printable ASCII, or it is UTF-8 and blind signing is allowed.
pub handle_sign_offchain_message_safe :
    (sdk : Sdk) (settings : Settings) (cmd : ApduCommand)
    → IsSdk sdk
    → IsValid cmd
    → AreBytes cmd.message
    → IsFine (Accepts settings cmd) (handle_sign_offchain_message sdk settings cmd)
unfolding handle_sign_offchain_message
handle_sign_offchain_message_safe sdk settings cmd f v k =
    let other : Bool =
      not (cmd.instruction == ins_sign_offchain_message) || not (is_complete cmd.state) in
    if-IsFine other (λ _. refused (λ e. cc))
      λ _.
        if-IsFine cmd.non_confirm (λ _. refused (λ e. cc))
          λ _.
            let w : IsWithin (command_parser cmd) = omega (arith, v.message_in, v.message_size) in
            IsFine-bind
              (or_throw-IsFine invalid_message_header (λ e. cc)
                (Ends-IsFine w (parse_offchain_message_header_safe (command_parser cmd) w)))
              λ (header, parser) _. sign_offchain-IsFine sdk settings cmd header f v k
