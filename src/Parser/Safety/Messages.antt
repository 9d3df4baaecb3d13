-- ===== src/Parser/Safety/Messages.antt =====
-- Memory safety of the headers and of instructions in librenec/parser.c.
use ledger_embedded_app.Common.{
  ℕ, zero, suc, ◌-◌, ◌*◌, ◌≤◌, List, [], ◌∷◌, length, arith, bit_and, ◌==◌, if◌then◌else◌, Bool,
  true, false, Bool-cases, inl, inr, bytes_eq, ltb, take,
}
use ledger_embedded_app.Parser.{
  Parser, Parse, parse_u8, parse_u16, parse_u64, parse_length, parse_bytes, parse_data,
  parse_instruction, Instruction, parse_pubkeys_header, parse_pubkeys, parse_hash, parse_version,
  parse_version_byte, parse_message_header, MessageHeader, Version, parse_offchain_message_header,
  offchain_domain, advance, parse_sized_string, size_mod, bail_if, peek, OffchainMessageHeader,
  ◌>>=◌, ◌>>◌, return,
}
use ledger_embedded_app.Parser.Steps.{
  after, bail_if_short_ok, bail_if_short_short, advance_ok, peek_ok,
}
use ledger_embedded_app.Parser.Safety.{
  IsWithin, Ends, ends, bails, IsSafe, IsSafe-bind, IsSafe-return, IsSafe-bail_if, Advances-refl,
  Advances-after, Ends-from, Advances-IsWithin, parse_u8_safe, parse_u16_safe, parse_u64_safe,
  parse_length_safe, parse_bytes_safe, parse_data_safe,
}
use native.Mathlib.Decide.{dec_le}

-- The account indices and the data that an instruction points to are there.
pub record InstructionFits (ix : Instruction) : Type 0 where
  pub accounts_in : ix.accounts_length ≤ length ix.accounts
  pub data_in : ix.data_length ≤ length ix.data_bytes

-- `parse_instruction` reads nothing outside a parser's bytes: it fails with a nonzero code, or leaves
-- the parser further on in the same bytes and an instruction whose two blocks are there to read.
pub parse_instruction_safe :
    (p : Parser) → IsWithin p → Ends InstructionFits p (parse_instruction p)
unfolding parse_instruction
parse_instruction_safe = IsSafe-bind parse_u8 parse_u8_safe λ index _.
    IsSafe-bind parse_data parse_data_safe λ a ha.
      IsSafe-bind parse_data parse_data_safe
        λ d hd. IsSafe-return _ (record { accounts_in = ha; data_in = hd })

parse_pubkeys_header_safe : IsSafe parse_pubkeys_header (λ _. Unit {0})
unfolding parse_pubkeys_header
parse_pubkeys_header_safe = IsSafe-bind parse_u8 parse_u8_safe λ _ _.
    IsSafe-bind parse_u8 parse_u8_safe λ _ _.
      IsSafe-bind parse_u8 parse_u8_safe
        λ _ _. IsSafe-bind parse_length parse_length_safe λ _ _. IsSafe-return _ tt

parse_pubkeys_safe : IsSafe parse_pubkeys (λ r. r.0.pubkeys_length * 32 ≤ length r.1)
unfolding parse_pubkeys
parse_pubkeys_safe = IsSafe-bind parse_pubkeys_header parse_pubkeys_header_safe λ h _.
    IsSafe-bind (parse_bytes (h.pubkeys_length * 32)) (parse_bytes_safe _)
      λ ptr fits. IsSafe-return _ fits

parse_version_byte_safe :
    (b : ℕ) (p : Parser)
    → 1 ≤ p.buffer_length
    → Ends (λ (v : Version). Unit {0}) p (parse_version_byte b p)
unfolding parse_version_byte
parse_version_byte_safe b p h = elim (Bool-cases (bit_and b 0x80 == 0)) [
  | inl legacy ↦ rw legacy (ends (Advances-refl p) tt)
  | inr versioned ↦ rw (versioned, advance_ok 1 p h) (ends (Advances-after 1 p h) tt)
]

parse_version_from :
    (buffer : List ℕ) (n : ℕ)
    → let p : Parser = record { buffer = buffer; buffer_length = n } in
      IsWithin p → Ends (λ (v : Version). Unit {0}) p (parse_version p)
unfolding parse_version
parse_version_from bs zero w =
    let p : Parser = record { buffer = bs; buffer_length = zero } in
    rw (bail_if_short_short 1 p (omega arith)) (bails (λ e. cc))
parse_version_from [] (suc n) w = absurd (omega arith)
parse_version_from (b ∷ bs) (suc n) w =
    let p : Parser = record { buffer = b ∷ bs; buffer_length = suc n } in
    rw (bail_if_short_ok 1 p (omega arith)) (parse_version_byte_safe b p (omega arith))

parse_version_safe : IsSafe parse_version (λ _. Unit {0})
parse_version_safe p w = parse_version_from p.buffer p.buffer_length w

-- The account keys that a message header announces, and its block hash, are there.
pub record HeaderFits (h : MessageHeader) : Type 0 where
  pub pubkeys_in : h.pubkeys_header.pubkeys_length * 32 ≤ length h.pubkeys
  pub blockhash_in : 32 ≤ length h.blockhash

-- `parse_message_header` reads nothing outside a parser's bytes: it fails with a nonzero code, or
-- leaves the parser further on in the same bytes and a header whose announced account keys and block
-- hash are there to read.
pub parse_message_header_safe :
    (p : Parser) → IsWithin p → Ends HeaderFits p (parse_message_header p)
unfolding parse_message_header parse_hash
parse_message_header_safe = IsSafe-bind parse_version parse_version_safe λ v _.
    IsSafe-bind parse_pubkeys parse_pubkeys_safe λ k hk.
      IsSafe-bind (parse_bytes 32) (parse_bytes_safe 32) λ b hb.
        IsSafe-bind parse_length parse_length_safe
          λ n _. IsSafe-return _ (record { pubkeys_in = hk; blockhash_in = hb })

-- What the domain check leaves is the parser behind the domain.
check_domain_safe :
    (p : Parser)
    → IsWithin p
    → 15 ≤ p.buffer_length
    → (k : Parse OffchainMessageHeader) → IsSafe k (λ _. Unit {0})
    → Ends
        (λ (h : OffchainMessageHeader). Unit {0})
        p
        ((do
          domain ← peek 15
          bail_if (if bytes_eq offchain_domain domain then 0 else 1)
          advance 15
          k)
          p)
check_domain_safe p w h k sk =
    rw (peek_ok 15 p (omega arith)) (domain_read (bytes_eq offchain_domain (take 15 p.buffer)))
  where
    domain_read :
        (same : Bool)
        → Ends
            (λ (h : OffchainMessageHeader). Unit {0})
            p
            ((do bail_if (if same then 0 else 1); advance 15; k) p)
    domain_read true = rw (advance_ok 15 p h) (
        Ends-from (Advances-after 15 p h)
          (sk (after 15 p) (Advances-IsWithin (Advances-after 15 p h) w)))
    domain_read false = bails (λ e. cc)

-- `parse_offchain_message_header` reads nothing outside a parser's bytes: it fails with a nonzero
-- code, or leaves the parser further on in the same bytes.
pub parse_offchain_message_header_safe :
    (p : Parser)
    → IsWithin p
    → Ends (λ (h : OffchainMessageHeader). Unit {0}) p (parse_offchain_message_header p)
unfolding parse_offchain_message_header
parse_offchain_message_header_safe p w = elim (dec_le 15 p.buffer_length) [
  | yes h ↦ rw (bail_if_short_ok 15 p h) (check_domain_safe p w h _ fields_safe)
  | no h ↦ rw (bail_if_short_short 15 p (omega arith)) (bails (λ e. cc))
]
  where
    fields_safe :
        IsSafe
          (do
            version ← parse_u8
            format ← parse_u8
            len ← parse_u16
            return (record { version = version; format = format; len = len }))
          (λ (h : OffchainMessageHeader). Unit {0})
    fields_safe = IsSafe-bind parse_u8 parse_u8_safe λ _ _.
        IsSafe-bind parse_u8 parse_u8_safe
          λ _ _. IsSafe-bind parse_u16 parse_u16_safe λ _ _. IsSafe-return _ tt

-- A string that is parsed has the bytes that its length announces.
pub parse_sized_string_safe : IsSafe parse_sized_string (λ s. s.len ≤ length s.string)
unfolding parse_sized_string
parse_sized_string_safe = IsSafe-bind parse_u64 parse_u64_safe λ n _.
    IsSafe-bind (bail_if _) (IsSafe-bail_if (if ltb (size_mod - 1) n then 1 else 0))
      λ _ _. IsSafe-bind (parse_bytes n) (parse_bytes_safe n) λ ptr h. IsSafe-return _ h
