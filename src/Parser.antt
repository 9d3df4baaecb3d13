-- ===== src/Parser.antt =====
-- librenec/parser.c and librenec/include/renec/parser.h: the byte parser of messages.
-- A `const uint8_t*` is a `Pointer`, the bytes from its target on to the end of the object that it
-- points into, so a read at an offset may run past the end: it is then a `fault`. A parser that
-- returns nonzero is a `bail`; what it has written by then is read by no caller, and is left out.

pub mod Steps
pub mod Safety
pub mod Integers
pub mod Lengths
pub mod RoundTrip
use ledger_embedded_app.Common.{
  ℕ, zero, suc, ◌+◌, ◌-◌, ◌*◌, ◌^◌, bit_and, bit_or, Bool, true, false, List, [], ◌∷◌, length,
  codes, bytes_eq, take, drop, ltb, leb, ◌==◌, if◌then◌else◌, Outcome, done, bail, fault,
}

abbrev pub Pointer : Type 0
Pointer = List ℕ

abbrev pub pubkey_size : ℕ
pubkey_size = 32

abbrev pub hash_size : ℕ
hash_size = 32

-- `size_t` of the device, a 32-bit ARM.
abbrev pub size_mod : ℕ
size_mod = 2 ^ 32

pub record Parser : Type 0 where
  pub buffer : Pointer
  pub buffer_length : ℕ

abbrev pub Parse : Type 0 → Type 0
Parse A = Parser → Outcome (A × Parser)

-- What follows a call, given how the call ended.
abbrev pub feed : {A B : Type 0} → (A → Parse B) → Outcome (A × Parser) → Outcome (B × Parser)
feed f (done (a, p)) = f a p
feed f (bail e) = bail e
feed f fault = fault

infixl 5 ◌>>=◌ ◌>>◌
abbrev pub ◌>>=◌ : {A B : Type 0} → Parse A → (A → Parse B) → Parse B
◌>>=◌ m f p = feed f (m p)

abbrev pub ◌>>◌ : {B : Type 0} → Parse (Unit {0}) → Parse B → Parse B
m >> k = m >>= λ _. k

abbrev pub return : {A : Type 0} → A → Parse A
return a p = done (a, p)

-- `BAIL_IF(err)`, and `return err` of a nonzero `err`.
abbrev pub bail_if : ℕ → Parse (Unit {0})
bail_if zero p = done (tt, p)
bail_if (suc err) p = bail (suc err)

-- `n` bytes read through a pointer.
abbrev pub load : ℕ → Pointer → Outcome (List ℕ)
load n ptr = if leb n (length ptr) then done (take n ptr) else fault

abbrev pub get_buffer : Parse Pointer
get_buffer p = done (p.buffer, p)

-- The first `n` bytes at `parser->buffer`.
pub peek : ℕ → Parse (List ℕ)
peek n p = elim (load n p.buffer) [ done bs ↦ done (bs, p) | bail e ↦ bail e | fault ↦ fault ]

-- `*parser->buffer`
abbrev pub peek_u8 : Parse ℕ
peek_u8 p = elim p.buffer [ [] ↦ fault | b ∷ _ ↦ done (b, p) ]

pub check_buffer_length : Parser → ℕ → ℕ
check_buffer_length p num = if ltb p.buffer_length num then 1 else 0

-- `BAIL_IF(check_buffer_length(parser, num))`
pub bail_if_short : ℕ → Parse (Unit {0})
bail_if_short num p = bail_if (check_buffer_length p num) p

-- `buffer_length -= num` wraps where `num` is larger.
pub advance : ℕ → Parse (Unit {0})
advance num p = done (
  tt,
  record {
    buffer = drop num p.buffer;
    buffer_length =
        if leb num p.buffer_length then p.buffer_length - num else p.buffer_length + size_mod - num;
  },
)

pub parser_is_empty : Parser → Bool
parser_is_empty p = p.buffer_length == 0

pub parse_u8 : Parse ℕ
parse_u8 = do bail_if_short 1; value ← peek_u8; advance 1; return value

pub parse_u16 : Parse ℕ
parse_u16 = do lower ← parse_u8; upper ← parse_u8; return (lower + upper * 2 ^ 8)

pub parse_u32 : Parse ℕ
parse_u32 = do lower ← parse_u16; upper ← parse_u16; return (lower + upper * 2 ^ 16)

pub parse_u64 : Parse ℕ
parse_u64 = do
  bail_if_short 8
  lower ← parse_u32
  upper ← parse_u32
  return (lower + upper * 2 ^ 32)

-- An `int64_t` is its bit pattern.
pub parse_i64 : Parse ℕ
parse_i64 = parse_u64

-- The third byte of a length, and its second.
parse_length_third : ℕ → Parse ℕ
parse_length_third value = do b ← parse_u8; return (bit_or (bit_and b 0x7f * 2 ^ 14) value)

parse_length_second : ℕ → Parse ℕ
parse_length_second low = do
  b ← parse_u8
  let value = bit_or (bit_and b 0x7f * 2 ^ 7) low
  if bit_and b 0x80 == 0 then return value else parse_length_third value

pub parse_length : Parse ℕ
parse_length = do
  b ← parse_u8
  let value = bit_and b 0x7f
  if bit_and b 0x80 == 0 then return value else parse_length_second value

-- `enum Option`
pub data OptionTag : Type 0 where
  option_none option_some : OptionTag

pub parse_option : Parse OptionTag
parse_option = do
  maybe_option ← parse_u8
  if maybe_option == 0
      then return option_none
      else if maybe_option == 1
      then return option_some
      else λ _. bail 1

pub record SizedString : Type 0 where
  pub len : ℕ
  pub string : Pointer

-- `n` bytes are left in place, and the result points to them.
pub parse_bytes : ℕ → Parse Pointer
parse_bytes n = do bail_if_short n; ptr ← get_buffer; advance n; return ptr

pub parse_sized_string : Parse SizedString
parse_sized_string = do
  len ← parse_u64
  bail_if (if ltb (size_mod - 1) len then 1 else 0)
  ptr ← parse_bytes len
  return (record { len = len; string = ptr })

unfoldable pub parse_pubkey : Parse Pointer
parse_pubkey = parse_bytes pubkey_size

pub parse_hash : Parse Pointer
parse_hash = parse_bytes hash_size

pub record PubkeysHeader : Type 0 where
  pub num_required_signatures : ℕ
  pub num_readonly_signed_accounts : ℕ
  pub num_readonly_unsigned_accounts : ℕ
  pub pubkeys_length : ℕ

pub parse_pubkeys_header : Parse PubkeysHeader
parse_pubkeys_header = do
  required ← parse_u8
  signed ← parse_u8
  unsigned ← parse_u8
  len ← parse_length
  return (record {
    num_required_signatures = required;
    num_readonly_signed_accounts = signed;
    num_readonly_unsigned_accounts = unsigned;
    pubkeys_length = len;
  })

pub parse_pubkeys : Parse (PubkeysHeader × Pointer)
parse_pubkeys = do
  header ← parse_pubkeys_header
  pubkeys ← parse_bytes (header.pubkeys_length * pubkey_size)
  return (header, pubkeys)

pub record Version : Type 0 where
  pub versioned : Bool
  pub version : ℕ

parse_version_byte : ℕ → Parse Version
parse_version_byte version =
    if bit_and version 0x80 == 0
    then return (record { versioned = false; version = 0 })
    else do advance 1; return (record { versioned = true; version = bit_and version 0x7f })

pub parse_version : Parse Version
parse_version = do bail_if_short 1; version ← peek_u8; parse_version_byte version

pub record MessageHeader : Type 0 where
  pub versioned : Bool
  pub version : ℕ
  pub pubkeys_header : PubkeysHeader
  pub pubkeys : Pointer
  pub blockhash : Pointer
  pub instructions_length : ℕ

pub parse_message_header : Parse MessageHeader
parse_message_header = do
  v ← parse_version
  (header, pubkeys) ← parse_pubkeys
  blockhash ← parse_hash
  len ← parse_length
  return (record {
    versioned = v.versioned;
    version = v.version;
    pubkeys_header = header;
    pubkeys = pubkeys;
    blockhash = blockhash;
    instructions_length = len;
  })

-- `OFFCHAIN_MESSAGE_SIGNING_DOMAIN`
abbrev pub offchain_domain : List ℕ
offchain_domain = 0xff ∷ codes "renec offchain"

pub record OffchainMessageHeader : Type 0 where
  pub version : ℕ
  pub format : ℕ
  pub len : ℕ

-- Of `memcmp` only the sign is specified: its nonzero result stands as 1.
pub parse_offchain_message_header : Parse OffchainMessageHeader
parse_offchain_message_header = do
  bail_if_short (length offchain_domain)
  domain ← peek (length offchain_domain)
  bail_if (if bytes_eq offchain_domain domain then 0 else 1)
  advance (length offchain_domain)
  version ← parse_u8
  format ← parse_u8
  len ← parse_u16
  return (record { version = version; format = format; len = len })

-- A block of bytes behind its length.
pub parse_data : Parse (Pointer × ℕ)
parse_data = do len ← parse_length; ptr ← parse_bytes len; return (ptr, len)

pub record Instruction : Type 0 where
  pub program_id_index : ℕ
  pub accounts : Pointer
  pub accounts_length : ℕ
  pub data_bytes : Pointer
  pub data_length : ℕ

pub parse_instruction : Parse Instruction
parse_instruction = do
  index ← parse_u8
  (accounts, accounts_length) ← parse_data
  (bytes, data_length) ← parse_data
  return (record {
    program_id_index = index;
    accounts = accounts;
    accounts_length = accounts_length;
    data_bytes = bytes;
    data_length = data_length;
  })

-- `pubkeys_equal`: `memcmp` over 32 bytes at each pointer.
unfoldable pub pubkeys_equal : Pointer → Pointer → Outcome Bool
pubkeys_equal a b = elim (load pubkey_size a) [
  | done x ↦ elim (load pubkey_size b) [
    | done y ↦ done (bytes_eq x y)
    | bail e ↦ bail e
    | fault ↦ fault
  ]
  | bail e ↦ bail e
  | fault ↦ fault
]
