-- ===== src/Values.antt =====
-- librenec/printer.c: the texts of values. An `out` is the object that the pointer points to, and
-- `out_length` what the caller says of its size; a printer gives the object as it leaves it. Characters
-- are their codes, and an `int` that counts is a natural number.
pub mod Buffer
pub mod TokenAmount
pub mod Integers
use ledger_embedded_app.Common.{
  codes, ℕ, zero, suc, ◌+◌, ◌-◌, ◌/◌, ◌%◌, ◌^◌, ◌&&◌, ◌||◌, Option, none, some, List, [], ◌∷◌, ◌++◌,
  ltb, leb, ◌==◌, if◌then◌else◌, length, get_elem?, set, Outcome, ◌>>=◌, done, bail, fault,
}

-- `out[i] = b`
abbrev pub store : ℕ → ℕ → List ℕ → Outcome (List ℕ)
store i b out = if ltb i (length out) then done (set out i b) else fault

-- `out[i]`
abbrev pub fetch : ℕ → List ℕ → Outcome ℕ
fetch i out = elim (get_elem? out i) [ none ↦ fault | some b ↦ done b ]

-- Bytes written from `i` on.
unfoldable pub store_all : ℕ → List ℕ → List ℕ → Outcome (List ℕ)
store_all i [] out = done out
store_all i (b ∷ bytes) out = do out ← store i b out; store_all (i + 1) bytes out

-- `INT_MAX`
abbrev pub int_max : ℕ
int_max = 0x7fffffff

-- `for (; j < k; j++, k--)`, which swaps; `left` rounds are enough where `k` is no more.
unfoldable pub swap_loop : ℕ → ℕ → ℕ → List ℕ → Outcome (List ℕ)
swap_loop zero j k out = if ltb j k then fault else done out
swap_loop (suc left) j k out =
    if ltb j k
    then (do
      tmp ← fetch j out
      other ← fetch k out
      out ← store j other out
      out ← store k tmp out
      swap_loop left (j + 1) (k - 1) out)
    else done out

-- The dot, where it comes before the next digit.
unfoldable pub put_dot : ℕ → ℕ → List ℕ → Outcome (ℕ × List ℕ)
put_dot decimals i out =
    if i == decimals then (do out ← store i 46 out; done (i + 1, out)) else done (i, out)

-- The `do` loop, lowest digit first; `left` rounds are enough where these and `i` make `outlen`.
unfoldable pub digits_loop : ℕ → (decimals outlen d_val i : ℕ) → List ℕ → Outcome (ℕ × List ℕ)
digits_loop zero decimals outlen d_val i out = fault
digits_loop (suc left) decimals outlen d_val i out = do
  (i, out) ← put_dot decimals i out
  out ← store i (d_val % 10 + 48) out
  if (ltb 0 (d_val / 10) || ltb (i + 1) (decimals + 1)) && ltb (i + 1) outlen
      then digits_loop left decimals outlen (d_val / 10) (i + 1) out
      else done (i + 1, out)

-- `for (...; i > 0; i--) if (out[i] != '0') break;`
unfoldable pub strip_zeros : ℕ → List ℕ → Outcome ℕ
strip_zeros zero out = done zero
strip_zeros (suc i) out = do
  b ← fetch (suc i) out
  if b == 48 then strip_zeros i out else done (suc i)

-- The asset behind the number, or the end of the text.
unfoldable pub put_asset : Option (List ℕ) → ℕ → ℕ → List ℕ → Outcome (List ℕ)
put_asset none outlen i out = store i 0 out
put_asset (some asset) outlen i out =
    if ltb outlen (i + 1 + length asset + 1)
    then bail 1
    else (do out ← store i 32 out; store_all (i + 1) (asset ++ (0 ∷ [])) out)

-- What follows the loop that writes the digits, `i` of them. With none the code reads in front of
-- the buffer.
unfoldable pub finish_amount : Option (List ℕ) → ℕ → ℕ → List ℕ → Outcome (List ℕ)
finish_amount asset outlen zero out = fault
finish_amount asset outlen (suc last) out = do
  out ← swap_loop last 0 last out
  i ← strip_zeros last out
  b ← fetch i out
  put_asset asset outlen (if b == 46 then i else i + 1) out

-- `asset` is null where there is none.
unfoldable pub print_token_amount : ℕ → Option (List ℕ) → ℕ → List ℕ → ℕ → Outcome (List ℕ)
print_token_amount amount asset decimals out out_length =
    if ltb int_max out_length then bail 1 else (do
      (i, out) ←
          if ltb 0 (out_length - 1)
          then digits_loop out_length decimals out_length amount 0 out
          else done (0, out)
      if leb out_length i then bail 1 else finish_amount asset out_length i out)

abbrev pub renec_decimals : ℕ
renec_decimals = 9

unfoldable pub print_amount : ℕ → List ℕ → ℕ → Outcome (List ℕ)
print_amount amount out out_length =
    print_token_amount amount (some (codes "RENEC")) renec_decimals out out_length

-- The `do` loop of `print_u64`, lowest digit first; `left` as in `digits_loop`.
unfoldable pub u64_loop : ℕ → (outlen d_val i : ℕ) → List ℕ → Outcome (ℕ × List ℕ)
u64_loop zero outlen d_val i out = fault
u64_loop (suc left) outlen d_val i out = do
  out ← store i (if ltb 0 d_val then d_val % 10 + 48 else 48) out
  if ltb 0 (d_val / 10) && ltb (i + 1) outlen
      then u64_loop left outlen (d_val / 10) (i + 1) out
      else done (i + 1, out)

-- With no digit, in a buffer of one byte, the text is empty.
unfoldable pub print_u64 : ℕ → List ℕ → ℕ → Outcome (List ℕ)
print_u64 u64 out out_length = if ltb int_max out_length then bail 1 else (do
  (i, out) ←
      if ltb 0 (out_length - 1) then u64_loop out_length out_length u64 0 out else done (0, out)
  if leb out_length i then bail 1 else (do out ← store i 0 out; swap_loop (i - 1) 0 (i - 1) out))

-- `out++` after the first byte is written.
unfoldable pub behind_first : (List ℕ → Outcome (List ℕ)) → List ℕ → Outcome (List ℕ)
behind_first print [] = fault
behind_first print (b ∷ out) = do out ← print out; done (b ∷ out)

-- An int64_t is its 64 bits; of a negative one the absolute value is printed behind a sign.
unfoldable pub print_i64 : ℕ → List ℕ → ℕ → Outcome (List ℕ)
print_i64 i64 out out_length =
    if ltb out_length 1
    then bail 1
    else if leb (2 ^ 63) i64
    then (do
      out ← store 0 45 out
      behind_first (λ out. print_u64 ((2 ^ 64 - 1 - i64 + 1) % 2 ^ 64) out (out_length - 1)) out)
    else print_u64 i64 out out_length
