-- ===== src/Parser/Safety.antt =====
-- Memory safety of librenec/parser.c: on a parser whose `buffer_length` bytes are there to read, no
-- parse function reads outside them, and what it leaves is a later part of the same bytes.
pub mod Messages
use ledger_embedded_app.Common.{
  ℕ, zero, suc, ◌+◌, ◌-◌, ◌*◌, ◌≤◌, ◌≡◌, ◌≢◌, refl, ◌∙◌, ap, List, [], ◌∷◌, length, drop,
  length-drop, drop-drop, arith, Outcome, done, bail, fault, Bool-cases, inl, inr, bit_and, ◌==◌,
  if◌then◌else◌, Bool, true, false,
}
use ledger_embedded_app.Parser.{
  Parser, Parse, ◌>>=◌, return, bail_if, parse_u8, parse_u16, parse_u32, parse_u64, parse_length,
  parse_length_second, parse_length_third, parse_option, parse_i64, parse_bytes, parse_data,
  check_buffer_length, bail_if_short, feed,
}
use ledger_embedded_app.Parser.Steps.{
  after, parse_u8_ok, parse_u8_short, parse_bytes_ok, parse_bytes_short,
}
use native.Mathlib.Decide.{dec_le}

-- The bytes that the parser may read are there.
abbrev pub IsWithin : Parser → Type 0
IsWithin p = p.buffer_length ≤ length p.buffer

-- `p'` is `p` some bytes further on.
pub record Advances (p p' : Parser) : Type 0 where
  pub count : ℕ
  pub bounded : count ≤ p.buffer_length
  pub moved : p'.buffer ≡ drop count p.buffer
  pub shrunk : p'.buffer_length + count ≡ p.buffer_length

-- How a safe parse ends: with a result of which `Q` holds and a parser further on, or with a nonzero
-- code. It does not end in a fault.
pub data Ends {A : Type 0} (Q : A → Type 0) (p : Parser) : Outcome (A × Parser) → Type 0 where
  ends : {a : A} {p' : Parser} → Advances p p' → Q a → Ends Q p (done (a, p'))
  bails : {e : ℕ} → e ≢ 0 → Ends Q p (bail e)

pub Ends-ne-fault :
    {A : Type 0} {Q : A → Type 0} {p : Parser} {o : Outcome (A × Parser)} → Ends Q p o → o ≢ fault
Ends-ne-fault (ends s q) e = cc
Ends-ne-fault (bails n) e = cc

abbrev pub IsSafe : {A : Type 0} → Parse A → (A → Type 0) → Type 0
IsSafe m Q = (p : Parser) → IsWithin p → Ends Q p (m p)

pub Advances-refl : (p : Parser) → Advances p p
Advances-refl p = record { count = 0; bounded = omega arith; moved = refl; shrunk = omega arith }

pub Advances-trans : {p q r : Parser} → Advances p q → Advances q r → Advances p r
Advances-trans {p} {q} {r} s t = record {
  count = s.count + t.count;
  bounded = omega arith;
  moved = t.moved ∙ ap (drop t.count) s.moved ∙ drop-drop t.count s.count p.buffer;
  shrunk = omega arith;
}

pub Advances-IsWithin : {p q : Parser} → Advances p q → IsWithin p → IsWithin q
Advances-IsWithin {p} {q} s w = omega (arith, ap length s.moved, length-drop s.count p.buffer)

pub Ends-from :
    {B : Type 0} {R : B → Type 0} {p q : Parser} {o : Outcome (B × Parser)}
    → Advances p q
    → Ends R q o
    → Ends R p o
Ends-from s (ends t r) = ends (Advances-trans s t) r
Ends-from s (bails n) = bails n

module _ {A B : Type 0} {Q : A → Type 0} {R : B → Type 0} where
  pub Ends-bind :
      (f : A → Parse B) {p : Parser} {o : Outcome (A × Parser)}
      → ((a : A) → Q a → IsSafe (f a) R)
      → IsWithin p
      → Ends Q p o
      → Ends R p (feed f o)
  Ends-bind f k w (ends {a} {p'} s q) = Ends-from s (k a q p' (Advances-IsWithin s w))
  Ends-bind f k w (bails n) = bails n

  -- A safe parse, and a safe parse of what follows it.
  pub IsSafe-bind :
      (m : Parse A) {f : A → Parse B}
      → IsSafe m Q
      → ((a : A) → Q a → IsSafe (f a) R)
      → IsSafe (m >>= f) R
  IsSafe-bind m {f} s k p w = Ends-bind f k w (s p w)

pub IsSafe-return : {A : Type 0} {Q : A → Type 0} (a : A) → Q a → IsSafe (return a) Q
IsSafe-return a q p w = ends (Advances-refl p) q

pub IsSafe-bail_if : (e : ℕ) → IsSafe (bail_if e) (λ _. Unit {0})
IsSafe-bail_if zero p w = ends (Advances-refl p) tt
IsSafe-bail_if (suc e) p w = bails (λ h. cc)

pub Advances-after : (n : ℕ) (p : Parser) → n ≤ p.buffer_length → Advances p (after n p)
Advances-after n p h = record { count = n; bounded = h; moved = refl; shrunk = omega arith }

pub parse_bytes_safe : (n : ℕ) → IsSafe (parse_bytes n) (λ ptr. n ≤ length ptr)
parse_bytes_safe n p w = elim (dec_le n p.buffer_length) [
  | yes h ↦ rw (parse_bytes_ok n p h) (ends (Advances-after n p h) (omega arith))
  | no h ↦ rw (parse_bytes_short n p (omega arith)) (bails (λ e. cc))
]

parse_u8_from :
    (buffer : List ℕ) (n : ℕ)
    → let p : Parser = record { buffer = buffer; buffer_length = n } in
      IsWithin p → Ends (λ (b : ℕ). Unit {0}) p (parse_u8 p)
parse_u8_from bs zero w =
    let p : Parser = record { buffer = bs; buffer_length = zero } in
    rw (parse_u8_short p (omega arith)) (bails (λ e. cc))
parse_u8_from [] (suc n) w = absurd (omega arith)
parse_u8_from (b ∷ bs) (suc n) w =
    rw (parse_u8_ok b bs n)
      (ends (record { count = 1; bounded = omega arith; moved = refl; shrunk = omega arith }) tt)

pub parse_u8_safe : IsSafe parse_u8 (λ _. Unit {0})
parse_u8_safe p w = parse_u8_from p.buffer p.buffer_length w

pub parse_u16_safe : IsSafe parse_u16 (λ _. Unit {0})
unfolding parse_u16
parse_u16_safe =
    IsSafe-bind parse_u8 parse_u8_safe
      λ a _. IsSafe-bind parse_u8 parse_u8_safe λ b _. IsSafe-return _ tt

pub parse_u32_safe : IsSafe parse_u32 (λ _. Unit {0})
unfolding parse_u32
parse_u32_safe =
    IsSafe-bind parse_u16 parse_u16_safe
      λ a _. IsSafe-bind parse_u16 parse_u16_safe λ b _. IsSafe-return _ tt

pub bail_if_short_safe : (n : ℕ) → IsSafe (bail_if_short n) (λ _. Unit {0})
unfolding bail_if_short
bail_if_short_safe n p w = IsSafe-bail_if (check_buffer_length p n) p w

pub parse_u64_safe : IsSafe parse_u64 (λ _. Unit {0})
unfolding parse_u64
parse_u64_safe = IsSafe-bind (bail_if_short 8) (bail_if_short_safe 8) λ _ _.
    IsSafe-bind parse_u32 parse_u32_safe
      λ a _. IsSafe-bind parse_u32 parse_u32_safe λ b _. IsSafe-return _ tt

pub IsSafe-if :
    {A : Type 0} {Q : A → Type 0} (c : Bool) {m k : Parse A}
    → IsSafe m Q
    → IsSafe k Q
    → IsSafe (if c then m else k) Q
IsSafe-if true s t = s
IsSafe-if false s t = t

pub parse_length_safe : IsSafe parse_length (λ _. Unit {0})
unfolding parse_length parse_length_second parse_length_third
parse_length_safe = IsSafe-bind parse_u8 parse_u8_safe λ b _.
    IsSafe-if (bit_and b 0x80 == 0) (IsSafe-return _ tt) (
      IsSafe-bind parse_u8 parse_u8_safe λ c _.
        IsSafe-if (bit_and c 0x80 == 0) (IsSafe-return _ tt)
          (IsSafe-bind parse_u8 parse_u8_safe λ d _. IsSafe-return _ tt))

-- The block of bytes behind a length is there.
pub parse_data_safe : IsSafe parse_data (λ d. d.1 ≤ length d.0)
unfolding parse_data
parse_data_safe =
    IsSafe-bind parse_length parse_length_safe
      λ n _. IsSafe-bind (parse_bytes n) (parse_bytes_safe n) λ ptr h. IsSafe-return _ h

pub parse_option_safe : IsSafe parse_option (λ _. Unit {0})
unfolding parse_option
parse_option_safe = IsSafe-bind parse_u8 parse_u8_safe λ tag _.
    IsSafe-if (tag == 0) (IsSafe-return _ tt)
      (IsSafe-if (tag == 1) (IsSafe-return _ tt) λ p w. bails (λ e. cc))

pub parse_i64_safe : IsSafe parse_i64 (λ _. Unit {0})
unfolding parse_i64
parse_i64_safe = parse_u64_safe
