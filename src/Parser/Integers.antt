-- ===== src/Parser/Integers.antt =====
-- The little-endian integers of librenec/parser.c against their bytes.
use ledger_embedded_app.Common.{
  ℕ, zero, suc, ◌+◌, ◌*◌, ◌/◌, ◌%◌, ◌^◌, ◌<◌, ◌≡◌, ◌∙◌, ap, List, [], ◌∷◌, ◌++◌, length, arith,
  done, bail, ltb, if◌then◌else◌, take, drop, lt→ltb, le→ltb,
}
use ledger_embedded_app.Parser.{Parser, parse_u16, parse_u32, parse_u64}
use ledger_embedded_app.Parser.Steps.{view, parse_u8-view, bail_if_short_ok, bail_if_short_short}

-- The `k` bytes of `n`, the lowest first.
abbrev pub le_bytes : ℕ → ℕ → List ℕ
le_bytes zero n = []
le_bytes (suc k) n = n % 256 ∷ le_bytes k (n / 256)

pub parse_u16-view :
    (a b : ℕ) (xs rest : List ℕ)
    → parse_u16 (view (a ∷ b ∷ xs) rest) ≡ done (a + b * 256, view xs rest)
unfolding parse_u16
parse_u16-view a b xs rest = rw (parse_u8-view a (b ∷ xs) rest, parse_u8-view b xs rest)

pub parse_u32-view :
    (a b c d : ℕ) (xs rest : List ℕ)
    → parse_u32 (view (a ∷ b ∷ c ∷ d ∷ xs) rest)
      ≡ done (a + b * 256 + (c + d * 256) * 2 ^ 16, view xs rest)
unfolding parse_u32
parse_u32-view a b c d xs rest =
    rw (parse_u16-view a b (c ∷ d ∷ xs) rest, parse_u16-view c d xs rest)

parse_u64-view :
    (a b c d e f g h : ℕ) (xs rest : List ℕ)
    → parse_u64 (view (a ∷ b ∷ c ∷ d ∷ e ∷ f ∷ g ∷ h ∷ xs) rest)
      ≡ done (
        a + b * 256 + (c + d * 256) * 2 ^ 16 + (e + f * 256 + (g + h * 256) * 2 ^ 16) * 2 ^ 32,
        view xs rest,
      )
unfolding parse_u64
parse_u64-view a b c d e f g h xs rest =
    let p : Parser = view (a ∷ b ∷ c ∷ d ∷ e ∷ f ∷ g ∷ h ∷ xs) rest in
    rw (bail_if_short_ok 8 p (omega arith))
      (rw (parse_u32-view a b c d (e ∷ f ∷ g ∷ h ∷ xs) rest, parse_u32-view e f g h xs rest))

-- `parse_u16`, `parse_u32` and `parse_u64` read back every integer of their width from its
-- little-endian bytes, whatever follows these, and take exactly them.
pub parse_integers-le_bytes :
    (a b c : ℕ) (xs rest : List ℕ)
    → a < 2 ^ 16
    → b < 2 ^ 32
    → c < 2 ^ 64
    → (parse_u16 (view (le_bytes 2 a ++ xs) rest) ≡ done (a, view xs rest))
      × (parse_u32 (view (le_bytes 4 b ++ xs) rest) ≡ done (b, view xs rest))
      × (parse_u64 (view (le_bytes 8 c ++ xs) rest) ≡ done (c, view xs rest))
parse_integers-le_bytes a b c xs rest ha hb hc = (
  parse_u16-view _ _ xs rest ∙ ap (λ v. done (v, view xs rest)) (omega arith),
  parse_u32-view _ _ _ _ xs rest ∙ ap (λ v. done (v, view xs rest)) (omega arith),
  parse_u64-view _ _ _ _ _ _ _ _ xs rest ∙ ap (λ v. done (v, view xs rest)) (omega arith),
)

-- The number that bytes spell, the lowest first.
abbrev pub le_value : List ℕ → ℕ
le_value [] = 0
le_value (b ∷ bs) = b + 256 * le_value bs

-- `parse_u64` is total on a parser's own bytes: it answers 1 on fewer than eight of them, and else
-- takes the first eight and gives the number that they spell, lowest byte first.
pub parse_u64_lem :
    (xs rest : List ℕ)
    → parse_u64 (view xs rest)
      ≡ (if ltb (length xs) 8 then bail 1 else done (le_value (take 8 xs), view (drop 8 xs) rest))
parse_u64_lem (a ∷ b ∷ c ∷ d ∷ e ∷ f ∷ g ∷ h ∷ xs) rest =
    rw (le→ltb (length (a ∷ b ∷ c ∷ d ∷ e ∷ f ∷ g ∷ h ∷ xs)) 8 (omega arith))
      (parse_u64-view a b c d e f g h xs rest ∙ ap (λ v. done (v, view xs rest)) (omega arith))
parse_u64_lem xs rest = short xs rest (omega arith)
  where
    short :
        (xs rest : List ℕ)
        → length xs < 8
        → parse_u64 (view xs rest) ≡ (
            if ltb (length xs) 8
            then bail 1
            else done (le_value (take 8 xs), view (drop 8 xs) rest))
    short xs rest h =
        rw (lt→ltb (length xs) 8 h)
          (unfold parse_u64 in rw (bail_if_short_short 8 (view xs rest) h))
