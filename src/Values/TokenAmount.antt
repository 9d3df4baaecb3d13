-- ===== src/Values/TokenAmount.antt =====
-- Where `print_token_amount` stays inside its buffer, and where it does not.
use ledger_embedded_app.Common.{
  ℕ, zero, suc, ◌+◌, ◌-◌, ◌/◌, ◌%◌, ◌≤◌, ◌<◌, ◌≡◌, refl, sym, ◌∙◌, ◌≢◌, ◌⊎◌, inl, inr, Bool, true,
  false, ◌&&◌, ◌||◌, Option, none, some, List, [], ◌∷◌, ◌++◌, arith, ltb, leb, ◌==◌, if◌then◌else◌,
  lt→ltb, le→ltb, ==_iff, Bool-cases, length, set, length-append, length-set, fault,
}
use ledger_embedded_app.Instruction.Safety.{IsFine-map, IsFine, IsFine-bind, fine, refused}
use ledger_embedded_app.Signing.Safety.{if-IsFine}
use ledger_embedded_app.Values.{
  int_max, put_dot, digits_loop, put_asset, finish_amount, print_token_amount,
}
use ledger_embedded_app.Values.Buffer.{
  store-IsFine, fetch-IsFine, store_all-IsFine, swap_loop-IsFine, strip_zeros-IsFine,
  put_dot-IsFine,
}

-- The place of the next digit is inside the buffer.
digit_in :
    (decimals outlen i i' : ℕ)
    → ((i' ≡ i) × (i ≢ decimals)) ⊎ ((i' ≡ i + 1) × (i ≡ decimals))
    → i < outlen
    → decimals + 1 ≢ outlen
    → i' < outlen
digit_in decimals outlen i i' (inl (e, n)) l room = omega arith
digit_in decimals outlen i i' (inr (e, n)) l room = elim (Bool-cases (decimals + 1 == outlen)) [
  | inl full ↦ absurd (room ((==_iff (decimals + 1) outlen).0 full))
  | inr free ↦ ground arith
]

digits_loop-IsFine :
    (left decimals outlen d_val i : ℕ) (out : List ℕ)
    → outlen ≤ i + left
    → i < outlen
    → outlen ≤ length out
    → decimals + 1 ≢ outlen
    → IsFine
        (λ r. (length (r.1) ≡ length out) × (1 ≤ r.0))
        (digits_loop left decimals outlen d_val i out)
unfolding digits_loop
digits_loop-IsFine zero decimals outlen d_val i out enough l size room = absurd (omega arith)
digits_loop-IsFine (suc left) decimals outlen d_val i out enough l size room =
    IsFine-bind (put_dot-IsFine decimals i out (omega arith)) λ (i', r) (e, place).
      let l' = digit_in decimals outlen i i' place l room in
      let on : i ≤ i' = elim place [ inl (p, _) ↦ omega arith | inr (p, _) ↦ omega arith ] in
      IsFine-bind (store-IsFine i' (d_val % 10 + 48) r (omega arith)) λ s f.
        if-IsFine ((ltb 0 (d_val / 10) || ltb (i' + 1) (decimals + 1)) && ltb (i' + 1) outlen)
          (λ more.
            let inside : i' + 1 < outlen = ground arith in
            IsFine-map
              (digits_loop-IsFine left decimals outlen (d_val / 10) (i' + 1) s (omega arith) inside
                (omega arith) room)
              λ t (g, n). (g ∙ (f ∙ e), n))
          λ _. fine (f ∙ e, omega arith)

put_asset-IsFine :
    (asset : Option (List ℕ)) (outlen i : ℕ) (out : List ℕ)
    → i < outlen
    → outlen ≤ length out
    → IsFine (λ r. length r ≡ length out) (put_asset asset outlen i out)
unfolding put_asset
put_asset-IsFine none outlen i out l size = store-IsFine i 0 out (omega arith)
put_asset-IsFine (some asset) outlen i out l size =
    if-IsFine (ltb outlen (i + 1 + length asset + 1)) (λ _. refused (λ e. cc))
      λ fits. IsFine-bind (store-IsFine i 32 out (omega arith)) λ r e.
        let room : i + 1 + length asset + 1 ≤ outlen = ground arith in
        IsFine-map
          (store_all-IsFine (i + 1) (asset ++ (0 ∷ [])) r
            (omega (arith, length-append asset (0 ∷ []))))
          λ s f. f ∙ e

finish_amount-IsFine :
    (asset : Option (List ℕ)) (outlen i : ℕ) (out : List ℕ)
    → 1 ≤ i
    → i < outlen
    → outlen ≤ length out
    → IsFine (λ r. length r ≡ length out) (finish_amount asset outlen i out)
unfolding finish_amount
finish_amount-IsFine asset outlen zero out some_digit l size = absurd (omega arith)
finish_amount-IsFine asset outlen (suc last) out some_digit l size =
    IsFine-bind (swap_loop-IsFine last 0 last out (omega arith) λ _. omega arith) λ r e.
      IsFine-bind (strip_zeros-IsFine last r (omega arith)) λ i m.
        IsFine-bind (fetch-IsFine i r (omega arith)) λ b _.
          IsFine-map
            (put_asset-IsFine asset outlen (if b == 46 then i else i + 1) r
              (below (b == 46) i outlen (omega arith)) (omega arith))
            λ s f. f ∙ e
  where
    below : (c : Bool) (i outlen : ℕ) → i + 1 < outlen → (if c then i else i + 1) < outlen
    below true i outlen l = omega arith
    below false i outlen l = l

-- In a buffer of at least two bytes, `print_token_amount` reads and writes nothing outside it, and
-- fails or completes, for any amount, any asset and any number of decimals but one: the length of
-- the buffer minus one.
pub print_token_amount_safe :
    (amount : ℕ) (asset : Option (List ℕ)) (decimals : ℕ) (out : List ℕ) (out_length : ℕ)
    → 2 ≤ out_length
    → out_length ≤ length out
    → decimals + 1 ≢ out_length
    → IsFine (λ r. length r ≡ length out) (print_token_amount amount asset decimals out out_length)
unfolding print_token_amount
print_token_amount_safe amount asset decimals out out_length two size room =
    if-IsFine (ltb int_max out_length) (λ _. refused (λ e. cc))
      λ _.
        let digits : ltb 0 (out_length - 1) ≡ true = ground arith in
        rw digits (
          IsFine-bind
            (digits_loop-IsFine out_length decimals out_length amount 0 out (omega arith)
              (omega arith) size room)
            λ (i, r) (e, n).
              if-IsFine (leb out_length i) (λ _. refused (λ e. cc))
                λ before.
                  IsFine-map
                    (finish_amount-IsFine asset out_length i r n (ground arith) (omega arith))
                    λ s f. f ∙ e)

both :
    {A : Type 0} (c d f : Bool) (x y z : A)
    → d ≡ true
    → f ≡ true
    → x ≡ z
    → (if (c || d) && f then x else y) ≡ z
both true d f x y z on inside e = rw inside e
both false d f x y z on inside e = rw (on, inside) e

digits_loop-overrun :
    (left decimals outlen d_val i : ℕ) (out : List ℕ)
    → outlen ≤ i + left
    → i ≤ decimals
    → decimals + 1 ≡ outlen
    → length out ≡ outlen
    → digits_loop left decimals outlen d_val i out ≡ fault
unfolding digits_loop put_dot
digits_loop-overrun zero decimals outlen d_val i out enough l e size = refl
digits_loop-overrun (suc left) decimals outlen d_val i out enough l e size =
    elim (Bool-cases (i == decimals)) [
      | inl here ↦
          let first : ltb i (length out) ≡ true = lt→ltb i (length out) (omega arith) in
          let second : ltb (i + 1) (length (set out i 46)) ≡ false =
            le→ltb (i + 1) _ (ground (arith, length-set out i 46)) in
          rw here (rw first (rw second refl))
      | inr other ↦
          let below : i < decimals = ground arith in
          let first : ltb i (length out) ≡ true = lt→ltb i (length out) (omega arith) in
          let b = d_val % 10 + 48 in
          let on : ltb (i + 1) (decimals + 1) ≡ true = lt→ltb _ _ (omega arith) in
          let inside : ltb (i + 1) outlen ≡ true = lt→ltb _ _ (omega arith) in
          rw other (
            rw first (
              both (ltb 0 (d_val / 10)) _ _ _ _ _ on inside (
                digits_loop-overrun left decimals outlen (d_val / 10) (i + 1) (set out i b)
                  (omega arith) (omega arith) e (length-set out i b ∙ size))))
    ]

-- With as many decimals as the buffer has bytes, less one, `print_token_amount` writes past the
-- buffer, whatever the amount.
pub print_token_amount-overrun :
    (amount : ℕ) (asset : Option (List ℕ)) (decimals : ℕ) (out : List ℕ) (out_length : ℕ)
    → 2 ≤ out_length
    → out_length ≤ int_max
    → out_length ≡ length out
    → decimals + 1 ≡ out_length
    → print_token_amount amount asset decimals out out_length ≡ fault
unfolding print_token_amount
print_token_amount-overrun amount asset decimals out out_length two small size full =
    let no : ltb int_max out_length ≡ false = le→ltb int_max out_length small in
    let digits : ltb 0 (out_length - 1) ≡ true = lt→ltb 0 (out_length - 1) (omega arith) in
    rw (no, digits)
      (rw
        (digits_loop-overrun out_length decimals out_length amount 0 out (omega arith) (omega arith)
          full (sym size))
        refl)
