-- ===== src/Values/Integers.antt =====
-- `print_u64` and `print_i64` stay inside their buffer.
use ledger_embedded_app.Common.{
  ℕ, zero, suc, ◌+◌, ◌-◌, ◌/◌, ◌%◌, ◌^◌, ◌≤◌, ◌<◌, ◌≡◌, refl, ap, ◌∙◌, ◌&&◌, List, [], ◌∷◌, arith,
  ltb, leb, if◌then◌else◌, length, Outcome,
}
use ledger_embedded_app.Instruction.Safety.{IsFine-map, IsFine, IsFine-bind, fine, refused}
use ledger_embedded_app.Signing.Safety.{if-IsFine}
use ledger_embedded_app.Values.{int_max, u64_loop, print_u64, behind_first, print_i64}
use ledger_embedded_app.Values.Buffer.{store-IsFine, swap_loop-IsFine}

u64_loop-IsFine :
    (left outlen d_val i : ℕ) (out : List ℕ)
    → outlen ≤ i + left
    → i < outlen
    → outlen ≤ length out
    → IsFine (λ r. length (r.1) ≡ length out) (u64_loop left outlen d_val i out)
unfolding u64_loop
u64_loop-IsFine zero outlen d_val i out enough l size = absurd (omega arith)
u64_loop-IsFine (suc left) outlen d_val i out enough l size =
    IsFine-bind (store-IsFine i (if ltb 0 d_val then d_val % 10 + 48 else 48) out (omega arith))
      λ s f.
        if-IsFine (ltb 0 (d_val / 10) && ltb (i + 1) outlen)
          (λ more.
            let inside : i + 1 < outlen = ground arith in
            IsFine-map
              (u64_loop-IsFine left outlen (d_val / 10) (i + 1) s (omega arith) inside
                (omega arith))
              λ t g. g ∙ f)
          λ _. fine f

print_u64_safe :
    (u64 : ℕ) (out : List ℕ) (out_length : ℕ)
    → out_length ≤ length out
    → IsFine (λ r. length r ≡ length out) (print_u64 u64 out out_length)
unfolding print_u64
print_u64_safe u64 out out_length size =
    if-IsFine (ltb int_max out_length) (λ _. refused (λ e. cc))
      λ _.
        IsFine-bind
          (if-IsFine (ltb 0 (out_length - 1))
            (λ some_room.
              u64_loop-IsFine out_length out_length u64 0 out (omega arith) (ground arith) size)
            λ _. fine refl)
          λ (i, r) e.
            if-IsFine (leb out_length i) (λ _. refused (λ e. cc))
              λ before.
                let inside : i < out_length = ground arith in
                IsFine-bind (store-IsFine i 0 r (omega arith)) λ s f.
                  IsFine-map (swap_loop-IsFine (i - 1) 0 (i - 1) s (omega arith) λ _. omega arith)
                    λ t g. g ∙ (f ∙ e)

behind_first-IsFine :
    (print : List ℕ → Outcome (List ℕ)) (out : List ℕ)
    → 1 ≤ length out
    → ((rest : List ℕ)
        → suc (length rest) ≡ length out
        → IsFine (λ r. length r ≡ length rest) (print rest))
    → IsFine (λ r. length r ≡ length out) (behind_first print out)
unfolding behind_first
behind_first-IsFine print [] l k = absurd (omega arith)
behind_first-IsFine print (b ∷ out) l k = IsFine-bind (k out refl) λ r e. fine (ap suc e)

-- For any value and in a buffer of any size, an empty one too, `print_u64` and `print_i64` read and
-- write nothing outside the buffer: they fail or complete.
pub print_integers_safe :
    (value : ℕ) (out : List ℕ) (out_length : ℕ)
    → out_length ≤ length out
    → IsFine (λ r. length r ≡ length out) (print_u64 value out out_length)
      × IsFine (λ r. length r ≡ length out) (print_i64 value out out_length)
unfolding print_i64
print_integers_safe value out out_length size = (
  print_u64_safe value out out_length size,
  if-IsFine (ltb out_length 1) (λ _. refused (λ e. cc))
      λ some_room.
        let room : 1 ≤ out_length = ground arith in
        if-IsFine (leb (2 ^ 63) value)
          (λ _. IsFine-bind (store-IsFine 0 45 out (omega arith)) λ s f.
            IsFine-map
              (behind_first-IsFine _ s (omega arith) λ rest e.
                print_u64_safe ((2 ^ 64 - 1 - value + 1) % 2 ^ 64) rest (out_length - 1)
                  (omega arith))
              λ t g. g ∙ f)
          λ _. print_u64_safe value out out_length size,
)
