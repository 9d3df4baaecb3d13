-- ===== src/Values/Buffer.antt =====
-- The steps of the printers that stay inside a buffer.
use ledger_embedded_app.Common.{
  ℕ, zero, suc, ◌+◌, ◌-◌, ◌≤◌, ◌<◌, ◌≡◌, refl, ◌∙◌, ◌≢◌, ◌⊎◌, inl, inr, List, [], ◌∷◌, arith, ltb,
  ◌==◌, ltb→lt, lt→ltb, ==_iff, length, length-set,
}
use ledger_embedded_app.Instruction.Safety.{IsFine-map, IsFine, IsFine-bind, get_elem?-in, fine}
use ledger_embedded_app.Signing.Safety.{if-IsFine}
use ledger_embedded_app.Values.{store, fetch, store_all, swap_loop, put_dot, strip_zeros}

pub store-IsFine :
    (i b : ℕ) (out : List ℕ) → i < length out → IsFine (λ r. length r ≡ length out) (store i b out)
store-IsFine i b out l = rw (lt→ltb i (length out) l) (fine (length-set out i b))

pub fetch-IsFine : (i : ℕ) (out : List ℕ) → i < length out → IsFine (λ b. Unit {0}) (fetch i out)
fetch-IsFine i out l = let r = get_elem?-in out i l in rw (r.1, fetch) (fine tt)

pub store_all-IsFine :
    (i : ℕ) (bytes out : List ℕ)
    → i + length bytes ≤ length out
    → IsFine (λ r. length r ≡ length out) (store_all i bytes out)
unfolding store_all
store_all-IsFine i [] out l = fine refl
store_all-IsFine i (b ∷ bytes) out l =
    IsFine-bind (store-IsFine i b out (omega arith))
      λ r e. IsFine-map (store_all-IsFine (i + 1) bytes r (omega arith)) λ s f. f ∙ e

pub swap_loop-IsFine :
    (left j k : ℕ) (out : List ℕ)
    → k ≤ left
    → (j < k → k < length out)
    → IsFine (λ r. length r ≡ length out) (swap_loop left j k out)
unfolding swap_loop
swap_loop-IsFine zero j k out enough l =
    if-IsFine (ltb j k) (λ some_left. absurd (ground arith)) λ _. fine refl
swap_loop-IsFine (suc left) j k out enough l =
    if-IsFine (ltb j k)
      (λ more.
        let lt = ltb→lt j k more in
        let lk = l lt in
        IsFine-bind (fetch-IsFine j out (omega arith)) λ tmp _.
          IsFine-bind (fetch-IsFine k out lk) λ other _.
            IsFine-bind (store-IsFine j other out (omega arith)) λ r e.
              IsFine-bind (store-IsFine k tmp r (omega arith)) λ s f.
                IsFine-map (swap_loop-IsFine left (j + 1) (k - 1) s (omega arith) λ _. omega arith)
                  λ t g. g ∙ (f ∙ e))
      λ _. fine refl

pub strip_zeros-IsFine :
    (i : ℕ) (out : List ℕ) → i < length out → IsFine (λ r. r ≤ i) (strip_zeros i out)
unfolding strip_zeros
strip_zeros-IsFine zero out l = fine (omega arith)
strip_zeros-IsFine (suc i) out l = IsFine-bind (fetch-IsFine (suc i) out l) λ b _.
    if-IsFine (b == 48)
      (λ _. IsFine-map (strip_zeros-IsFine i out (omega arith)) λ r m. omega arith)
      λ _. fine (omega arith)

pub put_dot-IsFine :
    (decimals i : ℕ) (out : List ℕ)
    → i < length out
    → IsFine
        (λ r.
          (length (r.1) ≡ length out)
          × (((r.0 ≡ i) × (i ≢ decimals)) ⊎ ((r.0 ≡ i + 1) × (i ≡ decimals))))
        (put_dot decimals i out)
unfolding put_dot
put_dot-IsFine decimals i out l =
    if-IsFine (i == decimals)
      (λ here.
        IsFine-bind (store-IsFine i 46 out l)
          λ r e. fine (e, inr (refl, (==_iff i decimals).0 here)))
      λ other. fine (refl, inl (refl, λ e. absurd (cc ((==_iff i decimals).1 e))))
