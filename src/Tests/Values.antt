-- ===== src/Tests/Values.antt =====
-- The theorems about printed values at concrete amounts, and runs of the printers.
use ledger_embedded_app.Common.{
  codes, ◌-◌, ◌^◌, ◌≡◌, refl, none, [], ◌∷◌, ◌++◌, arith, length, replicate, done, fault,
}
use ledger_embedded_app.Instruction.Safety.{IsFine}
use ledger_embedded_app.Values.{
  store_all, swap_loop, put_dot, digits_loop, strip_zeros, put_asset, finish_amount,
  print_token_amount, print_amount, u64_loop, print_u64, behind_first, print_i64,
}
use ledger_embedded_app.Values.TokenAmount.{print_token_amount_safe, print_token_amount-overrun}
use ledger_embedded_app.Values.Integers.{print_integers_safe}

-- 1.5 of a coin with 9 decimals.
amount_run :
    print_amount 1500000000 (replicate 16 0) 16
    ≡ done (codes "1.5 RENEC" ++ (0 ∷ 48 ∷ 0 ∷ 0 ∷ 0 ∷ 0 ∷ 0 ∷ []))
unfolding print_amount print_token_amount digits_loop put_dot finish_amount swap_loop strip_zeros
    put_asset store_all
amount_run = refl

print_token_amount_safe_example :
    IsFine (λ r. length r ≡ 16) (print_token_amount 42 none 2 (replicate 16 0) 16)
print_token_amount_safe_example =
    print_token_amount_safe 42 none 2 (replicate 16 0) 16 (omega arith) (omega arith) (omega arith)

print_token_amount-overrun_example : print_token_amount 42 none 15 (replicate 16 0) 16 ≡ fault
print_token_amount-overrun_example =
    print_token_amount-overrun 42 none 15 (replicate 16 0) 16 (omega arith) (omega arith) refl refl

negative_run :
    print_i64 (2 ^ 64 - 42) (replicate 8 1) 8 ≡ done (codes "-42" ++ (0 ∷ 1 ∷ 1 ∷ 1 ∷ 1 ∷ []))
unfolding print_i64 behind_first print_u64 u64_loop swap_loop
negative_run = refl

print_integers_safe_example :
    IsFine (λ r. length r ≡ 2) (print_u64 123 (replicate 2 0) 2)
    × IsFine (λ r. length r ≡ 2) (print_i64 123 (replicate 2 0) 2)
print_integers_safe_example = print_integers_safe 123 (replicate 2 0) 2 (omega arith)
