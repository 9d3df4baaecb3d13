-- ===== src/Tests/Swap.antt =====
-- The theorem about amounts of the exchange application at a concrete amount.
use ledger_embedded_app.Common.{ℕ, ◌≤◌, ◌<◌, ◌≡◌, ◌⊎◌, none, some, List, [], ◌∷◌, arith, take, done}
use ledger_embedded_app.Swap.{swap_str_to_u64, be_value, swap_str_to_u64_lem}

abbrev sent : List ℕ
sent = 1 ∷ 0 ∷ 2 ∷ []

swap_str_to_u64_lem_example :
    ((3 ≤ 8) × (swap_str_to_u64 sent 3 ≡ done (some (be_value (take 3 sent)))))
    ⊎ ((8 < 3) × (swap_str_to_u64 sent 3 ≡ done none))
swap_str_to_u64_lem_example = swap_str_to_u64_lem sent 3 (omega arith) (omega arith)
