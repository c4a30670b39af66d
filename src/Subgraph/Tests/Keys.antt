-- ===== src/Subgraph/Tests/Keys.antt =====
-- Sort keys of two blocks, and of two rows of one block.
use claimrush.Prelude.{◌-◌, ◌≡◌, refl, false, ◌&&◌, ◌||◌, ◌++◌, codes, length, arith, ltb, ◌==◌}
use claimrush.Subgraph.SortKey.{block_sort_key, pad_numeric, pad_loop}
use claimrush.Subgraph.SortKey.Digits.{zeros, pad_loop_ends}
use claimrush.Subgraph.SortKey.Order.{text_ltb, block_sort_key-orders}

nine : block_sort_key 9 (codes "0xa-1") ≡ codes "00000000000000000009:0xa-1"
unfolding block_sort_key pad_numeric
nine = refl

ten : block_sort_key 10 (codes "0xa-0") ≡ codes "00000000000000000010:0xa-0"
unfolding block_sort_key pad_numeric
ten = refl

block_sort_key-orders_example :
    text_ltb (block_sort_key 9 (codes "0xa-1")) (block_sort_key 10 (codes "0xa-0"))
    ≡ (ltb 9 10 || (9 == 10 && text_ltb (codes "0xa-1") (codes "0xa-0")))
block_sort_key-orders_example =
    block_sort_key-orders 9 10 (codes "0xa-1") (codes "0xa-0") (omega arith) (omega arith)

pad_loop_ends_example :
    (ltb (length (pad_loop 20 (codes "42"))) 20 ≡ false)
    × (pad_loop 20 (codes "42") ≡ zeros (20 - length (codes "42")) ++ codes "42")
pad_loop_ends_example = pad_loop_ends 20 (codes "42") (omega arith)
