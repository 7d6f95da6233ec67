-- ===== src/SimpleAppend/Filled.antt =====
-- The buffers of examples/simple_append.cc.
use zns_emulation_bench.Prelude.{
  ℕ, zero, suc, ◌+◌, ◌≤◌, ◌<◌, ◌≡◌, refl, ap, ◌∙◌, some, List, [], ◌∷◌, get_elem?, length, All, u64,
  arith,
}
use zns_emulation_bench.SimpleAppend.{Block, set_words, memset64, fill}

-- A block whose words are all the same.
abbrev pub words : ℕ → ℕ → Block
words zero v = []
words (suc n) v = v ∷ words n v

set_words-words : (n v : ℕ) (b : Block) → length b ≡ n → set_words n v b ≡ words n v
set_words-words zero v [] e = refl
set_words-words zero v (w ∷ b) e = absurd (omega arith)
set_words-words (suc n) v [] e = absurd (omega arith)
set_words-words (suc n) v (w ∷ b) e = ap (◌∷◌ v) (set_words-words n v b (omega arith))

memset64-words : (v : ℕ) (b : Block) → length b ≡ 512 → memset64 b v 4096 ≡ words 512 v
unfolding memset64
memset64-words v b e = set_words-words 512 v b e

-- In a buffer of whole blocks that holds at least `n`, the fill makes each word of the `j`-th block the
-- block's number with the offset, for every `j` below `n`.
pub fill-words :
    (i n j : ℕ) (mem : List Block)
    → All (λ b. length b ≡ 512) mem
    → n ≤ length mem
    → j < n
    → get_elem? (fill i n mem) j ≡ some (words 512 (u64 (i + j + 0xdeadbeef)))
unfolding fill
fill-words i zero j mem h l b = absurd (omega arith)
fill-words i (suc n) j [] h l b = absurd (omega arith)
fill-words i (suc n) zero (m ∷ mem) h l b =
    ap some (memset64-words _ m h.0 ∙ ap (λ k. words 512 (u64 k)) (omega arith))
fill-words i (suc n) (suc j) (m ∷ mem) h l b =
    fill-words (i + 1) n j mem h.1 (omega arith) (omega arith)
    ∙ ap (λ k. some (words 512 (u64 k))) (omega arith)
