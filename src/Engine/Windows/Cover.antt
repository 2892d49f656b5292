-- ===== src/Engine/Windows/Cover.antt =====
-- Every byte of a long text lies in a window that reaches well beyond it on both sides.
use mathlib.Core.List.{Mem, mem-cons_self, mem-cons_of_mem}
use alfa_hakaton.Common.{
  ℕ, ◌+◌, ◌*◌, ◌≤◌, ◌<◌, ◌≡◌, ◌⊎◌, Bool-cases, Bytes, List, [], ◌∷◌, ◌++◌, inl, inr, length, leb,
  ltb, arith,
}
use alfa_hakaton.Engine.Windows.{
  chunk_size, chunk_overlap, Window, extend_before, extend_after, windows_of, windows,
}
use alfa_hakaton.Engine.Windows.Bounds.{
  IsChain, core_boundaries-IsChain, extend_before_bounds, extend_after_bounds,
}

-- A window around the byte `i`: unless the text ends first, it has 4095 bytes before it and 4096 after.
pub record Reaches (text : Bytes) (i : ℕ) (w : Window) : Type 0 where
  pub from : w.start ≤ i
  pub to : i < w.end
  pub inside : w.end ≤ length text
  pub left : (w.start ≡ 0) ⊎ (w.start + 4095 ≤ i)
  pub right : (w.end ≡ length text) ⊎ (i + 4096 < w.end)

core-Reaches :
    (text : Bytes) (a b i : ℕ)
    → a ≤ i
    → i < b
    → b ≤ length text
    → Reaches text i (record {
      start = extend_before text a chunk_overlap;
      end = extend_after text b chunk_overlap;
    })
core-Reaches text a b i h k l =
    let before = extend_before_bounds text a chunk_overlap (omega arith) in
    let after = extend_after_bounds text b chunk_overlap in omega arith

windows_of-Reaches :
    (text : Bytes) (a : ℕ) (cuts : List ℕ) (i : ℕ)
    → IsChain text a cuts
    → a ≤ i
    → i < length text
    → (w : Window) × Mem w (windows_of text (a ∷ cuts ++ length text ∷ [])) × Reaches text i w
unfolding windows_of
windows_of-Reaches text a [] i c h k =
    (_, mem-cons_self, core-Reaches text a (length text) i h k (omega arith))
windows_of-Reaches text a (b ∷ cuts) i c h k = elim (Bool-cases (ltb i b)) [
  | inl e ↦ (_, mem-cons_self, core-Reaches text a b i h (ground arith) c.0.inside)
  | inr e ↦
      let (w, m, r) = windows_of-Reaches text b cuts i c.1 (ground arith) k in
      (w, mem-cons_of_mem _ m, r)
]

-- Every byte of a text lies in a window of it that has at least 4095 bytes of context before the byte
-- and 4096 after it, or reaches that end of the text.
pub windows-Reaches :
    (text : Bytes) (i : ℕ)
    → i < length text
    → (w : Window) × Mem w (windows text) × Reaches text i w
unfolding windows
windows-Reaches text i h = elim (Bool-cases (leb (length text) (chunk_size + 2 * chunk_overlap))) [
  | inl e ↦ rw e (_, mem-cons_self, omega arith)
  | inr e ↦
      let (cuts, same, chain) = core_boundaries-IsChain text in
      rw (e, same) (windows_of-Reaches text 0 cuts i chain (omega arith) h)
]
