-- ===== src/Sequence/Items.antt =====
-- The codes of a list of items, one behind the other, are read back as the list.
use mathlib.Core.List.{append_assoc}
use mathlib.Core.Path.{subst}
use cwb.Base.{ℕ, ◌≡◌, refl, true, some, List, [], ◌∷◌, ◌++◌, length}
use cwb.BitIo.Stream.{BStream}
use cwb.BitIo.Bits.{low_bits}
use cwb.Compression.Sources.{StreamLeft}
use cwb.Index.Positional.{Hcd}
use cwb.Sequence.Decode.{symbol, read_items}
use cwb.Sequence.Codes.{IsCode, start_code-IsCode}

-- The length and the number of the code of every item.
abbrev pub Table : Type 0
Table = ℕ → ℕ × ℕ

unfoldable pub code_bits : Table → List ℕ → List ℕ
code_bits table [] = []
code_bits table (item ∷ items) = low_bits (table item).0 (table item).1 ++ code_bits table items

-- The items have these codes.
abbrev pub AllCodes : Hcd → Table → List ℕ → Type 0
AllCodes hc table [] = Unit
AllCodes hc table (item ∷ items) =
    IsCode hc item (table item).0 (table item).1 × AllCodes hc table items

module _ (hc : Hcd) (table : Table) where
  symbol-IsCode : (item l v : ℕ) (code : IsCode hc item l v) → symbol hc l v code.m ≡ some item
  unfolding symbol
  symbol-IsCode item l v code = rw (symbol, code.index) code.at

  pub read_items-AllCodes :
      (items : List ℕ) (s : BStream) (bits : List ℕ)
      → AllCodes hc table items
      → StreamLeft s (code_bits table items ++ bits)
      → read_items hc (length items) s ≡ some (items, true)
  unfolding read_items code_bits
  read_items-AllCodes [] s bits codes left = refl
  read_items-AllCodes (item ∷ items) s bits (code, codes) left =
      let (l, v) = table item in
      let rest = code_bits table items in
      let left' = subst (StreamLeft s) (append_assoc (low_bits l v) rest bits) left in
      let (r, run, left'') = start_code-IsCode hc item l v code s (rest ++ bits) left' in
      let here = symbol-IsCode item l v code in
      rw (read_items, run, here, read_items-AllCodes items r bits codes left'') refl
