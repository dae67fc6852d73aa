-- ===== src/Corpus/Search.antt =====
-- cl/cdaccess.c: the binary searches in the data of attributes. The ints of the data, after `ntohl`, are
-- corpus positions, none of them negative, and so is the position that is looked for. `high` stands for
-- the C variable and 1; `nr` is the number of rounds left until the search is given up. `none` is an access
-- outside of the data, `some none` is NULL.
use Prim.Native.Nat.{compare, Ordering}
use cwb.Base.{
  ℕ, zero, suc, ◌+◌, ◌-◌, ◌*◌, ◌/◌, true, false, Option, none, some, List, ltb, leb, if◌then◌else◌,
  ◌==◌, get_elem?,
}
use cwb.Base.Int.{ℤ, pos, negsuc}

-- `if (nr > 100000)`
abbrev pub max_rounds : ℕ
max_rounds = 100000

unfoldable pub previous_mark_loop : ℕ → List ℕ → ℕ → ℕ → ℕ → Option (Option ℕ)
previous_mark_loop zero contents position low high = some none
previous_mark_loop (suc nr) contents position low high =
    let mid = (low + high - 1) / 2 in
    elim (ltb low high) [
      | false ↦ some none
      | true ↦ elim (get_elem? contents (mid * 2)) [
        | none ↦ none
        | some start ↦ elim (compare position start) [
          | Ordering.eq ↦ some (some mid)
          | Ordering.gt ↦ elim (get_elem? contents (mid * 2 + 1)) [
            | none ↦ none
            | some last ↦ elim (leb position last) [
              | true ↦ some (some mid)
              | false ↦ previous_mark_loop nr contents position (mid + 1) high
            ]
          ]
          | Ordering.lt ↦ elim (mid == low) [
            | true ↦ some none
            | false ↦ previous_mark_loop nr contents position low mid
          ]
        ]
      ]
    ]

-- The number of the region in place of the pointer to its start.
unfoldable pub get_previous_mark : List ℕ → ℕ → ℕ → Option (Option ℕ)
unfolding previous_mark_loop
get_previous_mark contents size position =
    previous_mark_loop max_rounds contents position 0 (size / 2)

-- The results of `get_extended_alignment`, where it gives up and where no region has the position.
abbrev pub gave_up : ℤ
gave_up = negsuc 0

abbrev pub cda_ealign : ℤ
cda_ealign = negsuc 8

unfoldable pub extended_alignment_loop : ℕ → List ℕ → ℕ → ℕ → ℕ → Option ℤ
extended_alignment_loop zero contents position low high =
    some (if ltb low high then gave_up else cda_ealign)
extended_alignment_loop (suc nr) contents position low high =
    let mid = (low + high - 1) / 2 in
    elim (ltb low high) [
      | false ↦ some cda_ealign
      | true ↦ elim (get_elem? contents (mid * 4)) [
        | none ↦ none
        | some start ↦ elim (get_elem? contents (mid * 4 + 1)) [
          | none ↦ none
          | some last ↦ elim (leb start position) [
            | true ↦ elim (leb position last) [
              | true ↦ some (pos mid)
              | false ↦ extended_alignment_loop nr contents position (mid + 1) high
            ]
            | false ↦ extended_alignment_loop nr contents position low mid
          ]
        ]
      ]
    ]

unfoldable pub get_extended_alignment : List ℕ → ℕ → ℕ → Option ℤ
unfolding extended_alignment_loop
get_extended_alignment contents size position =
    extended_alignment_loop max_rounds contents position 0 (size / 4)
