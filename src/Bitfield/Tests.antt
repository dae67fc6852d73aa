-- ===== src/Bitfield/Tests.antt =====
-- cl/bitfields.c at concrete inputs: fields of twelve elements.
use cwb.Base.{
  ℕ, ◌+◌, ◌-◌, ◌*◌, ◌≤◌, ◌<◌, ◌≡◌, ◌↔◌, ◌⊎◌, refl, none, some, arith, get_or, sym, ◌∙◌, [], ◌∷◌,
}
use cwb.Base.Int.{ℤ, pos, negsuc}
use cwb.Bitfield.{Bitfield, create_bitfield, set_bit, clear_bit, toggle_bit, get_bit, bf_equal}
use cwb.Bitfield.Update.{
  bit_at, IsValid, Writes, create_bitfield-IsValid, set_bit-Writes, one_bit-Writes, get_bit-bit_at,
}
use cwb.Bitfield.Compare.{SameBits, bf_equal_iff}

abbrev blank : Bitfield
blank = create_bitfield 12

blank-IsValid : IsValid blank
blank-IsValid = (create_bitfield-IsValid 12).0

in_blank : 9 < blank.elements
unfolding create_bitfield
in_blank = omega arith

one_bit-Writes_example :
    ((r : Bitfield) × (set_bit (some blank) (pos 9) ≡ some (some r, 1)) × Writes blank 9 1 r)
    × ((r : Bitfield) × (clear_bit (some blank) (pos 9) ≡ some (some r, 1)) × Writes blank 9 0 r)
    × ((r : Bitfield) × (toggle_bit (some blank) (pos 9) ≡ some (some r, 1))
        × Writes blank 9 (1 - bit_at blank 9) r)
one_bit-Writes_example = one_bit-Writes blank 9 blank-IsValid in_blank

get_bit-bit_at_example :
    (12 < blank.elements → get_bit (some blank) (pos 12) ≡ some (pos (bit_at blank 12)))
    × (blank.elements ≤ 12
        → (get_bit (some blank) (pos 12) ≡ some (negsuc 0))
          × (set_bit (some blank) (pos 12) ≡ some (some blank, 0))
          × (clear_bit (some blank) (pos 12) ≡ some (some blank, 0))
          × (toggle_bit (some blank) (pos 12) ≡ some (some blank, 0)))
    × ((get_bit (some blank) (negsuc 12) ≡ none)
        × (set_bit (some blank) (negsuc 12) ≡ none)
        × (clear_bit (some blank) (negsuc 12) ≡ none)
        × (toggle_bit (some blank) (negsuc 12) ≡ none))
    × ((offset : ℤ)
        → (get_bit none offset ≡ some (negsuc 0))
          × (set_bit none offset ≡ some (none, 0))
          × (clear_bit none offset ≡ some (none, 0))
          × (toggle_bit none offset ≡ some (none, 0)))
get_bit-bit_at_example = get_bit-bit_at blank blank-IsValid 12

-- Bit 3 set.
abbrev three : Bitfield
three = record blank { nr_bits_set = 1; field = 8 ∷ 0 ∷ [] }

three_test : set_bit (some blank) (pos 3) ≡ some (some three, 1)
unfolding set_bit create_bitfield
three_test = refl

in_three : 3 < blank.elements
unfolding create_bitfield
in_three = omega arith

three-IsValid : IsValid three
three-IsValid =
    let (r, run, w) = set_bit-Writes blank 3 blank-IsValid in_three in
    let e : r ≡ three = cc (sym run ∙ three_test) in rw e at w.valid

bf_equal_iff_example :
    ((bf_equal blank three ≡ some 1) ⊎ (bf_equal blank three ≡ some 0))
    × ((bf_equal blank three ≡ some 1) ↔ SameBits blank three)
bf_equal_iff_example = bf_equal_iff blank three blank-IsValid three-IsValid refl

first_whole : 0 * 8 + 8 ≤ blank.elements
unfolding create_bitfield
first_whole = omega arith

first_less : get_or blank.field 0 0 < get_or three.field 0 0
unfolding create_bitfield
first_less = omega arith

nothing_before : (j : ℕ) → j < 0 → get_or blank.field j 0 ≡ get_or three.field j 0
nothing_before j h = absurd (omega arith)
