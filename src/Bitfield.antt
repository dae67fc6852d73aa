-- ===== src/Bitfield.antt =====
-- cl/bitfields.c and cl/bitfields.h: arrays of bits with a running count of the bits that are set.
-- `BFBaseType` is `unsigned char`, so a cell is a byte and BaseTypeBits is 8. A `Bitfield` is a
-- pointer: `none` is NULL. `set_bit` and its siblings return the pointer's new target with the C result.
-- They test a signed offset only against the number of elements. A negative one passes the test, and then
-- a cell before the field is addressed (-8 and below) or 1 is shifted by a negative number (all that are not
-- multiples of 8), which C leaves undefined: the result is `none`. `free` has no effect that the model could
-- see.
pub mod Cells
pub mod Count
pub mod Update
pub mod Compare
pub mod Tests
use cwb.Base.{
  ℕ, zero, suc, ◌+◌, ◌-◌, ◌/◌, ◌%◌, ◌^◌, bit_and, bit_or, bit_xor, Bool, true, false, ◌&&◌, Option,
  none, some, List, if◌then◌else◌, ltb, ◌==◌, get_or, set, replicate, length,
}
use cwb.Base.Int.{ℤ, pos, negsuc}

-- `BFBuf`; `field` holds the cells.
pub record Bitfield : Type 0 where
  pub elements : ℕ
  pub bytes : ℕ
  pub nr_bits_set : ℕ
  pub field : List ℕ

unfoldable pub create_bitfield : ℕ → Bitfield
create_bitfield nr_of_elements =
    let full_cells =
      if nr_of_elements % 8 == 0 then nr_of_elements / 8 else nr_of_elements / 8 + 1 in
    record {
      elements = nr_of_elements;
      bytes = full_cells;
      nr_bits_set = 0;
      field = replicate full_cells 0;
    }

unfoldable pub copy_bitfield : Option Bitfield → Option Bitfield
unfolding create_bitfield
copy_bitfield none = none
copy_bitfield (some source) =
    let target = create_bitfield source.elements in
    some (record target { nr_bits_set = source.nr_bits_set; field = source.field })

-- The pointer is NULL afterwards.
unfoldable pub destroy_bitfield : Option Bitfield → Option Bitfield × ℕ
destroy_bitfield bptr = (none, 1)

unfoldable pub set_bit : Option Bitfield → ℤ → Option (Option Bitfield × ℕ)
set_bit none element = some (none, 0)
set_bit (some bf) (negsuc k) = none
set_bit (some bf) (pos element) =
    let i = element / 8 in
    let v1 = get_or bf.field i 0 in
    let cells = set bf.field i (bit_or v1 (2 ^ (element % 8)) % 256) in
    let nr = if get_or cells i 0 == v1 then bf.nr_bits_set else bf.nr_bits_set + 1 in
    if ltb element bf.elements
    then some (some (record bf { nr_bits_set = nr; field = cells }), 1)
    else some (some bf, 0)

-- `~` on a 32-bit int.
abbrev pub complement32 : ℕ → ℕ
complement32 x = 2 ^ 32 - 1 - x

unfoldable pub clear_bit : Option Bitfield → ℤ → Option (Option Bitfield × ℕ)
clear_bit none element = some (none, 0)
clear_bit (some bf) (negsuc k) = none
clear_bit (some bf) (pos element) =
    let i = element / 8 in
    let v1 = get_or bf.field i 0 in
    let cells = set bf.field i (bit_and v1 (complement32 (2 ^ (element % 8))) % 256) in
    let nr = if get_or cells i 0 == v1 then bf.nr_bits_set else bf.nr_bits_set - 1 in
    if ltb element bf.elements
    then some (some (record bf { nr_bits_set = nr; field = cells }), 1)
    else some (some bf, 0)

unfoldable pub clear_all_bits : Option Bitfield → Option Bitfield × ℕ
clear_all_bits none = (none, 0)
clear_all_bits (some bf) = (some (record bf { nr_bits_set = 0; field = replicate bf.bytes 0 }), 1)

unfoldable pub set_all_bits : Option Bitfield → Option Bitfield × ℕ
set_all_bits none = (none, 0)
set_all_bits (some bf) =
    (some (record bf { nr_bits_set = bf.elements; field = replicate bf.bytes 0xff }), 1)

unfoldable pub get_bit : Option Bitfield → ℤ → Option ℤ
get_bit none element = some (negsuc 0)
get_bit (some bf) (negsuc k) = none
get_bit (some bf) (pos element) =
    if ltb element bf.elements
    then some (
        if bit_and (get_or bf.field (element / 8) 0) (2 ^ (element % 8)) == 0 then pos 0 else pos 1)
    else some (negsuc 0)

unfoldable pub toggle_bit : Option Bitfield → ℤ → Option (Option Bitfield × ℕ)
toggle_bit none element = some (none, 0)
toggle_bit (some bf) (negsuc k) = none
toggle_bit (some bf) (pos element) =
    let i = element / 8 in
    let v1 = get_or bf.field i 0 in
    let nr =
      if bit_and v1 (2 ^ (element % 8)) == 0 then bf.nr_bits_set + 1 else bf.nr_bits_set - 1 in
    let cells = set bf.field i (bit_xor v1 (2 ^ (element % 8)) % 256) in
    if ltb element bf.elements
    then some (some (record bf { nr_bits_set = nr; field = cells }), 1)
    else some (some bf, 0)

-- `for (i = 0; i < items; i++) if (bf1->field[i] != bf2->field[i]) return 0;` with the rounds left.
unfoldable pub equal_cells : ℕ → ℕ → List ℕ → List ℕ → Bool
equal_cells zero i f g = true
equal_cells (suc n) i f g = (get_or f i 0 == get_or g i 0) && equal_cells n (i + 1) f g

-- `none` is a failed assertion.
unfoldable pub bf_equal : Bitfield → Bitfield → Option ℕ
unfolding equal_cells
bf_equal bf1 bf2 =
    let last_item_bits_used = bf1.elements % 8 in
    let items = if last_item_bits_used == 0 then bf1.bytes else bf1.bytes - 1 in
    let mask = 2 ^ last_item_bits_used - 1 in
    let last =
      if last_item_bits_used == 0
      then true
      else bit_and (bit_xor (get_or bf1.field items 0) (get_or bf2.field items 0)) mask == 0 in
    if (bf1.elements == bf2.elements) && (bf1.bytes == bf2.bytes)
    then (if last && equal_cells items 0 bf1.field bf2.field then some 1 else some 0)
    else none

-- The sign of `(signed long) a - (signed long) b`, as the two tests read it; 0 goes on with `rest`.
unfoldable pub compare_diff : ℕ → ℕ → ℤ → ℤ
compare_diff a b rest = if ltb a b then negsuc 0 else if ltb b a then pos 1 else rest

unfoldable pub compare_cells : ℕ → ℕ → List ℕ → List ℕ → ℤ → ℤ
compare_cells zero i f g rest = rest
compare_cells (suc n) i f g rest =
    compare_diff (get_or f i 0) (get_or g i 0) (compare_cells n (i + 1) f g rest)

unfoldable pub bf_compare : Bitfield → Bitfield → Option ℤ
unfolding compare_cells compare_diff
bf_compare bf1 bf2 =
    let last_item_bits_used = bf1.elements % 8 in
    let items = if last_item_bits_used == 0 then bf1.bytes else bf1.bytes - 1 in
    let mask = 2 ^ last_item_bits_used - 1 in
    let last =
      if last_item_bits_used == 0
      then pos 0
      else compare_diff (bit_and (get_or bf1.field items 0) mask)
          (bit_and (get_or bf2.field items 0) mask) (pos 0) in
    if (bf1.elements == bf2.elements) && (bf1.bytes == bf2.bytes)
    then some (compare_cells items 0 bf1.field bf2.field last)
    else none

-- The accessor `nr_bits_set`.
unfoldable pub nr_bits_set_of : Bitfield → ℕ
nr_bits_set_of bf = bf.nr_bits_set
