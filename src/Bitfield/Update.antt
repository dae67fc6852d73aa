-- ===== src/Bitfield/Update.antt =====
-- The well-formed bit fields, and that every operation keeps them so and does to the bits what it
-- says.
use native.Mathlib.Decide.{ℕ_discrete, dec_lt}
use cwb.Base.{
  ℕ, ◌+◌, ◌-◌, ◌*◌, ◌/◌, ◌%◌, ◌^◌, ◌≤◌, ◌<◌, ◌≡◌, refl, none, some, arith, if◌then◌else◌, ◌==◌,
  get_or, set, replicate, length, length-set, length-replicate, get_or-set_self, get_or-set_ne,
  get_or-replicate, get_or-replicate_out, lt→ltb, ge→ltb, bit_and, bit_or, bit_xor,
}
use cwb.Base.Int.{ℤ, pos, negsuc}
use cwb.Bitfield.{
  Bitfield, create_bitfield, copy_bitfield, set_bit, clear_bit, clear_all_bits, set_all_bits,
  get_bit, toggle_bit, complement32,
}
use cwb.Base.Bits.{bit_of}
use cwb.Bitfield.Cells.{
  set-bit_of, clear-bit_of, toggle-bit_of, set_changes, clear_changes, test-bit_of, ones-bit_of,
  zero-bit_of,
}
use cwb.Bitfield.Count.{count, count_update, count_const, count-pos}

-- Bit `j` of the field.
abbrev pub bit_at : Bitfield → ℕ → ℕ
bit_at bf j = bit_of (get_or bf.field (j / 8) 0) (j % 8)

-- Every element has its bit in a cell of the array, the cells are bytes, and the running count is
-- the number of elements whose bit is set.
pub record IsValid (bf : Bitfield) : Type 0 where
  pub sized : length bf.field ≡ bf.bytes
  pub roomy : bf.bytes ≡ (bf.elements + 7) / 8
  pub cells : (i : ℕ) → get_or bf.field i 0 < 256
  pub counted : bf.nr_bits_set ≡ count bf.elements (bit_at bf)

-- `r` is a valid field like `bf` but for bit `e`, which is `v`.
pub record Writes (bf : Bitfield) (e v : ℕ) (r : Bitfield) : Type 0 where
  pub valid : IsValid r
  pub elements : r.elements ≡ bf.elements
  pub bits : (j : ℕ) → j < bf.elements → bit_at r j ≡ (if j == e then v else bit_at bf j)

module _ {bf : Bitfield} (valid : IsValid bf) {e : ℕ} (lt : e < bf.elements) where
  -- The cell of an element is one of the array.
  pub cell-lt-length : e / 8 < length bf.field
  cell-lt-length = omega (arith, valid.sized, valid.roomy)

  -- The three operations on one bit replace one cell and adjust the count.
  write-Writes :
      (w v nr : ℕ)
      → w < 256
      → ((j : ℕ)
          → j < 8
          → bit_of w j ≡ (if j == e % 8 then v else bit_of (get_or bf.field (e / 8) 0) j))
      → nr + bit_at bf e ≡ bf.nr_bits_set + v
      → Writes bf e v (record bf { nr_bits_set = nr; field = set bf.field (e / 8) w })
  write-Writes w v nr small here adjusted = record {
    valid = record {
      sized = rw length-set valid.sized;
      roomy = valid.roomy;
      cells = bytes;
      counted = omega (
        arith,
        valid.counted,
        at e lt,
        count_update bf.elements e (bit_at bf) (bit_at r) lt (λ j k ne. ground (arith, at j k)),
        hit,
      );
    };
    elements = refl;
    bits = at;
  }
    where
      r : Bitfield
      r = record bf { nr_bits_set = nr; field = set bf.field (e / 8) w }

      bytes : (i : ℕ) → get_or (set bf.field (e / 8) w) i 0 < 256
      bytes i = elim (ℕ_discrete (e / 8) i) [
        | yes p ↦ rw (← p) (rw (get_or-set_self bf.field (e / 8) w 0 cell-lt-length) small)
        | no p ↦ rw (get_or-set_ne bf.field (e / 8) i w 0 p) (valid.cells i)
      ]

      at : (j : ℕ) → j < bf.elements → bit_at r j ≡ (if j == e then v else bit_at bf j)
      at j k = elim (ℕ_discrete (e / 8) (j / 8)) [
        | yes p ↦
            rw (← p, get_or-set_self bf.field (e / 8) w 0 cell-lt-length)
              (ground (arith, here (j % 8)))
        | no p ↦ rw (get_or-set_ne bf.field (e / 8) (j / 8) w 0 p) (ground arith)
      ]

      hit : bit_at r e ≡ v
      hit = ground (arith, at e lt)

-- The test for a change reads the written cell back.
written_cell :
    (bf : Bitfield) (w e : ℕ)
    → e / 8 < length bf.field
    → get_or (set bf.field (e / 8) w) (e / 8) 0 ≡ w
written_cell bf w e h = get_or-set_self bf.field (e / 8) w 0 h

-- On a well-formed field a legal offset is set: the call returns 1, afterwards that bit is 1, the
-- others are as before, and the field is well-formed, so that the count is that of the bits.
pub set_bit-Writes :
    (bf : Bitfield) (e : ℕ)
    → IsValid bf
    → e < bf.elements
    → (r : Bitfield) × (set_bit (some bf) (pos e) ≡ some (some r, 1)) × Writes bf e 1 r
unfolding set_bit
set_bit-Writes bf e valid lt =
    let v1 = get_or bf.field (e / 8) 0 in
    let w = bit_or v1 (2 ^ (e % 8)) % 256 in
    let changed = set_changes v1 (e % 8) (valid.cells _) (omega arith) in
    (
      record bf {
        nr_bits_set = if w == v1 then bf.nr_bits_set else bf.nr_bits_set + 1;
        field = set bf.field (e / 8) w;
      },
      rw (lt→ltb _ _ lt, written_cell bf w e (cell-lt-length valid lt)),
      write-Writes valid lt w 1 _ (omega arith)
          (λ j h. set-bit_of v1 (e % 8) j (valid.cells _) (omega arith) h)
          (ground (arith, changed)),
    )

-- Likewise a legal offset is cleared: the call returns 1, afterwards that bit is 0, the others are
-- as before, and the field is well-formed.
pub clear_bit-Writes :
    (bf : Bitfield) (e : ℕ)
    → IsValid bf
    → e < bf.elements
    → (r : Bitfield) × (clear_bit (some bf) (pos e) ≡ some (some r, 1)) × Writes bf e 0 r
unfolding clear_bit
clear_bit-Writes bf e valid lt =
    let v1 = get_or bf.field (e / 8) 0 in
    let w = bit_and v1 (complement32 (2 ^ (e % 8))) % 256 in
    let changed = clear_changes v1 (e % 8) (valid.cells _) (omega arith) in
    let some_set = count-pos bf.elements e (bit_at bf) lt in
    (
      record bf {
        nr_bits_set = if w == v1 then bf.nr_bits_set else bf.nr_bits_set - 1;
        field = set bf.field (e / 8) w;
      },
      rw (lt→ltb _ _ lt, written_cell bf w e (cell-lt-length valid lt)),
      write-Writes valid lt w 0 _ (omega arith)
          (λ j h. clear-bit_of v1 (e % 8) j (valid.cells _) (omega arith) h)
          (ground (arith, changed, some_set, valid.counted)),
    )

-- Likewise a legal offset is flipped: afterwards its bit is the other one.
pub toggle_bit-Writes :
    (bf : Bitfield) (e : ℕ)
    → IsValid bf
    → e < bf.elements
    → (r : Bitfield) × (toggle_bit (some bf) (pos e) ≡ some (some r, 1))
      × Writes bf e (1 - bit_at bf e) r
unfolding toggle_bit
toggle_bit-Writes bf e valid lt =
    let v1 = get_or bf.field (e / 8) 0 in
    let w = bit_xor v1 (2 ^ (e % 8)) % 256 in
    let tested = test-bit_of v1 (e % 8) (valid.cells _) (omega arith) in
    let some_set = count-pos bf.elements e (bit_at bf) lt in
    (
      record bf {
        nr_bits_set =
            if bit_and v1 (2 ^ (e % 8)) == 0 then bf.nr_bits_set + 1 else bf.nr_bits_set - 1;
        field = set bf.field (e / 8) w;
      },
      rw (lt→ltb _ _ lt),
      write-Writes valid lt w (1 - bit_at bf e) _ (omega arith)
          (λ j h. ground (arith, toggle-bit_of v1 (e % 8) j (valid.cells _) (omega arith) h))
          (ground (arith, tested, some_set, valid.counted)),
    )

-- On a well-formed field and a legal offset `set_bit`, `clear_bit` and `toggle_bit` return 1. Afterwards
-- that bit is 1, 0, or the other one; the other bits are as before, and the field is well-formed, so that
-- the count is that of the bits.
pub one_bit-Writes :
    (bf : Bitfield) (e : ℕ)
    → IsValid bf
    → e < bf.elements
    → ((r : Bitfield) × (set_bit (some bf) (pos e) ≡ some (some r, 1)) × Writes bf e 1 r)
      × ((r : Bitfield) × (clear_bit (some bf) (pos e) ≡ some (some r, 1)) × Writes bf e 0 r)
      × ((r : Bitfield) × (toggle_bit (some bf) (pos e) ≡ some (some r, 1))
          × Writes bf e (1 - bit_at bf e) r)
one_bit-Writes bf e valid lt =
    (set_bit-Writes bf e valid lt, clear_bit-Writes bf e valid lt, toggle_bit-Writes bf e valid lt)

-- A field whose cells all hold one byte of equal bits.
filled-IsValid :
    (n m b v : ℕ)
    → m ≡ (n + 7) / 8
    → b < 256
    → ((k : ℕ) → k < 8 → bit_of b k ≡ v)
    → let r : Bitfield = record {
      elements = n;
      bytes = m;
      nr_bits_set = n * v;
      field = replicate m b;
    } in
      IsValid r × ((j : ℕ) → j < n → bit_at r j ≡ v)
filled-IsValid n m b v size small bits = (
  record {
    sized = length-replicate m b;
    roomy = size;
    cells = cell;
    counted = omega (arith, count_const n (bit_at r) v reads);
  },
  reads,
)
  where
    r : Bitfield
    r = record { elements = n; bytes = m; nr_bits_set = n * v; field = replicate m b }

    cell : (i : ℕ) → get_or (replicate m b) i 0 < 256
    cell i = elim (dec_lt i m) [
      | yes p ↦ rw (get_or-replicate m i b 0 p) small
      | no p ↦ rw (get_or-replicate_out m i b 0 (omega arith)) (omega arith)
    ]

    reads : (j : ℕ) → j < n → bit_at r j ≡ v
    reads j lt = rw (get_or-replicate m (j / 8) b 0 (omega arith)) (bits (j % 8) (omega arith))

-- A new field is well-formed, has the size asked for and has every bit cleared.
pub create_bitfield-IsValid :
    (n : ℕ)
    → IsValid (create_bitfield n)
      × ((create_bitfield n).elements ≡ n)
      × ((j : ℕ) → j < n → bit_at (create_bitfield n) j ≡ 0)
unfolding create_bitfield
create_bitfield-IsValid n =
    let m = if n % 8 == 0 then n / 8 else n / 8 + 1 in
    let e : n * 0 ≡ 0 = omega arith in
    let (valid, bits) = filled-IsValid n m 0 0 (ground arith) (omega arith) zero-bit_of in
    (rw e at valid, refl, bits)

-- Clearing or setting the whole of a well-formed field leaves it well-formed, of the same size, and
-- every element's bit is 0 or 1 afterwards, whatever it was.
pub all_bits-IsValid :
    (bf : Bitfield)
    → IsValid bf
    → ((r : Bitfield) × (clear_all_bits (some bf) ≡ (some r, 1))
        × IsValid r
        × (r.elements ≡ bf.elements)
        × ((j : ℕ) → j < bf.elements → bit_at r j ≡ 0))
      × ((r : Bitfield) × (set_all_bits (some bf) ≡ (some r, 1))
          × IsValid r
          × (r.elements ≡ bf.elements)
          × ((j : ℕ) → j < bf.elements → bit_at r j ≡ 1))
unfolding clear_all_bits set_all_bits
all_bits-IsValid bf valid =
    let e0 : bf.elements * 0 ≡ 0 = omega arith in
    let e1 : bf.elements * 1 ≡ bf.elements = omega arith in
    let (v0, b0) = filled-IsValid bf.elements bf.bytes 0 0 valid.roomy (omega arith) zero-bit_of in
    let (v1, b1) =
      filled-IsValid bf.elements bf.bytes 0xff 1 valid.roomy (omega arith) ones-bit_of in
    ((_, refl, rw e0 at v0, refl, b0), (_, refl, rw e1 at v1, refl, b1))

-- On a well-formed field `get_bit` returns the bit of a legal offset, and -1 for an offset from the number of
-- elements on, with which `set_bit`, `clear_bit` and `toggle_bit` return 0 and leave the field as it was. A
-- negative offset is not refused: all four then have no result (`none`), since they address memory before
-- the field or shift by a negative number. For NULL `get_bit` returns -1 and the others 0, whatever the
-- offset.
pub get_bit-bit_at :
    (bf : Bitfield)
    → IsValid bf
    → (e : ℕ)
    → (e < bf.elements → get_bit (some bf) (pos e) ≡ some (pos (bit_at bf e)))
      × (bf.elements ≤ e
          → (get_bit (some bf) (pos e) ≡ some (negsuc 0))
            × (set_bit (some bf) (pos e) ≡ some (some bf, 0))
            × (clear_bit (some bf) (pos e) ≡ some (some bf, 0))
            × (toggle_bit (some bf) (pos e) ≡ some (some bf, 0)))
      × ((get_bit (some bf) (negsuc e) ≡ none)
          × (set_bit (some bf) (negsuc e) ≡ none)
          × (clear_bit (some bf) (negsuc e) ≡ none)
          × (toggle_bit (some bf) (negsuc e) ≡ none))
      × ((offset : ℤ)
          → (get_bit none offset ≡ some (negsuc 0))
            × (set_bit none offset ≡ some (none, 0))
            × (clear_bit none offset ≡ some (none, 0))
            × (toggle_bit none offset ≡ some (none, 0)))
unfolding get_bit set_bit clear_bit toggle_bit
get_bit-bit_at bf valid e = (
  λ lt. rw (lt→ltb _ _ lt) (
      ground (
        arith,
        test-bit_of (get_or bf.field (e / 8) 0) (e % 8) (valid.cells (e / 8)) (omega arith),
      )),
  λ ge. (rw (ge→ltb _ _ ge), rw (ge→ltb _ _ ge), rw (ge→ltb _ _ ge), rw (ge→ltb _ _ ge)),
  (refl, refl, refl, refl),
  λ offset. (refl, refl, refl, refl),
)

-- A copy of a well-formed field is the field itself.
pub copy_bitfield-eq : (bf : Bitfield) → IsValid bf → copy_bitfield (some bf) ≡ some bf
unfolding copy_bitfield
copy_bitfield-eq bf valid =
    let e : (if bf.elements % 8 == 0 then bf.elements / 8 else bf.elements / 8 + 1) ≡ bf.bytes =
      ground (arith, valid.roomy) in
    rw e
