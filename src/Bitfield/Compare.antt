-- ===== src/Bitfield/Compare.antt =====
-- `bf_equal` and `bf_compare` look at the bits of the elements alone: the unused bits of the last
-- cell, which `set_all_bits` sets, do not count.
use cwb.Base.{
  ℕ, zero, suc, ◌+◌, ◌-◌, ◌*◌, ◌/◌, ◌%◌, ◌^◌, ◌≤◌, ◌<◌, ◌≡◌, ◌↔◌, refl, sym, ap, ◌∙◌, ◌⊎◌, inl, inr,
  Option, some, List, arith, Bool, true, false, ◌&&◌, if◌then◌else◌, ◌==◌, ==_iff, get_or, bit_and,
  bit_xor, Bool-cases,
}
use native.Mathlib.Decide.{ℕ_discrete, dec_lt}
use cwb.Base.Int.{ℤ, pos, negsuc}
use cwb.Bitfield.{Bitfield, bf_equal, bf_compare, equal_cells, compare_cells, compare_diff}
use cwb.Base.Bits.{bit_of, mod-bit_of, bit_and-mask, bit_xor-mod}
use cwb.Bitfield.Update.{bit_at, IsValid}

equal_cells_iff :
    (n i : ℕ) (f g : List ℕ)
    → (equal_cells n i f g ≡ true) ↔ ((j : ℕ) → i ≤ j → j < i + n → get_or f j 0 ≡ get_or g j 0)
unfolding equal_cells
equal_cells_iff zero i f g = (λ e j lo hi. absurd (omega arith), λ h. refl)
equal_cells_iff (suc n) i f g = (
  λ e j lo hi. elim (ℕ_discrete i j) [
    | yes p ↦ rw (← p) (ground arith)
    | no p ↦ (equal_cells_iff n (i + 1) f g).0 (ground arith) j (omega arith) (omega arith)
  ],
  λ h.
      let rest = (equal_cells_iff n (i + 1) f g).1 (λ j lo hi. h j (omega arith) (omega arith)) in
      ground (arith, h i (omega arith) (omega arith), rest),
)

-- The bits of the elements from `8 * i` on in the cell `i`, up to `l` of them.
cell_iff :
    (l x y : ℕ)
    → (bit_and (bit_xor x y) (2 ^ l - 1) ≡ 0) ↔ ((k : ℕ) → k < l → bit_of x k ≡ bit_of y k)
cell_iff l x y =
    let m = bit_and-mask l (bit_xor x y) in
    let z = bit_xor-mod l x y in
    let b = mod-bit_of l x y in (λ e. b.0 (z.0 (sym m ∙ e)), λ h. m ∙ z.1 (b.1 h))

byte_iff : (x y : ℕ) → x < 256 → y < 256 → (x ≡ y) ↔ ((k : ℕ) → k < 8 → bit_of x k ≡ bit_of y k)
byte_iff x y hx hy =
    let b = mod-bit_of 8 x y in (λ e. b.0 (ap (λ t. t % 256) e), λ h. let e = b.1 h in omega arith)

compare_diff_iff :
    (x y : ℕ) (rest : ℤ) → (compare_diff x y rest ≡ pos 0) ↔ ((x ≡ y) × (rest ≡ pos 0))
unfolding compare_diff
compare_diff_iff x y rest = (λ e. ground arith, λ e. ground arith)

compare_cells_iff :
    (n i : ℕ) (f g : List ℕ) (rest : ℤ)
    → (compare_cells n i f g rest ≡ pos 0)
      ↔ (((j : ℕ) → i ≤ j → j < i + n → get_or f j 0 ≡ get_or g j 0) × (rest ≡ pos 0))
unfolding compare_cells
compare_cells_iff zero i f g rest = (λ e. (λ j lo hi. absurd (omega arith), e), λ h. h.1)
compare_cells_iff (suc n) i f g rest =
    let step = compare_diff_iff (get_or f i 0) (get_or g i 0) (compare_cells n (i + 1) f g rest) in
    let ih = compare_cells_iff n (i + 1) f g rest in
    (
      λ e.
          let (here, later) = step.0 e in
          (
            λ j lo hi. elim (ℕ_discrete i j) [
              | yes p ↦ rw (← p) here
              | no p ↦ (ih.0 later).0 j (omega arith) (omega arith)
            ],
            (ih.0 later).1,
          ),
      λ h. step.1 (
        h.0 i (omega arith) (omega arith),
        ih.1 (λ j lo hi. h.0 j (omega arith) (omega arith), h.1),
      ),
    )

compare_cells_first :
    (n i : ℕ) (f g : List ℕ) (rest : ℤ) (k : ℕ)
    → i ≤ k
    → k < i + n
    → ((j : ℕ) → i ≤ j → j < k → get_or f j 0 ≡ get_or g j 0)
    → get_or f k 0 < get_or g k 0
    → compare_cells n i f g rest ≡ negsuc 0
unfolding compare_cells compare_diff
compare_cells_first zero i f g rest k lo hi same less = absurd (omega arith)
compare_cells_first (suc n) i f g rest k lo hi same less = elim (ℕ_discrete i k) [
  | yes p ↦ rw p (ground arith)
  | no p ↦ ground (
    arith,
    same i (omega arith) (omega arith),
    compare_cells_first n (i + 1) f g rest k (omega arith) (omega arith)
        (λ j l h. same j (omega arith) h) less,
  )
]

unsome : {x y : ℤ} → some x ≡ some y → x ≡ y
unsome e = cc

verdict :
    (t : Bool) {P : Type 0}
    → ((t ≡ true) ↔ P)
    → let r : Option ℕ = if t then some 1 else some 0 in
      ((r ≡ some 1) ⊎ (r ≡ some 0)) × ((r ≡ some 1) ↔ P)
verdict true h = (inl refl, (λ e. h.0 refl, λ p. refl))
verdict false h = (inr refl, (λ e. absurd (cc e), λ p. absurd (cc (h.1 p))))

both : (s t : Bool) → (s && t) ≡ true → (s ≡ true) × (t ≡ true)
both s t h = ground arith

abbrev pub SameBits : Bitfield → Bitfield → Type 0
SameBits a b = (j : ℕ) → j < a.elements → bit_at a j ≡ bit_at b j

module _ (a b : Bitfield) (va : IsValid a) (vb : IsValid b) (size : a.elements ≡ b.elements) where
  -- The bits of all elements, as those of the whole cells and those of the last one.
  SameBits-cells :
      (items l : ℕ)
      → a.elements ≡ items * 8 + l
      → l < 8
      → SameBits a b ↔ (
          ((j : ℕ) → j < items → get_or a.field j 0 ≡ get_or b.field j 0)
          × ((k : ℕ)
              → k < l
              → bit_of (get_or a.field items 0) k ≡ bit_of (get_or b.field items 0) k))
  SameBits-cells items l e small = (
    λ same. (
      λ j lt.
          (byte_iff _ _ (va.cells j) (vb.cells j)).1
            (λ k hk. ground (arith, same (j * 8 + k) (omega arith), place j k hk)),
      λ k hk. ground (arith, same (items * 8 + k) (omega arith), place items k (omega arith)),
    ),
    λ h j lt. elim (dec_lt (j / 8) items) [
      | yes p ↦ ap (λ t. bit_of t (j % 8)) (h.0 (j / 8) p)
      | no p ↦ let q : j / 8 ≡ items = omega arith in rw q (h.1 (j % 8) (omega arith))
    ],
  )
    where
      place : (i k : ℕ) → k < 8 → ((i * 8 + k) / 8 ≡ i) × ((i * 8 + k) % 8 ≡ k)
      place i k h = (omega arith, omega arith)

  asserted : ((a.elements == b.elements) && (a.bytes == b.bytes)) ≡ true
  asserted = ground (arith, va.roomy, vb.roomy)

  -- For well-formed fields of the same size `bf_equal` does not fail an assertion; it returns 1 if
  -- all elements have the same bit in both, and 0 otherwise.
  pub bf_equal_iff :
      ((bf_equal a b ≡ some 1) ⊎ (bf_equal a b ≡ some 0)) × ((bf_equal a b ≡ some 1) ↔ SameBits a b)
  unfolding bf_equal
  bf_equal_iff = rw asserted (elim (Bool-cases (a.elements % 8 == 0)) [
    | inl e ↦
        let bits = SameBits-cells a.bytes 0 (ground (arith, va.roomy)) (omega arith) in
        let cells = equal_cells_iff a.bytes 0 a.field b.field in
        rw (e, if◌then◌else◌)
          (verdict (equal_cells a.bytes 0 a.field b.field) (
            λ t.
                bits.1
                  (λ j lt. cells.0 t j (omega arith) (omega arith), λ k lt. absurd (omega arith)),
            λ same. cells.1 (λ j lo hi. (bits.0 same).0 j (omega arith)),
          ))
    | inr e ↦
        let l = a.elements % 8 in
        let items = a.bytes - 1 in
        let bits = SameBits-cells items l (ground (arith, va.roomy)) (omega arith) in
        let cells = equal_cells_iff items 0 a.field b.field in
        let last = cell_iff l (get_or a.field items 0) (get_or b.field items 0) in
        let masked =
          bit_and (bit_xor (get_or a.field items 0) (get_or b.field items 0)) (2 ^ l - 1) in
        rw (e, if◌then◌else◌)
          (verdict ((masked == 0) && equal_cells items 0 a.field b.field) (
            λ t.
                let (p, q) = both (masked == 0) (equal_cells items 0 a.field b.field) t in
                bits.1
                  (λ j lt. cells.0 q j (omega arith) (omega arith), last.0 ((==_iff masked 0).0 p)),
            λ same.
                let (p, q) = bits.0 same in
                rw ((==_iff masked 0).1 (last.1 q)) (cells.1 (λ j lo hi. p j (omega arith))),
          ))
  ])

  -- For well-formed fields of the same size `bf_compare` does not fail an assertion, and it returns
  -- 0 exactly when all elements have the same bit in both.
  pub bf_compare_iff :
      ((d : ℤ) × (bf_compare a b ≡ some d)) × ((bf_compare a b ≡ some (pos 0)) ↔ SameBits a b)
  unfolding bf_compare compare_diff
  bf_compare_iff = rw asserted (elim (Bool-cases (a.elements % 8 == 0)) [
    | inl e ↦
        let bits = SameBits-cells a.bytes 0 (ground (arith, va.roomy)) (omega arith) in
        let cells = compare_cells_iff a.bytes 0 a.field b.field (pos 0) in
        rw (e, if◌then◌else◌)
          (
            (_, refl),
            (
              λ t. bits.1 (
                λ j lt. (cells.0 (unsome t)).0 j (omega arith) (omega arith),
                λ k lt. absurd (omega arith),
              ),
              λ same. ap some (cells.1 (λ j lo hi. (bits.0 same).0 j (omega arith), refl)),
            ),
          )
    | inr e ↦
        let l = a.elements % 8 in
        let items = a.bytes - 1 in
        let bits = SameBits-cells items l (ground (arith, va.roomy)) (omega arith) in
        let x = get_or a.field items 0 in
        let y = get_or b.field items 0 in
        let mask = 2 ^ l - 1 in
        let last : ((bit_and x mask ≡ bit_and y mask)
            ↔ ((k : ℕ) → k < l → bit_of x k ≡ bit_of y k)) =
          rw (bit_and-mask l x, bit_and-mask l y) (mod-bit_of l x y) in
        let cells =
          compare_cells_iff items 0 a.field b.field
            (compare_diff (bit_and x mask) (bit_and y mask) (pos 0)) in
        let diff = compare_diff_iff (bit_and x mask) (bit_and y mask) (pos 0) in
        rw (e, if◌then◌else◌)
          (
            (_, refl),
            (
              λ t.
                  let (p, q) = cells.0 (unsome t) in
                  bits.1 (λ j lt. p j (omega arith) (omega arith), last.0 (diff.0 q).0),
              λ same.
                  let (p, q) = bits.0 same in
                  ap some (cells.1 (λ j lo hi. p j (omega arith), diff.1 (last.1 q, refl))),
            ),
          )
  ])

  -- The whole cells decide in their order: where the first cell in which two well-formed fields of
  -- the same size differ is smaller in the first field, `bf_compare` returns -1.
  pub bf_compare_first :
      (i : ℕ)
      → i * 8 + 8 ≤ a.elements
      → ((j : ℕ) → j < i → get_or a.field j 0 ≡ get_or b.field j 0)
      → get_or a.field i 0 < get_or b.field i 0
      → bf_compare a b ≡ some (negsuc 0)
  unfolding bf_compare compare_diff
  bf_compare_first i whole same less = rw asserted (elim (Bool-cases (a.elements % 8 == 0)) [
    | inl e ↦
        rw (e, if◌then◌else◌)
          (ap some (
            compare_cells_first a.bytes 0 a.field b.field _ i (omega arith)
              (ground (arith, va.roomy)) (λ j lo hi. same j hi) less))
    | inr e ↦
        rw (e, if◌then◌else◌)
          (ap some (
            compare_cells_first (a.bytes - 1) 0 a.field b.field _ i (omega arith)
              (ground (arith, va.roomy)) (λ j lo hi. same j hi) less))
  ])
