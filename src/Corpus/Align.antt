-- ===== src/Corpus/Align.antt =====
-- cl/cdaccess.c: access to alignment attributes. A component is its data, or `none` where
-- `ensure_component` returns NULL; `xalign_exists` says whether the state of the extended component is loaded
-- or unloaded. Results: the value of the function, `cl_errno`, then the locations that were passed by address.
-- `none` is an access outside of the data or through a NULL attribute.
use Prim.Native.Nat.{compare, Ordering}
use cwb.Base.{
  ℕ, zero, suc, ◌+◌, ◌-◌, ◌*◌, ◌/◌, Bool, true, false, Option, none, some, List, if◌then◌else◌, ltb,
  leb, ◌==◌, get_elem?, length,
}
use cwb.Base.Int.{ℤ, pos, negsuc, eqb_ℤ}
use cwb.Corpus.Search.{max_rounds, get_extended_alignment}
use cwb.Corpus.Struc.{cda_ok, cda_enullatt, cda_eatttype, cda_eidxorng, cda_enodata}

abbrev pub att_align : ℕ
att_align = 4

abbrev pub cda_eposorng : ℤ
cda_eposorng = negsuc 3

pub record AlignAttribute : Type 0 where
  pub kind : ℕ
  pub align_data : Option (List ℕ)
  pub xalign_data : Option (List ℕ)
  pub xalign_exists : Bool

-- The int before a position.
abbrev pub before : ℕ → ℤ
before zero = negsuc 0
before (suc n) = pos n

-- `(mid*2 < size)` does not keep the start of the next alignment within the data.
unfoldable pub alignment_loop : ℕ → List ℕ → ℕ → ℕ → ℕ → ℕ → Option ℤ
alignment_loop zero contents size position low high = some (negsuc 0)
alignment_loop (suc nr) contents size position low high =
    let mid = (low + high - 1) / 2 in
    elim (ltb low high) [
      | false ↦ some (negsuc 0)
      | true ↦ elim (get_elem? contents (mid * 2)) [
        | none ↦ none
        | some start ↦ elim (compare position start) [
          | Ordering.eq ↦ some (pos mid)
          | Ordering.gt ↦ elim (ltb (mid * 2) size) [
            | false ↦ alignment_loop nr contents size position (mid + 1) high
            | true ↦ elim (get_elem? contents ((mid + 1) * 2)) [
              | none ↦ none
              | some next ↦ elim (ltb position next) [
                | true ↦ some (pos mid)
                | false ↦ alignment_loop nr contents size position (mid + 1) high
              ]
            ]
          ]
          | Ordering.lt ↦ elim (mid == low) [
            | true ↦ some (negsuc 0)
            | false ↦ alignment_loop nr contents size position low mid
          ]
        ]
      ]
    ]

unfoldable pub get_alignment : List ℕ → ℕ → ℕ → Option ℤ
unfolding alignment_loop
get_alignment contents size position = alignment_loop max_rounds contents size position 0 (size / 2)

-- A negative value is also `cl_errno`.
unfoldable pub cl_has_extended_alignment : Option AlignAttribute → ℤ
cl_has_extended_alignment none = cda_enullatt
cl_has_extended_alignment (some attribute) =
    if attribute.kind == att_align
    then (if attribute.xalign_exists then pos 1 else pos 0)
    else cda_eatttype

-- `if (! cl_has_extended_alignment(attribute)) ... else ...` on the component of either case.
unfoldable pub by_extension {ℓ} :
    {A : Type ℓ}
    → Option AlignAttribute
    → (Option (List ℕ) → Option A)
    → (Option (List ℕ) → Option A)
    → Option A
unfolding cl_has_extended_alignment
by_extension none plain extended = none
by_extension (some a) plain extended =
    if eqb_ℤ (cl_has_extended_alignment (some a)) (pos 0)
    then plain a.align_data
    else extended a.xalign_data

unfoldable pub cl_max_alg : Option AlignAttribute → Option (ℤ × ℤ)
unfolding by_extension
cl_max_alg attribute =
    by_extension attribute
      (λ component. elim component [
        | none ↦ some (cda_enodata, cda_enodata)
        | some contents ↦ some (before (length contents / 2), cda_ok)
      ])
      (λ component. elim component [
        | none ↦ some (cda_enodata, cda_enodata)
        | some contents ↦ some (pos (length contents / 4), cda_ok)
      ])

unfoldable pub cl_cpos2alg : Option AlignAttribute → ℕ → Option (ℤ × ℤ)
unfolding by_extension
cl_cpos2alg attribute cpos =
    by_extension attribute
      (λ component. elim component [
        | none ↦ some (cda_enodata, cda_enodata)
        | some contents ↦ elim (get_alignment contents (length contents) cpos) [
          | none ↦ none
          | some (pos alg) ↦ some (pos alg, cda_ok)
          | some (negsuc k) ↦ some (cda_eposorng, cda_eposorng)
        ]
      ])
      (λ component. elim component [
        | none ↦ some (cda_enodata, cda_enodata)
        | some contents ↦ elim (get_extended_alignment contents (length contents) cpos) [
          | none ↦ none
          | some (pos alg) ↦ some (pos alg, cda_ok)
          | some (negsuc k) ↦ some (negsuc k, negsuc 8)
        ]
      ])

-- The four ints from an index on, as the locations of `cl_alg2cpos`.
unfoldable pub read_four :
    List ℕ → ℕ → (ℕ → ℕ → ℕ → ℕ → ℤ × ℤ × ℤ × ℤ) → Option (ℤ × ℤ × ℤ × ℤ × ℤ × ℤ)
read_four contents n locations = elim (get_elem? contents n) [
  | none ↦ none
  | some a ↦ elim (get_elem? contents (n + 1)) [
    | none ↦ none
    | some b ↦ elim (get_elem? contents (n + 2)) [
      | none ↦ none
      | some c ↦ elim (get_elem? contents (n + 3)) [
        | none ↦ none
        | some d ↦ let l = locations a b c d in some (pos 1, cda_ok, l.0, l.1, l.2, l.3)
      ]
    ]
  ]
]

-- The locations are -1 where the result is 0.
abbrev pub no_cpos : ℤ → Option (ℤ × ℤ × ℤ × ℤ × ℤ × ℤ)
no_cpos e = some (pos 0, e, negsuc 0, negsuc 0, negsuc 0, negsuc 0)

-- Source start, source end, target start and target end.
unfoldable pub cl_alg2cpos : Option AlignAttribute → ℤ → Option (ℤ × ℤ × ℤ × ℤ × ℤ × ℤ)
unfolding by_extension read_four
cl_alg2cpos attribute alg =
    by_extension attribute
      (λ component. elim component [
        | none ↦ no_cpos cda_enodata
        | some contents ↦ elim alg [
          | negsuc k ↦ no_cpos cda_eidxorng
          | pos n ↦
              if leb (length contents / 2 - 1) n
              then no_cpos cda_eidxorng
              else read_four contents (n * 2) (λ s t s' t'. (pos s, before s', pos t, before t'))
        ]
      ])
      (λ component. elim component [
        | none ↦ no_cpos cda_enodata
        | some contents ↦ elim alg [
          | negsuc k ↦ no_cpos cda_eidxorng
          | pos n ↦
              if leb (length contents / 4) n
              then no_cpos cda_eidxorng
              else read_four contents (n * 4) (λ s s' t t'. (pos s, pos s', pos t, pos t'))
        ]
      ])
