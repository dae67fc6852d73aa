-- ===== src/AutoList/Read.antt =====
-- A list reads as a total function of the index, 0 or NULL where nothing was set; writes update it.
use native.Mathlib.Decide.{ℕ_discrete, dec_lt}
use cwb.Base.{
  ℕ, zero, suc, ◌+◌, ◌-◌, ◌^◌, ◌≤◌, ◌<◌, max, ◌≡◌, refl, sym, ◌∙◌, ◌↔◌, List, [], ◌∷◌, ◌++◌, arith,
  Bool-cases, Option, none, some, true, inl, inr, if◌then◌else◌, ltb, leb, ◌==◌, get_or, set,
  length, replicate, length-append, length-set, length-replicate, get_or-set_self, get_or-set_ne,
  get_or-replicate, get_or-replicate_out,
}
use cwb.Base.Int.{ℤ, pos, negsuc, pos_part, ltb_ℤ, ◌<ℤ◌}
use cwb.AutoList.{
  AutoList, new_list, list_get, list_set, list_append, extend, list_lumpsize, cl_int_list_intcmp,
}

module _ {ℓ} {A : Type ℓ} (blank : A) where
  -- The array has as many cells as are allocated, and those past the size are blank.
  pub record IsValid (l : AutoList A) : Type ℓ where
    pub fits : l.size ≤ l.allocated
    pub sized : length l.cells ≡ l.allocated
    pub lumps : 1 ≤ l.lumpsize
    pub clear : (i : ℕ) → l.size ≤ i → get_or l.cells i blank ≡ blank

module _ {ℓ} {A : Type ℓ} (blank : A) where
  get_or_out : (xs : List A) (i : ℕ) → length xs ≤ i → get_or xs i blank ≡ blank
  get_or_out [] i h = refl
  get_or_out (x ∷ xs) zero h = absurd (omega arith)
  get_or_out (x ∷ xs) (suc i) h = get_or_out xs i (omega arith)

  -- New blank cells are not seen by a read with the blank default.
  get_or-append_blank :
      (xs : List A) (k i : ℕ) → get_or (xs ++ replicate k blank) i blank ≡ get_or xs i blank
  get_or-append_blank [] k i = elim (dec_lt i k) [
    | yes p ↦ get_or-replicate k i blank blank p
    | no p ↦ get_or-replicate_out k i blank blank (omega arith)
  ]
  get_or-append_blank (x ∷ xs) k zero = refl
  get_or-append_blank (x ∷ xs) k (suc i) = get_or-append_blank xs k i

  pub new_list-IsValid : IsValid blank (new_list blank)
  unfolding new_list
  new_list-IsValid = record {
    fits = omega arith;
    sized = length-replicate 64 blank;
    lumps = omega arith;
    clear = λ i h. get_or-append_blank [] 64 i;
  }

  -- On a well-formed list a read past the size and a read of a blank cell give the same.
  pub list_get-get_or :
      (l : AutoList A)
      → IsValid blank l
      → (i : ℕ) → list_get blank l (pos i) ≡ get_or l.cells i blank
  unfolding list_get
  list_get-get_or l v i = elim (Bool-cases (leb l.size i)) [
    | inl e ↦ rw e (sym (v.clear i (ground arith)))
    | inr e ↦ rw e
  ]

  -- An extension that does not overflow.
  extend-IsValid :
      (l : AutoList A) (n : ℕ)
      → IsValid blank l
      → l.size ≤ n
      → n + l.lumpsize ≤ 2 ^ 31
      → (r : AutoList A) × (extend blank l n ≡ some r)
        × IsValid blank r
        × (r.size ≡ n)
        × (r.lumpsize ≡ l.lumpsize)
        × ((i : ℕ) → get_or r.cells i blank ≡ get_or l.cells i blank)
  unfolding extend
  extend-IsValid l n v h room = elim (Bool-cases (ltb l.allocated n)) [
    | inl e ↦
        let m = if ltb (n - l.allocated) l.lumpsize then l.allocated + l.lumpsize else n in
        let big : (n ≤ m) × (l.allocated ≤ m) = (ground (arith, v.lumps), ground arith) in
        let small : ltb m (2 ^ 31) ≡ true = ground (arith, v.lumps, room, e) in
        (
          record l {
            size = n;
            allocated = m;
            cells = l.cells ++ replicate (m - l.allocated) blank;
          },
          rw (extend, e, small) refl,
          record {
            fits = big.0;
            sized =
                rw (length-append, length-replicate (m - l.allocated) blank)
                  (omega (arith, v.sized, big));
            lumps = v.lumps;
            clear =
                λ i k. get_or-append_blank l.cells (m - l.allocated) i ∙ v.clear i (omega arith);
          },
          refl,
          refl,
          λ i. get_or-append_blank l.cells (m - l.allocated) i,
        )
    | inr e ↦ (
      record l { size = n },
      rw (extend, e) refl,
      record {
        fits = ground arith;
        sized = v.sized;
        lumps = v.lumps;
        clear = λ i k. v.clear i (omega arith);
      },
      refl,
      refl,
      λ i. refl,
    )
  ]

  write-IsValid :
      (l : AutoList A) (n : ℕ) (val : A)
      → IsValid blank l
      → n < l.size
      → let r = record l { cells = set l.cells n val } in
        IsValid blank r
        × ((i : ℕ) → get_or r.cells i blank ≡ (if i == n then val else get_or l.cells i blank))
  write-IsValid l n val v h = (
    record {
      fits = v.fits;
      sized = length-set l.cells n val ∙ v.sized;
      lumps = v.lumps;
      clear = λ i k. get_or-set_ne l.cells n i val blank (omega arith) ∙ v.clear i k;
    },
    λ i. elim (ℕ_discrete i n) [
      | yes p ↦
          rw (p, get_or-set_self l.cells n val blank (omega (arith, v.sized, v.fits)))
            (ground arith)
      | no p ↦ rw (get_or-set_ne l.cells n i val blank (λ e. p (sym e))) (ground arith)
    ],
  )

  -- What a write at n does.
  pub record Written (l : AutoList A) (n : ℕ) (val : A) (r : AutoList A) : Type ℓ where
    pub valid : IsValid blank r
    pub size : r.size ≡ max l.size (n + 1)
    pub lumpsize : r.lumpsize ≡ l.lumpsize
    pub reads :
        (i : ℕ) → list_get blank r (pos i) ≡ (if i == n then val else list_get blank l (pos i))

  list_set-extended :
      (l l' : AutoList A) (n : ℕ) (val : A)
      → (if leb l.size n
          then (if ltb (n + 1) (2 ^ 31) then extend blank l (n + 1) else none)
          else some l)
        ≡ some l'
      → list_set blank l (pos n) val ≡ some (record l' { cells = set l'.cells n val })
  unfolding list_set
  list_set-extended l l' n val e = rw (list_set, e) refl

  list_set-Written :
      (l : AutoList A) (n : ℕ) (val : A)
      → IsValid blank l
      → n + l.lumpsize < 2 ^ 31
      → (r : AutoList A) × (list_set blank l (pos n) val ≡ some r) × Written l n val r
  list_set-Written l n val v room = elim (Bool-cases (leb l.size n)) [
    | inl e ↦
        let (l', run, w, size, lump, same) =
          extend-IsValid l (n + 1) v (ground arith) (omega (arith, room)) in
        let (u, reads) = write-IsValid l' n val w (omega (arith, size)) in
        let fits : ltb (n + 1) (2 ^ 31) ≡ true = ground (arith, room, v.lumps) in
        let r = record l' { cells = set l'.cells n val } in
        (
          r,
          list_set-extended l l' n val (rw (e, fits) run),
          record {
            valid = u;
            size = size ∙ ground (arith, e);
            lumpsize = lump;
            reads = λ i. rw (list_get-get_or r u i, list_get-get_or l v i, reads i, same i) refl;
          },
        )
    | inr e ↦
        let (u, reads) = write-IsValid l n val v (ground arith) in
        let r = record l { cells = set l.cells n val } in
        (
          r,
          list_set-extended l l n val (rw e refl),
          record {
            valid = u;
            size = ground (arith, e);
            lumpsize = refl;
            reads = λ i. rw (list_get-get_or r u i, list_get-get_or l v i, reads i) refl;
          },
        )
  ]

  -- On a well-formed list a write at an index n, past the end or not, for which n and the lump size add up
  -- to less than 2^31: it succeeds and leaves a well-formed list of size max(size, n + 1), which reads
  -- `val` at n, as before at every other index from 0 on, and 0 or NULL at negative ones; a write at a
  -- negative index changes nothing.
  pub list_set-Writes :
      (l : AutoList A) (n : ℕ) (val : A)
      → IsValid blank l
      → n + l.lumpsize < 2 ^ 31
      → (r : AutoList A) × (list_set blank l (pos n) val ≡ some r)
        × Written l n val r
        × ((i : ℕ) → list_get blank r (negsuc i) ≡ blank)
        × ((i : ℕ) → list_set blank l (negsuc i) val ≡ some l)
  unfolding list_set list_get
  list_set-Writes l n val v room =
      let (r, run, w) = list_set-Written l n val v room in (r, run, w, λ i. refl, λ i. refl)

  -- The elements, appended one by one.
  unfoldable pub append_all : AutoList A → List A → Option (AutoList A)
  unfolding list_append
  append_all l [] = some l
  append_all l (x ∷ xs) = elim (list_append blank l x) [ none ↦ none | some r ↦ append_all r xs ]

  append_step :
      (l : AutoList A) (x : A)
      → IsValid blank l
      → l.size + l.lumpsize < 2 ^ 31
      → (r : AutoList A) × (list_append blank l x ≡ some r) × Written l l.size x r
  unfolding list_append
  append_step l x v room = list_set-Written l l.size x v room

  -- Appending `xs` one by one to a well-formed list, where its size, their number and the lump size add up
  -- to at most 2^31: it succeeds and leaves a well-formed list that has grown by their number, reads as
  -- before below the old size, and holds them in order from there on.
  pub list_append-all :
      (xs : List A) (l : AutoList A)
      → IsValid blank l
      → l.size + length xs + l.lumpsize ≤ 2 ^ 31
      → (r : AutoList A) × (append_all l xs ≡ some r)
        × IsValid blank r
        × (r.size ≡ l.size + length xs)
        × ((i : ℕ) → i < l.size → list_get blank r (pos i) ≡ list_get blank l (pos i))
        × ((i : ℕ) → list_get blank r (pos (l.size + i)) ≡ get_or xs i blank)
  unfolding append_all
  list_append-all [] l v room = (
    l,
    refl,
    v,
    omega arith,
    λ i h. refl,
    λ i. list_get-get_or l v (l.size + i) ∙ v.clear (l.size + i) (omega arith),
  )
  list_append-all (x ∷ xs) l v room =
      let (l1, run, w) = append_step l x v (omega (arith, room)) in
      let size : l1.size ≡ l.size + 1 = omega (arith, w.size) in
      let (r, more, u, total, old, new) =
        list_append-all xs l1 w.valid (omega (arith, room, size, w.lumpsize)) in
      (
        r,
        rw (append_all, run) more,
        u,
        omega (arith, total, size),
        λ i h. old i (omega (arith, size)) ∙ w.reads i ∙ ground arith,
        tail_reads l xs x r size (old l.size (omega (arith, size)) ∙ w.reads l.size ∙ ground arith)
            new,
      )
    where
      tail_reads :
          (l : AutoList A) (xs : List A) (x : A) (r : AutoList A) {n : ℕ}
          → n ≡ l.size + 1
          → list_get blank r (pos l.size) ≡ x
          → ((i : ℕ) → list_get blank r (pos (n + i)) ≡ get_or xs i blank)
          → (i : ℕ) → list_get blank r (pos (l.size + i)) ≡ get_or (x ∷ xs) i blank
      tail_reads l xs x r e first rest zero =
          let z : l.size + 0 ≡ l.size = omega arith in rw z first
      tail_reads l xs x r {n} e first rest (suc i) =
          let z : l.size + suc i ≡ n + i = omega arith in rw z (rest i)

-- On non-negative ints the comparison has the sign of the difference. Where a non-negative int is
-- compared with a negative one 2^31 or more below it, the subtraction overflows, and the wrapped
-- result is negative although the first is the larger.
pub cl_int_list_intcmp_sign :
    (a b : ℕ)
    → a < 2 ^ 31
    → b < 2 ^ 31
    → ((cl_int_list_intcmp (pos a) (pos b) <ℤ pos 0) ↔ (a < b))
      × ((cl_int_list_intcmp (pos a) (pos b) ≡ pos 0) ↔ (a ≡ b))
      × (2 ^ 31 ≤ a + b + 1 → cl_int_list_intcmp (pos a) (negsuc b) <ℤ pos 0)
unfolding cl_int_list_intcmp
cl_int_list_intcmp_sign a b ha hb = (
  (λ h. ground arith, λ h. ground arith),
  (λ h. ground arith, λ h. ground arith),
  λ h. ground arith,
)

-- `cl_int_list_lumpsize` keeps a list well-formed and its contents, and never sets a lump below 64.
pub list_lumpsize-IsValid {ℓ} :
    {A : Type ℓ} (blank : A) (l : AutoList A) (s : ℤ)
    → IsValid blank l
    → 64 ≤ l.lumpsize
    → IsValid blank (list_lumpsize l s)
      × (64 ≤ (list_lumpsize l s).lumpsize)
      × ((i : ℤ) → list_get blank (list_lumpsize l s) i ≡ list_get blank l i)
unfolding list_lumpsize list_get
list_lumpsize-IsValid blank l s v h = elim (Bool-cases (ltb_ℤ s (pos 64))) [
  | inl e ↦ rw e (v, h, λ i. refl)
  | inr e ↦ rw e (
    record { fits = v.fits; sized = v.sized; lumps = ground arith; clear = v.clear },
    ground arith,
    λ i.
        elim i
          as (λ i. list_get blank (record l { lumpsize = pos_part s }) i ≡ list_get blank l i) [
            | pos n ↦ refl
            | negsuc n ↦ refl
          ],
  )
]
