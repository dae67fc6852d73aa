-- ===== src/AutoList.antt =====
-- cl/list.c and cl/list.h: automatically growing arrays, of integers (`cl_int_list`) and of string
-- pointers (`cl_string_list`; `none` is NULL). The two halves of the file are the same code at two
-- element types, so each operation is written once over the element `blank` that fills new cells,
-- and `cl_int_list_*` and `cl_string_list_*` are its two uses. Allocation succeeds (`cl_malloc` exits
-- otherwise). Indices and sizes are C ints; a sum of them that overflows is a result of `none`.
pub mod Read
pub mod Tests
use cwb.Base.{
  ℕ, suc, ◌+◌, ◌-◌, ◌%◌, ◌^◌, Option, none, some, List, ◌++◌, if◌then◌else◌, ltb, leb, get_or, set,
  replicate,
}
use cwb.Base.Int.{signed32, ℤ, pos, negsuc, ltb_ℤ, pos_part, neg_part}

-- `LUMPSIZE`
abbrev pub default_lump : ℕ
default_lump = 64

-- `struct _cl_int_list`, `struct _cl_string_list`
pub record AutoList {ℓ} (A : Type ℓ) : Type ℓ where
  pub size : ℕ
  pub allocated : ℕ
  pub lumpsize : ℕ
  pub cells : List A

module _ {ℓ} {A : Type ℓ} (blank : A) where
  unfoldable pub new_list : AutoList A
  new_list = record {
    size = 0;
    allocated = default_lump;
    lumpsize = default_lump;
    cells = replicate default_lump blank;
  }

  -- `n < 0 || n >= l->size`
  unfoldable pub list_get : AutoList A → ℤ → A
  list_get l (negsuc n) = blank
  list_get l (pos n) = if leb l.size n then blank else get_or l.cells n blank

  -- The auto-extension, for the new size: `cl_realloc` keeps the old cells, the loop fills the new. `none`
  -- where the allocated size and the lump overflow an int.
  unfoldable pub extend : AutoList A → ℕ → Option (AutoList A)
  extend l size =
      let newalloc =
        if ltb (size - l.allocated) l.lumpsize then l.allocated + l.lumpsize else size in
      let extended : AutoList A = record l {
        size = size;
        allocated = newalloc;
        cells = l.cells ++ replicate (newalloc - l.allocated) blank;
      } in
      if ltb l.allocated size
      then (if ltb newalloc (2 ^ 31) then some extended else none)
      else some (record l { size = size })

  -- `none` also where `n + 1` overflows.
  unfoldable pub list_set : AutoList A → ℤ → A → Option (AutoList A)
  unfolding extend
  list_set l (negsuc n) val = some l
  list_set l (pos n) val =
      let larger = if ltb (n + 1) (2 ^ 31) then extend l (n + 1) else none in
      elim (if leb l.size n then larger else some l) [
        | none ↦ none
        | some l' ↦ some (record l' { cells = set l'.cells n val })
      ]

  unfoldable pub list_append : AutoList A → A → Option (AutoList A)
  unfolding list_set
  list_append l val = list_set l (pos l.size) val

module _ {ℓ} {A : Type ℓ} where
  -- A lump size below the default is ignored.
  unfoldable pub list_lumpsize : AutoList A → ℤ → AutoList A
  list_lumpsize l s = if ltb_ℤ s (pos default_lump) then l else record l { lumpsize = pos_part s }

  unfoldable pub list_size : AutoList A → ℕ
  list_size l = l.size

abbrev pub IntList : Type 0
IntList = AutoList ℤ

abbrev pub cl_new_int_list : IntList
cl_new_int_list = new_list (pos 0)

abbrev pub cl_int_list_get : IntList → ℤ → ℤ
cl_int_list_get = list_get (pos 0)

abbrev pub cl_int_list_set : IntList → ℤ → ℤ → Option IntList
cl_int_list_set = list_set (pos 0)

abbrev pub cl_int_list_append : IntList → ℤ → Option IntList
cl_int_list_append = list_append (pos 0)

abbrev pub cl_int_list_size : IntList → ℕ
cl_int_list_size = list_size

abbrev pub cl_int_list_lumpsize : IntList → ℤ → IntList
cl_int_list_lumpsize = list_lumpsize

-- An address of a string, or NULL.
abbrev pub StrList : Type 0
StrList = AutoList (Option ℕ)

abbrev pub cl_new_string_list : StrList
cl_new_string_list = new_list none

abbrev pub cl_string_list_get : StrList → ℤ → Option ℕ
cl_string_list_get = list_get none

abbrev pub cl_string_list_set : StrList → ℤ → Option ℕ → Option StrList
cl_string_list_set = list_set none

abbrev pub cl_string_list_append : StrList → Option ℕ → Option StrList
cl_string_list_append = list_append none

abbrev pub cl_string_list_size : StrList → ℕ
cl_string_list_size = list_size

abbrev pub cl_string_list_lumpsize : StrList → ℤ → StrList
cl_string_list_lumpsize = list_lumpsize

-- `*(int *)a - *(int *)b` on 32-bit ints, wrapped where it overflows.
unfoldable pub cl_int_list_intcmp : ℤ → ℤ → ℤ
cl_int_list_intcmp a b =
    signed32 ((pos_part a + neg_part b + 2 ^ 32 - (neg_part a + pos_part b)) % 2 ^ 32)
