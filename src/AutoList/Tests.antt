-- ===== src/AutoList/Tests.antt =====
-- cl/list.c at concrete inputs.
use mathlib.Core.Option
use cwb.Base.{
  ℕ, ◌+◌, ◌^◌, ◌≤◌, ◌<◌, ◌≡◌, ◌↔◌, refl, some, none, List, [], ◌∷◌, arith, get_or, length,
}
use cwb.Base.Int.{ℤ, pos, negsuc, ◌<ℤ◌}
use cwb.AutoList.{IntList, cl_new_int_list, new_list, list_get, list_set, cl_int_list_intcmp}
use cwb.AutoList.Read.{
  IsValid, new_list-IsValid, list_set-Writes, append_all, list_append-all, Written,
  cl_int_list_intcmp_sign,
}

abbrev new : IntList
new = cl_new_int_list

new-IsValid : IsValid (pos 0) new
new-IsValid = new_list-IsValid (pos 0)

grown_test :
    Option.map (λ (r : IntList). r.allocated) (list_set (pos 0) new (pos 200) (pos 7)) ≡ some 201
unfolding new_list list_set
grown_test = refl

-- The largest int as an index.
overflow_test : list_set (pos 0) new (pos 2_147_483_647) (pos 7) ≡ none
unfolding new_list list_set
overflow_test = refl

small : 70 + new.lumpsize < 2 ^ 31
unfolding new_list
small = omega arith

list_set-Writes_example :
    (r : IntList) × (list_set (pos 0) new (pos 70) (negsuc 2) ≡ some r)
    × Written (pos 0) new 70 (negsuc 2) r
    × ((i : ℕ) → list_get (pos 0) r (negsuc i) ≡ pos 0)
    × ((i : ℕ) → list_set (pos 0) new (negsuc i) (negsuc 2) ≡ some new)
list_set-Writes_example = list_set-Writes (pos 0) new 70 (negsuc 2) new-IsValid small

abbrev values : List ℤ
values = pos 3 ∷ negsuc 0 ∷ []

values_fit : new.size + length values + new.lumpsize ≤ 2 ^ 31
unfolding new_list
values_fit = omega arith

list_append-all_example :
    (r : IntList) × (append_all (pos 0) new values ≡ some r)
    × IsValid (pos 0) r
    × (r.size ≡ new.size + length values)
    × ((i : ℕ) → i < new.size → list_get (pos 0) r (pos i) ≡ list_get (pos 0) new (pos i))
    × ((i : ℕ) → list_get (pos 0) r (pos (new.size + i)) ≡ get_or values i (pos 0))
list_append-all_example = list_append-all (pos 0) values new new-IsValid values_fit

cl_int_list_intcmp_sign_example :
    ((cl_int_list_intcmp (pos 1) (pos 2_147_483_647) <ℤ pos 0) ↔ (1 < 2_147_483_647))
    × ((cl_int_list_intcmp (pos 1) (pos 2_147_483_647) ≡ pos 0) ↔ ◌≡◌ {A = ℕ} 1 2_147_483_647)
    × (2 ^ 31 ≤ 1 + 2_147_483_647 + 1 → cl_int_list_intcmp (pos 1) (negsuc 2_147_483_647) <ℤ pos 0)
cl_int_list_intcmp_sign_example =
    cl_int_list_intcmp_sign 1 2_147_483_647 (omega arith) (omega arith)
