-- ===== src/Cqi/AttHashRoom.antt =====
-- When a slot of the table of attributes is found at all.
use native.Mathlib.Nat.{mod-lt}
use cwb.Base.{
  ℕ, zero, suc, ◌+◌, ◌-◌, ◌/◌, ◌%◌, ◌≤◌, ◌<◌, ◌≡◌, sym, ap, ◌∙◌, none, some, List, arith,
  if◌then◌else◌, leb, Bool-cases, Option-cases, inl, inr,
}
use cwb.LexHash.Hashing.{hash_string, str_eq}
use cwb.LexHash.Prime.{str_eq_iff}
use cwb.Cqi.AttHash.{AttHashTable, bucket, wrapped, probe, att_hash_lookup}
use cwb.Cqi.AttHashLaws.{IsValid, visit_hit, visit_free, visit_on}

-- The slot `k` places after slot `p`, going round once.
abbrev pub slot_after : ℕ → ℕ → ℕ → ℕ
slot_after size p k = if leb size (p + k) then p + k - size else p + k

slot_here : (size p : ℕ) → p ≤ size → slot_after size p 0 ≡ wrapped size p
slot_here size p h = ground arith

slot_next :
    (size p k : ℕ)
    → p ≤ size
    → suc k < size
    → (slot_after size (wrapped size p + 1) k ≡ slot_after size p (suc k))
      × (wrapped size p + 1 ≤ size)
slot_next size p k h small = ground arith

module _ {Attribute : Type 0} where
  probe_free :
      (i p k : ℕ) (hash : AttHashTable Attribute) (str : List ℕ)
      → p ≤ hash.size
      → k < i
      → k < hash.size
      → (bucket hash (slot_after hash.size p k)).string ≡ none
      → (h : AttHashTable Attribute) × (q : ℕ) × (probe i p hash str ≡ some (h, q))
  unfolding probe
  probe_free zero p k hash str in_table lt small free = absurd (omega (arith, lt))
  probe_free (suc i) p zero hash str in_table lt small free =
      let q = wrapped hash.size p in
      let here = ap (λ n. (bucket hash n).string) (sym (slot_here hash.size p in_table)) ∙ free in
      (_, q, visit_free hash q str (probe i (q + 1) hash str) here)
  probe_free (suc i) p (suc k) hash str in_table lt small free =
      let q = wrapped hash.size p in
      let further = probe i (q + 1) hash str in
      let (same, next) = slot_next hash.size p k in_table small in
      elim (Option-cases (bucket hash q).string) [
        | inl here ↦ (_, q, visit_free hash q str further here)
        | inr (key, found) ↦ elim (Bool-cases (str_eq key str)) [
          | inl hit ↦
              let e : (bucket hash q).string ≡ some str =
                found ∙ ap some ((str_eq_iff key str).0 hit) in
              (hash, q, visit_hit hash q str further e)
          | inr miss ↦
              let (h, r, e) =
                probe_free i (q + 1) k hash str next (omega (arith, lt)) (omega (arith, small))
                  (ap (λ n. (bucket hash n).string) same ∙ free) in
              (h, r, visit_on hash q str key further found miss ∙ e)
        ]
      ]

  -- In a table that is not empty and whose array has its size a lookup does not fail as long as one of the first size / 5 slots from the string's own slot on, going
  -- round at the end of the table, is free.
  pub att_hash_lookup_room :
      (hash : AttHashTable Attribute) (str : List ℕ) (k : ℕ)
      → IsValid hash
      → k < hash.size / 5
      → (bucket hash (slot_after hash.size (hash_string str % hash.size) k)).string ≡ none
      → (h : AttHashTable Attribute) × (q : ℕ) × (att_hash_lookup hash str ≡ some (h, q))
  unfolding att_hash_lookup
  att_hash_lookup_room hash str k v lt free =
      probe_free (hash.size / 5) (hash_string str % hash.size) k hash str
        (omega (arith, mod-lt (hash_string str) v.some_slots)) lt (omega (arith, lt)) free
