-- ===== src/Cqi/AttHashStays.antt =====
-- A string that is in the table of attributes is found at its slot as long as no slot loses its string,
-- so other lookups leave it there, and an attribute that was opened is found again.
use native.Mathlib.Decide.{ℕ_discrete}
use cwb.Base.{
  ℕ, zero, suc, ◌+◌, ◌/◌, ◌%◌, ◌≡◌, sym, ap, ◌∙◌, Option, some, List, set, Bool-cases, Option-cases,
  inl, inr,
}
use cwb.LexHash.Hashing.{hash_string, str_eq}
use cwb.LexHash.Prime.{str_eq_iff}
use cwb.Cqi.AttHash.{AttHashTable, new_bucket, bucket, wrapped, visit, probe, att_hash_lookup}
use cwb.Cqi.AttHashLaws.{
  IsValid, Finds, visit_hit, visit_free, visit_on, wrapped-lt, taken-Finds, att_hash_lookup-Finds,
}

module _ {Attribute : Type 0} where
  -- No slot of `hash` has another string in `h`.
  pub record Keeps (hash h : AttHashTable Attribute) : Type 0 where
    pub size : h.size ≡ hash.size
    pub strings :
        (j : ℕ) (key : List ℕ) → (bucket hash j).string ≡ some key → (bucket h j).string ≡ some key

  Finds-Keeps :
      (hash h : AttHashTable Attribute) (str : List ℕ) (q : ℕ) → Finds hash str h q → Keeps hash h
  Finds-Keeps hash h str q f = record { size = f.size; strings = same_strings }
    where
      same_strings :
          (j : ℕ) (key : List ℕ)
          → (bucket hash j).string ≡ some key
          → (bucket h j).string ≡ some key
      same_strings j key e = elim f.before [
        | inr same ↦ ap (λ t. (bucket t j).string) same ∙ e
        | inl free ↦ elim (ℕ_discrete j q) [
          | no ne ↦ ap (λ b. b.string) (f.kept j ne) ∙ e
          | yes here ↦ cc (sym e ∙ ap (λ n. (bucket hash n).string) here ∙ free)
        ]
      ]

  -- The slot of a string that was found without taking a slot.
  probe-Keeps :
      (i p : ℕ) (hash h : AttHashTable Attribute) (str : List ℕ) (q : ℕ)
      → IsValid hash
      → Keeps hash h
      → probe i p hash str ≡ some (hash, q)
      → probe i p h str ≡ some (h, q)
  unfolding probe
  probe-Keeps zero p hash h str q v k e = cc
  probe-Keeps (suc i) p hash h str q v k e =
      let q0 = wrapped hash.size p in
      let further = probe i (q0 + 1) hash str in
      let further' = probe i (q0 + 1) h str in
      ap (λ n. visit h (wrapped n p) str (probe i (wrapped n p + 1) h str)) k.size
      ∙ elim (Option-cases (bucket hash q0).string) [
        | inl free ↦
            let taken = record hash { space = set hash.space q0 (new_bucket str) } in
            let e' : ◌≡◌ {A = Option (AttHashTable Attribute × ℕ)} (some (taken, q0))
                (some (hash, q)) =
              sym (visit_free hash q0 str further free) ∙ e in
            let eh : taken ≡ hash = cc in
            let f = taken-Finds hash str q0 v (wrapped-lt hash.size p v.some_slots) free in
            cc (sym free ∙ ap (λ t. (bucket t q0).string) (sym eh) ∙ f.string)
        | inr (key, found) ↦ elim (Bool-cases (str_eq key str)) [
          | inl hit ↦
              let same : (bucket hash q0).string ≡ some str =
                found ∙ ap some ((str_eq_iff key str).0 hit) in
              let e' : ◌≡◌ {A = Option (AttHashTable Attribute × ℕ)} (some (hash, q0))
                  (some (hash, q)) =
                sym (visit_hit hash q0 str further same) ∙ e in
              let eq : q0 ≡ q = cc in
              visit_hit h q0 str further' (k.strings q0 str same) ∙ ap (λ n. some (h, n)) eq
          | inr miss ↦
              let again =
                probe-Keeps i (q0 + 1) hash h str q v k
                  (sym (visit_on hash q0 str key further found miss) ∙ e) in
              visit_on h q0 str key further' (k.strings q0 key found) miss ∙ again
        ]
      ]

  pub att_hash_lookup-Keeps :
      (hash h : AttHashTable Attribute) (str : List ℕ) (q : ℕ)
      → IsValid hash
      → Keeps hash h
      → att_hash_lookup hash str ≡ some (hash, q)
      → att_hash_lookup h str ≡ some (h, q)
  unfolding att_hash_lookup
  att_hash_lookup-Keeps hash h str q v k e =
      ap (λ n. probe (n / 5) (hash_string str % n) h str) k.size
      ∙ probe-Keeps (hash.size / 5) (hash_string str % hash.size) hash h str q v k e

  -- Looking up a string does not move another one: a string that was at slot `q` is found there after a
  -- slot was found for `other`.
  pub att_hash_lookup-other :
      (hash h : AttHashTable Attribute) (str other : List ℕ) (q r : ℕ)
      → IsValid hash
      → att_hash_lookup hash str ≡ some (hash, q)
      → att_hash_lookup hash other ≡ some (h, r)
      → att_hash_lookup h str ≡ some (h, q)
  att_hash_lookup-other hash h str other q r v e o =
      let (f, again) = att_hash_lookup-Finds hash h other r v o in
      att_hash_lookup-Keeps hash h str q v (Finds-Keeps hash h other r f) e
