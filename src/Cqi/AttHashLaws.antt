-- ===== src/Cqi/AttHashLaws.antt =====
-- The table of attributes finds again what it found, and a looked-up attribute is kept.

use cwb.Base.{
  ℕ, zero, suc, ◌+◌, ◌/◌, ◌%◌, ◌<◌, ◌≡◌, ◌≢◌, refl, sym, ap, ◌∙◌, true, false, Option, none, some,
  List, arith, ◌⊎◌, set, length, length-set, get_or-set_self, get_or-set_ne, Bool-cases,
  Option-cases, inl, inr,
}
use cwb.LexHash.Hashing.{hash_string, str_eq}
use cwb.LexHash.Prime.{str_eq_iff}
use cwb.Cqi.AttHash.{
  AttHashTable, empty_bucket, new_bucket, bucket, wrapped, visit, probe, att_hash_lookup,
}

pub wrapped-lt : (size p : ℕ) → 0 < size → wrapped size p < size
wrapped-lt size p h = ground arith

module _ {Attribute : Type 0} where
  -- The slots are those of the array.
  pub record IsValid (hash : AttHashTable Attribute) : Type 0 where
    pub some_slots : 0 < hash.size
    pub sized : length hash.space ≡ hash.size

  -- `h` is the table after slot `q` was found for the string: the slot has the string, the others are as
  -- they were, and either the slot was free or nothing changed.
  pub record Finds (hash : AttHashTable Attribute) (str : List ℕ) (h : AttHashTable Attribute)
      (q : ℕ) : Type 0 where
    pub valid : IsValid h
    pub size : h.size ≡ hash.size
    pub within : q < hash.size
    pub string : (bucket h q).string ≡ some str
    pub kept : (j : ℕ) → j ≢ q → bucket h j ≡ bucket hash j
    pub before : ((bucket hash q).string ≡ none) ⊎ (h ≡ hash)

  pub visit_hit :
      (hash : AttHashTable Attribute) (q : ℕ) (str : List ℕ)
      (further : Option (AttHashTable Attribute × ℕ))
      → (bucket hash q).string ≡ some str
      → visit hash q str further ≡ some (hash, q)
  unfolding visit
  visit_hit hash q str further e =
      let hit : str_eq str str ≡ true = (str_eq_iff str str).1 refl in rw (visit, e, hit) refl

  pub visit_free :
      (hash : AttHashTable Attribute) (q : ℕ) (str : List ℕ)
      (further : Option (AttHashTable Attribute × ℕ))
      → (bucket hash q).string ≡ none
      → visit hash q str further
        ≡ some (record hash { space = set hash.space q (new_bucket str) }, q)
  unfolding visit
  visit_free hash q str further e = rw (visit, e) refl

  pub visit_on :
      (hash : AttHashTable Attribute) (q : ℕ) (str key : List ℕ)
      (further : Option (AttHashTable Attribute × ℕ))
      → (bucket hash q).string ≡ some key
      → str_eq key str ≡ false
      → visit hash q str further ≡ further
  unfolding visit
  visit_on hash q str key further e miss = rw (visit, e, miss) refl

  -- Slot `q`, if it has the string.
  stays-Finds :
      (hash : AttHashTable Attribute) (str : List ℕ) (q : ℕ)
      → IsValid hash
      → q < hash.size
      → (bucket hash q).string ≡ some str
      → Finds hash str hash q
  stays-Finds hash str q v lt e = record {
    valid = v;
    size = refl;
    within = lt;
    string = e;
    kept = λ j ne. refl;
    before = inr refl;
  }

  pub taken-Finds :
      (hash : AttHashTable Attribute) (str : List ℕ) (q : ℕ)
      → IsValid hash
      → q < hash.size
      → (bucket hash q).string ≡ none
      → Finds hash str (record hash { space = set hash.space q (new_bucket str) }) q
  taken-Finds hash str q v lt e =
      let inside : q < length hash.space = omega (arith, v.sized) in
      record {
        valid = record { some_slots = v.some_slots; sized = length-set hash.space q _ ∙ v.sized };
        size = refl;
        within = lt;
        string =
            ap (λ b. b.string) (get_or-set_self hash.space q (new_bucket str) empty_bucket inside);
        kept = λ j ne. get_or-set_ne hash.space q j (new_bucket str) empty_bucket (λ s. ne (sym s));
        before = inl e;
      }

  -- The slot that is found, and that it is found again.
  probe-Finds :
      (i p : ℕ) (hash h : AttHashTable Attribute) (str : List ℕ) (q : ℕ)
      → IsValid hash
      → probe i p hash str ≡ some (h, q)
      → Finds hash str h q × (probe i p h str ≡ some (h, q))
  unfolding probe
  probe-Finds zero p hash h str q v e = cc
  probe-Finds (suc i) p hash h str q v e =
      let q0 = wrapped hash.size p in
      let lt = wrapped-lt hash.size p v.some_slots in
      let further = probe i (q0 + 1) hash str in
      elim (Option-cases (bucket hash q0).string) [
        | inl free ↦
            let taken = record hash { space = set hash.space q0 (new_bucket str) } in
            let e' : ◌≡◌ {A = Option (AttHashTable Attribute × ℕ)} (some (taken, q0))
                (some (h, q)) =
              sym (visit_free hash q0 str further free) ∙ e in
            let eh : taken ≡ h = cc in
            let eq : q0 ≡ q = cc in
            let f = taken-Finds hash str q0 v lt free in
            rw (← eh, ← eq) (f, visit_hit taken q0 str (probe i (q0 + 1) taken str) f.string)
        | inr (key, found) ↦ elim (Bool-cases (str_eq key str)) [
          | inl hit ↦
              let same : (bucket hash q0).string ≡ some str =
                found ∙ ap some ((str_eq_iff key str).0 hit) in
              let e' : ◌≡◌ {A = Option (AttHashTable Attribute × ℕ)} (some (hash, q0))
                  (some (h, q)) =
                sym (visit_hit hash q0 str further same) ∙ e in
              let eh : hash ≡ h = cc in
              let eq : q0 ≡ q = cc in
              rw (← eh, ← eq)
                (stays-Finds hash str q0 v lt same, visit_hit hash q0 str further same)
          | inr miss ↦
              let on = visit_on hash q0 str key further found miss in
              let (f, again) = probe-Finds i (q0 + 1) hash h str q v (sym on ∙ e) in
              let other : q0 ≢ q = λ s.
                elsewhere hash h str key q f (ap (λ j. (bucket hash j).string) (sym s) ∙ found)
                  miss in
              let kept : (bucket h q0).string ≡ some key =
                ap (λ b. b.string) (f.kept q0 other) ∙ found in
              (
                f,
                ap (λ n. visit h (wrapped n p) str (probe i (wrapped n p + 1) h str)) f.size
                    ∙ visit_on h q0 str key (probe i (q0 + 1) h str) kept miss
                    ∙ again,
              )
        ]
      ]
    where
      elsewhere :
          (hash h : AttHashTable Attribute) (str key : List ℕ) (q : ℕ)
          → Finds hash str h q
          → (bucket hash q).string ≡ some key
          → str_eq key str ≡ false
          → ⊥
      elsewhere hash h str key q f found miss = elim f.before [
        | inl free ↦ cc (sym free ∙ found)
        | inr same ↦
            let e : some key ≡ some str =
              sym found ∙ ap (λ t. (bucket t q).string) (sym same) ∙ f.string in
            let k : key ≡ str = cc in cc (sym miss ∙ (str_eq_iff key str).1 k)
      ]

  -- In a table that is not empty and whose array has its size: where a slot is found for a string, it has that string, and the other slots are as before. Looking
  -- the string up again finds the same slot and changes nothing.
  pub att_hash_lookup-Finds :
      (hash h : AttHashTable Attribute) (str : List ℕ) (q : ℕ)
      → IsValid hash
      → att_hash_lookup hash str ≡ some (h, q)
      → Finds hash str h q × (att_hash_lookup h str ≡ some (h, q))
  unfolding att_hash_lookup
  att_hash_lookup-Finds hash h str q v e =
      let (f, again) = probe-Finds (hash.size / 5) (hash_string str % hash.size) hash h str q v e in
      (f, ap (λ n. probe (n / 5) (hash_string str % n) h str) f.size ∙ again)
