-- ===== src/Cqi/AttLookup.antt =====
-- CQi/server.c: an attribute that was looked up is found again without opening it a second time.
use native.Mathlib.Decide.{ℕ_discrete}
use cwb.Base.{
  ℕ, ◌<◌, ◌≡◌, refl, sym, ap, ◌∙◌, true, Option, none, some, List, arith, if◌then◌else◌, ◌==◌, set,
  get_or-set_self, get_or-set_ne, Bool-cases, Option-cases, inl, inr,
}
use cwb.Cqi.Names.{status_ok}
use cwb.Cqi.AttHash.{
  AttBucket, AttHashTable, empty_bucket, bucket, att_hash_lookup, open_attribute, keep,
  cqi_lookup_attribute, wrong_attribute_type,
}
use cwb.Cqi.AttHashLaws.{IsValid, att_hash_lookup-Finds}
use cwb.Cqi.AttHashStays.{Keeps, att_hash_lookup-Keeps}

module _ {Attribute : Type 0} where
  -- The slot with the attribute, and the table with this slot.
  abbrev opened : AttHashTable Attribute → ℕ → ℕ → Attribute → AttBucket Attribute
  opened hash p kind a = record (bucket hash p) { attribute = some a; kind = kind }

  abbrev kept_at : AttHashTable Attribute → ℕ → ℕ → Attribute → AttHashTable Attribute
  kept_at hash p kind a = record hash { space = set hash.space p (opened hash p kind a) }

  kept_bucket :
      (hash : AttHashTable Attribute) (p kind : ℕ) (a : Attribute)
      → IsValid hash
      → p < hash.size
      → bucket (kept_at hash p kind a) p ≡ opened hash p kind a
  kept_bucket hash p kind a v lt =
      get_or-set_self hash.space p (opened hash p kind a) empty_bucket (omega (arith, v.sized))

  kept-Keeps :
      (hash : AttHashTable Attribute) (p kind : ℕ) (a : Attribute)
      → IsValid hash
      → p < hash.size
      → Keeps hash (kept_at hash p kind a)
  kept-Keeps hash p kind a v lt = record { size = refl; strings = same_strings }
    where
      same_strings :
          (j : ℕ) (key : List ℕ)
          → (bucket hash j).string ≡ some key
          → (bucket (kept_at hash p kind a) j).string ≡ some key
      same_strings j key e = elim (ℕ_discrete j p) [
        | no ne ↦
            ap (λ b. b.string)
              (get_or-set_ne hash.space p j (opened hash p kind a) empty_bucket (λ s. ne (sym s)))
            ∙ e
        | yes here ↦
            ap (λ n. (bucket (kept_at hash p kind a) n).string) here
            ∙ ap (λ b. b.string) (kept_bucket hash p kind a v lt)
            ∙ ap (λ n. (bucket hash n).string) (sym here)
            ∙ e
      ]

module _ {Corpus Attribute : Type 0} (open_corpus : List ℕ → Option Corpus)
    (new_attribute : Corpus → List ℕ → ℕ → Option Attribute) where
  abbrev Result : Type 0
  Result = Option (AttHashTable Attribute × ℕ × Option Attribute)

  abbrev lookup : AttHashTable Attribute → List ℕ → ℕ → Result
  lookup = cqi_lookup_attribute open_corpus new_attribute

  -- An attribute in the slot is the result if it is of the kind that is asked for.
  lookup_hit :
      (hash h : AttHashTable Attribute) (name : List ℕ) (kind p : ℕ) (a : Attribute)
      → att_hash_lookup hash name ≡ some (h, p)
      → (bucket h p).attribute ≡ some a
      → lookup hash name kind
        ≡ some (
            if (bucket h p).kind == kind
            then (h, status_ok, some a)
            else (h, wrong_attribute_type, none))
  unfolding cqi_lookup_attribute
  lookup_hit hash h name kind p a e ea = rw (cqi_lookup_attribute, e, ea) refl

  lookup_open :
      (hash h : AttHashTable Attribute) (name : List ℕ) (kind p : ℕ) (r : ℕ × Option Attribute)
      → att_hash_lookup hash name ≡ some (h, p)
      → (bucket h p).attribute ≡ none
      → open_attribute open_corpus new_attribute name kind ≡ some r
      → lookup hash name kind ≡ some (keep h p kind r)
  unfolding cqi_lookup_attribute
  lookup_open hash h name kind p r e en o = rw (cqi_lookup_attribute, e, en, o) refl

  lookup_same :
      (h : AttHashTable Attribute) (name : List ℕ) (kind p : ℕ) (a : Attribute)
      → att_hash_lookup h name ≡ some (h, p)
      → (bucket h p).attribute ≡ some a
      → (bucket h p).kind ≡ kind
      → lookup h name kind ≡ some (h, status_ok, some a)
  lookup_same h name kind p a e ea ek =
      let same : ((bucket h p).kind == kind) ≡ true = ground arith in
      lookup_hit h h name kind p a e ea
      ∙ ap (λ t. some (if t then (h, status_ok, some a) else (h, wrong_attribute_type, none))) same

-- In a table that is not empty and whose array has its size an attribute that was looked up stays open: looking the name up again with the same type gives the
-- same attribute and changes nothing, also where no corpus and no attribute can be opened any more.
pub cqi_lookup_attribute-again :
    {Corpus Attribute : Type 0} (open_corpus later_corpus : List ℕ → Option Corpus)
    (new_attribute later_attribute : Corpus → List ℕ → ℕ → Option Attribute)
    (hash h : AttHashTable Attribute) (name : List ℕ) (kind e : ℕ) (a : Attribute)
    → IsValid hash
    → cqi_lookup_attribute open_corpus new_attribute hash name kind ≡ some (h, e, some a)
    → cqi_lookup_attribute later_corpus later_attribute h name kind ≡ some (h, status_ok, some a)
unfolding cqi_lookup_attribute
cqi_lookup_attribute-again {Attribute = Attribute} open_corpus later_corpus new_attribute
      later_attribute hash h name kind e a v r =
    elim (Option-cases (att_hash_lookup hash name)) [
      | inl full ↦ cc (rw (cqi_lookup_attribute, full) at r)
      | inr ((h0, p), found) ↦
          let (f, again) = att_hash_lookup-Finds hash h0 name p v found in
          let inside : p < h0.size = omega (arith, f.within, f.size) in
          elim (Option-cases (bucket h0 p).attribute) [
            | inr (a0, held) ↦
                let hit =
                  sym (lookup_hit open_corpus new_attribute hash h0 name kind p a0 found held)
                  ∙ r in
                elim (Bool-cases ((bucket h0 p).kind == kind)) [
                  | inr other ↦ cc (rw other at hit)
                  | inl same ↦
                      let e' : ◌≡◌ {A = Option (AttHashTable Attribute × ℕ × Option Attribute)}
                          (some (h0, status_ok, some a0)) (some (h, e, some a)) =
                        rw same at hit in
                      let eh : h0 ≡ h = cc in
                      let ea : a0 ≡ a = cc in
                      let ek : (bucket h0 p).kind ≡ kind = ground arith in
                      rw (← eh, ← ea)
                        (lookup_same later_corpus later_attribute h0 name kind p a0 again held ek)
                ]
            | inl closed ↦
                elim (Option-cases (open_attribute open_corpus new_attribute name kind)) [
                  | inl bad ↦ cc (rw (cqi_lookup_attribute, found, closed, bad) at r)
                  | inr ((e1, none), out) ↦ cc (
                      sym (
                        lookup_open open_corpus new_attribute hash h0 name kind p (e1, none) found
                          closed out)
                      ∙ r)
                  | inr ((e1, some a0), out) ↦
                      let e' : ◌≡◌ {A = Option (AttHashTable Attribute × ℕ × Option Attribute)}
                          (some (kept_at h0 p kind a0, e1, some a0)) (some (h, e, some a)) =
                        sym (
                          lookup_open open_corpus new_attribute hash h0 name kind p (e1, some a0)
                            found closed out)
                        ∙ r in
                      let eh : kept_at h0 p kind a0 ≡ h = cc in
                      let ea : a0 ≡ a = cc in
                      let b = kept_bucket h0 p kind a0 f.valid inside in
                      let stays =
                        att_hash_lookup-Keeps h0 (kept_at h0 p kind a0) name p f.valid
                          (kept-Keeps h0 p kind a0 f.valid inside) again in
                      rw (← eh, ← ea)
                        (lookup_same later_corpus later_attribute (kept_at h0 p kind a0) name kind p
                          a0 stays (ap (λ x. x.attribute) b) (ap (λ x. x.kind) b))
                ]
          ]
    ]
