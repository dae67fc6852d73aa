-- ===== src/LexHash/Grow.antt =====
-- The expansion moves every entry to its new bucket: the table means the same map afterwards.
use mathlib.Core.List.{flatten}
use cwb.Base.{
  ℕ, zero, suc, ◌+◌, ◌≤◌, ◌<◌, ◌≡◌, refl, sym, ap, ◌∙◌, Option, none, some, List, [], ◌∷◌, ◌++◌,
  arith, if◌then◌else◌, length, length-set, length-replicate, get_or, set, replicate,
}
use cwb.LexHash.Hashing.{str_eq}
use cwb.LexHash.Chain.{Entry, Table, find_entry, count_entries, move_chain, move_table}
use cwb.LexHash.Prime.{str_eq_iff}
use cwb.LexHash.Bucket.{count_key, or_find, count_key_absent, find_entry_absent}
use cwb.LexHash.Table.{
  home, IsPlaced, view, count_entries-flatten, count_entries-set, flatten-view, replicate-IsPlaced,
  set-IsPlaced,
}

move_chain-append :
    (n : ℕ) (a b : List Entry) (t : Table)
    → move_chain n (a ++ b) t ≡ move_chain n b (move_chain n a t)
unfolding move_chain
move_chain-append n [] b t = refl
move_chain-append n (e ∷ a) b t = move_chain-append n a b _

-- The two nested loops are one over all the entries.
move_table-flatten : (n : ℕ) (old t : Table) → move_table n old t ≡ move_chain n (flatten old) t
unfolding move_table flatten
move_table-flatten n [] t = refl
move_table-flatten n (c ∷ old) t =
    move_table-flatten n old _ ∙ sym (move_chain-append n c (flatten old) t)

-- The table `t` of n buckets holds the entries of `f`, `total` of them, each in its place.
pub record Holds (n total : ℕ) (f : List ℕ → Option Entry) (t : Table) : Type 0 where
  pub sized : length t ≡ n
  pub counted : count_entries t ≡ total
  pub placed : IsPlaced n t
  pub reads : (q : List ℕ) → view n t q ≡ f q

-- Putting an entry with a new key in front of its home chain.
push_front :
    (n : ℕ) (t : Table) (e : Entry)
    → 0 < n
    → length t ≡ n
    → IsPlaced n t
    → view n t e.key ≡ none
    → Holds n
        (count_entries t + 1)
        (λ q. if str_eq e.key q then some e else view n t q)
        (set t (home n e.key) (e ∷ get_or t (home n e.key) []))
unfolding count_key find_entry
push_front n t e pos size placed absent =
    let old = get_or t (home n e.key) [] in
    let lt : home n e.key < length t = rw size (omega arith) in
    let none_yet = count_key_absent e.key old absent in
    let (p, r) =
      set-IsPlaced n t e.key (e ∷ old) (some e) placed lt
        (λ q. ground (
          arith,
          placed q (home n e.key),
          str_eq_iff e.key q,
          none_yet,
          λ (s : e.key ≡ q). ap (λ k. count_key k old) s,
          λ (s : e.key ≡ q). ap (home n) s,
        ))
        (λ q. refl) in
    record {
      sized = length-set t (home n e.key) (e ∷ old) ∙ size;
      counted = omega (arith, count_entries-set t (home n e.key) (e ∷ old) lt);
      placed = p;
      reads = r;
    }

move_chain-Holds :
    (n : ℕ) (es : List Entry) (t : Table)
    → 0 < n
    → length t ≡ n
    → IsPlaced n t
    → ((q : List ℕ) → count_key q es ≤ 1)
    → ((q : List ℕ) → 0 < count_key q es → view n t q ≡ none)
    → Holds n
        (count_entries t + length es)
        (λ q. or_find (find_entry es q) (view n t q))
        (move_chain n es t)
unfolding move_chain count_key find_entry
move_chain-Holds n [] t pos size placed once apart = record {
  sized = size;
  counted = omega arith;
  placed = placed;
  reads = λ q. refl;
}
move_chain-Holds n (e ∷ es) t pos size placed once apart =
    let absent = apart e.key (ground (arith, str_eq_iff e.key e.key)) in
    let step = push_front n t e pos size placed absent in
    let t' = set t (home n e.key) (e ∷ get_or t (home n e.key) []) in
    let rest =
      move_chain-Holds n es t' pos step.sized step.placed (λ q. omega (arith, once q))
        (λ q h. step.reads q ∙ ground (arith, once q, apart q, str_eq_iff e.key q)) in
    record {
      sized = rest.sized;
      counted = omega (arith, rest.counted, step.counted);
      placed = rest.placed;
      reads = λ q. ground (arith, rest.reads q, step.reads q, once q, find_entry_absent q es);
    }

pub count_entries-replicate : (n : ℕ) → count_entries (replicate n []) ≡ 0
unfolding count_entries
count_entries-replicate zero = refl
count_entries-replicate (suc n) = omega (arith, count_entries-replicate n)

or_find-none : (a : Option Entry) → or_find a none ≡ a
or_find-none none = refl
or_find-none (some e) = refl

-- Moving a whole table into n empty buckets loses no entry and changes no lookup.
pub move_table-Holds :
    (m n : ℕ) (old : Table)
    → 0 < n
    → IsPlaced m old
    → Holds n (count_entries old) (view m old) (move_table n old (replicate n []))
move_table-Holds m n old pos placed =
    let (p, r) = replicate-IsPlaced n n in
    let all =
      move_chain-Holds n (flatten old) (replicate n []) pos (length-replicate n []) p
        (λ q. (flatten-view m old placed q).1) (λ q h. r q) in
    rw (move_table-flatten n old (replicate n [])) (record {
      sized = all.sized;
      counted = all.counted ∙ omega (arith, count_entries-replicate n, count_entries-flatten old);
      placed = all.placed;
      reads = λ q. all.reads q ∙ rw (r q, or_find-none) (flatten-view m old placed q).0;
    })
