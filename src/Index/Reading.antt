-- ===== src/Index/Reading.antt =====
-- Position streams deliver the list of `cl_id2cpos_oldstyle`, however it is read.
use mathlib.Core.Path.{subst}
use cwb.Base.{
  ℕ, zero, suc, ◌+◌, ◌-◌, ◌%◌, ◌^◌, ◌≤◌, ◌≡◌, refl, sym, ap, ◌∙◌, true, false, Option, none, some,
  List, [], ◌∷◌, ◌++◌, arith, if◌then◌else◌, length, take_all, drop_all, Bool-cases, ℕ-cases,
  length-drop, drop_add, take-append, drop-append, get_or, take, drop, ltb, leb, ◌==◌, ◌⊎◌, inl,
  inr,
}
use cwb.Base.Int.{ℤ, unsigned32}
use cwb.Index.Lookup.{ints_at, positions_loop}
use cwb.Index.Entry.{positions_loop-Round}
use cwb.Index.Streams.{PositionStream, read_gaps, copy_ints, cl_read_stream}

-- The ints from the pointer on begin with the items that were read and those that are left.
pub record IsPlain (ps : PositionStream) (items : List ℕ) : Type 0 where
  pub ints : List ℕ
  pub others : List ℕ
  pub plain : ps.is_compressed ≡ 0
  pub base : ps.base ≡ some ints
  pub ahead : drop ps.nr_items ints ≡ items ++ others
  pub fits : ps.nr_items + length items ≤ length ints

copy_ints-IsPlain :
    (n : ℕ) (ps : PositionStream) (items : List ℕ)
    → n ≤ length items
    → IsPlain ps items
    → (copy_ints n ps ≡ some (record ps { nr_items = ps.nr_items + n }, take n items))
      × IsPlain (record ps { nr_items = ps.nr_items + n }) (drop n items)
unfolding copy_ints ints_at
copy_ints-IsPlain n ps items h p =
    let room : leb (ps.nr_items + n) (length p.ints) ≡ true = ground (arith, h, p.fits) in
    let left = length-drop n items in
    let copied : Option (List ℕ) → Option (PositionStream × List ℕ) = λ base. elim base [
      | none ↦ none
      | some ints ↦ elim (ints_at ints ps.nr_items n) [
        | none ↦ none
        | some found ↦ some (record ps { nr_items = ps.nr_items + n }, found)
      ]
    ] in
    (
      ap copied p.base ∙ rw (ints_at, room, p.ahead, take-append n items p.others h) refl,
      record {
        ints = p.ints;
        others = p.others;
        plain = p.plain;
        base = p.base;
        ahead =
            drop_add ps.nr_items n p.ints ∙ ap (drop n) p.ahead ∙ drop-append n items p.others h;
        fits = omega (arith, h, left, p.fits);
      },
    )

module _ (ceil_log2 : ℕ → ℕ) (ratio : ℕ → ℕ → ℤ) where
  pub record IsCoded (ps : PositionStream) (items : List ℕ) : Type 0 where
    pub coded : ps.is_compressed ≡ 1
    pub loop :
        positions_loop ceil_log2 ratio (length items) ps.b false [] ps.last_pos ps.bs ≡ some items

  -- The stream will deliver these items, and no others.
  pub record Delivers (ps : PositionStream) (items : List ℕ) : Type 0 where
    pub count : ps.nr_items + length items ≡ ps.id_freq
    pub kind : IsPlain ps items ⊎ IsCoded ps items

  -- The items of the chunks that are read in turn.
  unfoldable pub read_chunks : List ℕ → PositionStream → Option (PositionStream × List ℕ)
  unfolding cl_read_stream
  read_chunks [] ps = some (ps, [])
  read_chunks (buffer_size ∷ sizes) ps = elim (cl_read_stream ceil_log2 ratio ps buffer_size) [
    | none ↦ none
    | some r ↦ elim (read_chunks sizes r.0) [ none ↦ none | some t ↦ some (t.0, r.1 ++ t.1) ]
  ]

  read_gaps-IsCoded :
      (n : ℕ) (ps : PositionStream) (items : List ℕ)
      → n ≤ length items
      → IsCoded ps items
      → (t : PositionStream) × (read_gaps ceil_log2 ratio n ps ≡ some (t, take n items))
        × IsCoded t (drop n items)
        × (t.nr_items ≡ ps.nr_items + n)
        × (t.id_freq ≡ ps.id_freq)
  unfolding read_gaps
  read_gaps-IsCoded zero ps items h c = (ps, refl, c, omega arith, refl)
  read_gaps-IsCoded (suc n) ps [] h c = absurd (omega (arith, h))
  read_gaps-IsCoded (suc n) ps (x ∷ items) h c =
      let r =
        positions_loop-Round ceil_log2 ratio (length items) ps.b ps.last_pos ps.bs (x ∷ items)
          c.loop in
      let p = (ps.last_pos + unsigned32 r.gap) % 2 ^ 32 in
      let ps' = record ps { bs = r.r; last_pos = p; nr_items = ps.nr_items + 1 } in
      let here : x ≡ p = ap (λ l. get_or l 0 0) r.whole in
      let rest : items ≡ r.rest = ap (drop 1) r.whole in
      let (t, run, c', counted, same) =
        read_gaps-IsCoded n ps' items (omega (arith, h))
          (record { coded = c.coded; loop = r.more ∙ ap some (sym rest) }) in
      (
        t,
        rw (read_gaps, r.read, run) (ap (λ v. some (t, v ∷ take n items)) (sym here)),
        c',
        omega (arith, counted),
        same,
      )

  -- The items that `cl_read_stream` reads, for a number of them that is left.
  read_some :
      (m : ℕ) (ps : PositionStream) (items : List ℕ)
      → m ≤ length items
      → Delivers ps items
      → (t : PositionStream) × ((if ps.is_compressed == 0
            then copy_ints m ps
            else read_gaps ceil_log2 ratio m ps)
          ≡ some (t, take m items))
        × Delivers t (drop m items)
  read_some m ps items h d =
      let left = length-drop m items in
      elim d.kind [
        | inl p ↦
            let (run, p') = copy_ints-IsPlain m ps items h p in
            let flag : (ps.is_compressed == 0) ≡ true = ground (arith, p.plain) in
            (
              record ps { nr_items = ps.nr_items + m },
              rw flag run,
              record { count = omega (arith, h, left, d.count); kind = inl p' },
            )
        | inr c ↦
            let (t, run, c', counted, same) = read_gaps-IsCoded m ps items h c in
            let flag : (ps.is_compressed == 0) ≡ false = ground (arith, c.coded) in
            (
              t,
              rw flag run,
              record { count = omega (arith, h, left, d.count, counted, same); kind = inr c' },
            )
      ]

  abbrev items_to_read : PositionStream → ℕ → ℕ
  items_to_read ps n = if ltb (ps.id_freq - ps.nr_items) n then ps.id_freq - ps.nr_items else n

  read_step :
      (ps : PositionStream) (n m : ℕ)
      → items_to_read ps n ≡ suc m
      → cl_read_stream ceil_log2 ratio ps n ≡ (
          if ps.is_compressed == 0
          then copy_ints (suc m) ps
          else read_gaps ceil_log2 ratio (suc m) ps)
  unfolding cl_read_stream
  read_step ps n m e =
      let some_left : leb ps.id_freq ps.nr_items ≡ false = ground (arith, e) in
      let nonzero : (suc m == 0) ≡ false = ground arith in
      rw (cl_read_stream, some_left, e, nonzero) refl

  read_none :
      (ps : PositionStream) (n : ℕ)
      → items_to_read ps n ≡ 0
      → cl_read_stream ceil_log2 ratio ps n ≡ some (ps, [])
  unfolding cl_read_stream
  read_none ps n e = elim (Bool-cases (leb ps.id_freq ps.nr_items)) [
    | inl over ↦ rw (cl_read_stream, over) refl
    | inr more ↦ rw (cl_read_stream, more, e) refl
  ]

  -- The number of items to read stops at those that are left.
  same_items :
      (ps : PositionStream) (items : List ℕ) (n : ℕ)
      → Delivers ps items
      → (items_to_read ps n ≤ length items)
        × (take (items_to_read ps n) items ≡ take n items)
        × (drop (items_to_read ps n) items ≡ drop n items)
  same_items ps items n d = elim (Bool-cases (ltb (ps.id_freq - ps.nr_items) n)) [
    | inl few ↦
        let size : ps.id_freq - ps.nr_items ≡ length items = omega (arith, d.count) in
        let over : length items ≤ n = ground (arith, few, size) in
        rw (few, size)
          (
            omega arith,
            take_all (length items) items (omega arith) ∙ sym (take_all n items over),
            drop_all (length items) items (omega arith) ∙ sym (drop_all n items over),
          )
    | inr many ↦ rw many (ground (arith, d.count, many), refl, refl)
  ]

  -- `cl_read_stream` reads the next n items, or as many as are left.
  pub cl_read_stream-Delivers :
      (n : ℕ) (ps : PositionStream) (items : List ℕ)
      → Delivers ps items
      → (t : PositionStream) × (cl_read_stream ceil_log2 ratio ps n ≡ some (t, take n items))
        × Delivers t (drop n items)
  cl_read_stream-Delivers n ps items d =
      let (few, taken, dropped) = same_items ps items n d in
      elim (ℕ-cases (items_to_read ps n)) [
        | inl e ↦ (
          ps,
          read_none ps n e ∙ ap (λ l. some (ps, l)) (ap (λ k. take k items) (sym e) ∙ taken),
          subst (Delivers ps) (ap (λ k. drop k items) (sym e) ∙ dropped) d,
        )
        | inr (m, e) ↦
            let (t, run, d') = read_some (suc m) ps items (omega (arith, few, e)) d in
            (
              t,
              read_step ps n m e
                  ∙ run
                  ∙ ap (λ l. some (t, l)) (ap (λ k. take k items) (sym e) ∙ taken),
              subst (Delivers t) (ap (λ k. drop k items) (sym e) ∙ dropped) d',
            )
      ]
