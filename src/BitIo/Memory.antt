-- ===== src/BitIo/Memory.antt =====
-- `BSread` from an array of bytes and `BFread` from a file with these bytes do the same.
use native.Mathlib.Decide.{ℕ_discrete}
use cwb.Base.{
  ℕ, zero, suc, ◌+◌, ◌-◌, ◌≡◌, refl, sym, ap, ◌∙◌, ◌⊎◌, true, false, Option, none, some, List, [],
  ◌∷◌, arith, ◌==◌, get_elem?, drop, inl, inr,
}
use cwb.BitIo.Buffer.{shift_in, top_mask, shift_out}
use cwb.BitIo.File.{BFile, get_byte, bf_read_loop, bf_read}
use cwb.BitIo.Stream.{BStream, load_byte, bs_read_loop, bs_read}

-- The stream is at a byte of an array from which on the file has the bytes, with the same buffer.
pub record Corresponds (s : BStream) (f : BFile) : Type 0 where
  pub bytes : List ℕ
  pub base : s.base ≡ some bytes
  pub input : f.input ≡ drop s.position bytes
  pub buf : f.buf ≡ s.buf
  pub bits_in_buf : f.bits_in_buf ≡ s.bits_in_buf

-- Both readers give the same byte, and correspond again; or `BFread` returns 0 where `BSread` would read
-- past the end of the array.
abbrev pub Agree : Option (BStream × ℕ × ℕ) → BFile × ℕ × ℕ → Type 0
Agree s f =
    ((t : BStream) × (s ≡ some (t, f.1, 1)) × (f.2 ≡ 1) × Corresponds t f.0)
    ⊎ ((s ≡ none) × (f.2 ≡ 0))

drop-get_elem? :
    (p : ℕ) (xs : List ℕ)
    → ((drop p xs ≡ []) × (get_elem? xs p ≡ none))
      ⊎ ((b : ℕ) × (rest : List ℕ) × (drop p xs ≡ b ∷ rest)
          × (get_elem? xs p ≡ some b)
          × (drop (suc p) xs ≡ rest))
drop-get_elem? zero [] = inl (refl, refl)
drop-get_elem? (suc p) [] = inl (refl, refl)
drop-get_elem? zero (x ∷ xs) = inr (x, xs, refl, refl, refl)
drop-get_elem? (suc p) (x ∷ xs) = drop-get_elem? p xs

abbrev taken_file : BFile → BFile
taken_file l = record l { buf = shift_out l.buf; bits_in_buf = l.bits_in_buf - 1 }

abbrev taken_stream : BStream → BStream
taken_stream l = record l { buf = shift_out l.buf; bits_in_buf = l.bits_in_buf - 1 }

-- The start of a round: a byte is there on both sides, or on neither.
record Loaded (s : BStream) (f : BFile) (n d : ℕ) (t : BStream) (l : BFile) : Type 0 where
  same : Corresponds t l
  stream : bs_read_loop (suc n) d s ≡ bs_read_loop n (shift_in d t.buf top_mask) (taken_stream t)
  file : bf_read_loop (suc n) d f ≡ bf_read_loop n (shift_in d l.buf top_mask) (taken_file l)

loaded :
    (n d : ℕ) (s : BStream) (f : BFile)
    → Corresponds s f
    → ((t : BStream) × (l : BFile) × Loaded s f n d t l)
      ⊎ ((bs_read_loop (suc n) d s ≡ none) × ((bf_read_loop (suc n) d f).2 ≡ 0))
unfolding bs_read_loop bf_read_loop load_byte get_byte
loaded n d s f c = elim (ℕ_discrete s.bits_in_buf 0) [
  | no ne ↦
      let held : (s.bits_in_buf == 0) ≡ false = ground arith in
      let held' : (f.bits_in_buf == 0) ≡ false = ground (arith, c.bits_in_buf) in
      inl (
        s,
        f,
        record {
          same = c;
          stream = rw (bs_read_loop, held) refl;
          file = rw (bf_read_loop, held') refl;
        },
      )
  | yes z ↦
      let empty : (s.bits_in_buf == 0) ≡ true = ground arith in
      let empty' : (f.bits_in_buf == 0) ≡ true = ground (arith, c.bits_in_buf) in
      elim (drop-get_elem? s.position c.bytes) [
        | inl (over, nothing) ↦ inr (
          rw (bs_read_loop, empty, load_byte, c.base, nothing) refl,
          rw (bf_read_loop, empty', c.input, over) refl,
        )
        | inr (b, rest, at_b, elem, after) ↦
            let one : s.position + 1 ≡ suc s.position = omega arith in
            inl (
              record s { base = some c.bytes; buf = b; position = s.position + 1; bits_in_buf = 8 },
              record f { input = rest; buf = b; position = f.position + 1; bits_in_buf = 8 },
              record {
                same = record {
                  bytes = c.bytes;
                  base = refl;
                  input = sym after ∙ ap (λ p. drop p c.bytes) (sym one);
                  buf = refl;
                  bits_in_buf = refl;
                };
                stream =
                    rw (bs_read_loop, empty, load_byte, c.base, elem)
                      (ap
                        (λ o. bs_read_loop n (shift_in d b top_mask) (record s {
                          base = o;
                          buf = shift_out b;
                          bits_in_buf = 8 - 1;
                          position = s.position + 1;
                        }))
                        c.base);
                file = rw (bf_read_loop, empty', c.input, at_b) refl;
              },
            )
      ]
]

bs_read_loop-Agree :
    (n d : ℕ) (s : BStream) (f : BFile)
    → Corresponds s f
    → Agree (bs_read_loop n d s) (bf_read_loop n d f)
unfolding bs_read_loop bf_read_loop
bs_read_loop-Agree zero d s f c = inl (s, refl, refl, c)
bs_read_loop-Agree (suc n) d s f c = elim (loaded n d s f c) [
  | inr (over, short) ↦ inr (over, short)
  | inl (t, l, r) ↦
      let next : Corresponds (taken_stream t) (taken_file l) = record {
        bytes = r.same.bytes;
        base = r.same.base;
        input = r.same.input;
        buf = ap shift_out r.same.buf;
        bits_in_buf = ap (λ k. k - 1) r.same.bits_in_buf;
      } in
      let bit : shift_in d t.buf top_mask ≡ shift_in d l.buf top_mask =
        ap (λ b. shift_in d b top_mask) (sym r.same.buf) in
      let stream = r.stream ∙ ap (λ v. bs_read_loop n v (taken_stream t)) bit in
      rw (stream, r.file)
        (bs_read_loop-Agree n (shift_in d l.buf top_mask) (taken_stream t) (taken_file l) next)
]

-- `BSread` on an array and `BFread` on a file that correspond: both give the same bits, return 1, and
-- correspond again, or `BFread` returns 0 where `BSread` would read past the end of the array.
pub bs_read-Agree :
    (n : ℕ) (s : BStream) (f : BFile) → Corresponds s f → Agree (bs_read n s) (bf_read n f)
unfolding bs_read bf_read
bs_read-Agree n s f c = bs_read_loop-Agree n 0 s f c
