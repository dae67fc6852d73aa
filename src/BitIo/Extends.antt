-- ===== src/BitIo/Extends.antt =====
-- Bytes that are added to an output file.
use mathlib.Core.List.{append-nil, append_assoc}
use cwb.Base.{
  ℕ, zero, suc, ◌+◌, ◌-◌, ◌<◌, ◌≡◌, sym, ap, ◌∙◌, List, [], ◌∷◌, ◌++◌, arith, length, length-append,
  get_or,
}
use cwb.BitIo.File.{BFile}

-- The file has bytes.
abbrev pub HasBytes : List ℕ → Type 0
HasBytes bytes = (i : ℕ) → get_or bytes i 0 < 256

-- `r` is `s` with bytes added to the file, and the position advanced by their number.
pub record Extends (s r : BFile) : Type 0 where
  pub tail : List ℕ
  pub appended : r.output ≡ s.output ++ tail
  pub counted : r.position ≡ s.position + length tail
  pub taken : r.room + length tail ≡ s.room
  pub sound : HasBytes tail

pub no_bytes : HasBytes []
no_bytes i = omega arith

pub Extends-refl : (s : BFile) → Extends s s
Extends-refl s = record {
  tail = [];
  appended = sym (append-nil s.output);
  counted = omega arith;
  taken = omega arith;
  sound = no_bytes;
}

pub HasBytes-both : (a b : List ℕ) → HasBytes a → HasBytes b → HasBytes (a ++ b)
HasBytes-both [] b ha hb i = hb i
HasBytes-both (x ∷ a) b ha hb zero = ha 0
HasBytes-both (x ∷ a) b ha hb (suc i) = HasBytes-both a b (λ j. ha (suc j)) hb i

pub Extends-trans : {s r t : BFile} → Extends s r → Extends r t → Extends s t
Extends-trans {s} first second = record {
  tail = first.tail ++ second.tail;
  appended =
      second.appended
      ∙ ap (λ l. l ++ second.tail) first.appended
      ∙ append_assoc s.output first.tail second.tail;
  counted = omega (arith, first.counted, second.counted, length-append first.tail second.tail);
  taken = omega (arith, first.taken, second.taken, length-append first.tail second.tail);
  sound = HasBytes-both first.tail second.tail first.sound second.sound;
}

one_byte : (b : ℕ) → b < 256 → HasBytes (b ∷ [])
one_byte b h zero = h
one_byte b h (suc i) = omega arith

-- A byte that is put.
pub Extends-byte :
    (s r : BFile) (b : ℕ)
    → b < 256
    → 0 < s.room
    → r.output ≡ s.output ++ b ∷ []
    → r.room ≡ s.room - 1
    → r.position ≡ s.position + 1
    → Extends s r
Extends-byte s r b h room e room' position = record {
  tail = b ∷ [];
  appended = e;
  counted = position;
  taken = omega (arith, room, room');
  sound = one_byte b h;
}
