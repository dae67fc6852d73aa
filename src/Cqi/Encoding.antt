-- ===== src/Cqi/Encoding.antt =====
-- The bytes that stand for a value on the wire, and that the senders send exactly these.

use mathlib.Core.List.{append_assoc, append-nil}
use native.Mathlib.Decide.{dec_le}
use cwb.Base.{
  ℕ, ◌-◌, ◌/◌, ◌%◌, ◌^◌, ◌≤◌, ◌<◌, ◌≡◌, refl, ap, ◌∙◌, true, false, Option, none, some, List, [],
  ◌∷◌, ◌++◌, arith, if◌then◌else◌, ◌==◌, length, length-append,
}
use cwb.Base.Int.{ℤ, pos, negsuc, unsigned32, IsInt32}
use cwb.Cqi.Send.{
  Sink, Sender, low_byte, shift_right, cqi_send_byte, also, cqi_send_word, cqi_send_int, send_each,
}

-- The lowest bytes of a number, in network order.
abbrev pub word_bytes : ℕ → List ℕ
word_bytes n = n / 2 ^ 8 % 256 ∷ n % 256 ∷ []

abbrev pub int_bytes : ℤ → List ℕ
int_bytes n =
    unsigned32 n / 2 ^ 24 % 256
    ∷ unsigned32 n / 2 ^ 16 % 256
    ∷ unsigned32 n / 2 ^ 8 % 256
    ∷ unsigned32 n % 256
    ∷ []

abbrev pub string_bytes : Option (List ℕ) → List ℕ
string_bytes none = word_bytes 0
string_bytes (some str) = word_bytes (length str) ++ str

-- The bytes of the elements, one after the other.
unfoldable pub each_bytes {ℓ} : {A : Type ℓ} → (A → List ℕ) → List A → List ℕ
each_bytes bytes [] = []
each_bytes bytes (x ∷ list) = bytes x ++ each_bytes bytes list

abbrev pub list_bytes {ℓ} : {A : Type ℓ} → (A → List ℕ) → List A → List ℕ
list_bytes bytes list = int_bytes (pos (length list)) ++ each_bytes bytes list

-- After these bytes were sent.
abbrev pub after : Sink → List ℕ → Sink
after s bytes = record s { sent = s.sent ++ bytes; room = s.room - length bytes }

-- The sender sends these bytes if the stream takes them all, and fails otherwise.
pub record Sends (f : Sender) (bytes : List ℕ) : Type 0 where
  pub succeeds : (s : Sink) → length bytes ≤ s.room → f s ≡ (after s bytes, 1)
  pub fails : (s : Sink) → s.room < length bytes → (f s).1 ≡ 0

pub Sends-byte : (n : ℤ) → Sends (cqi_send_byte n) (low_byte n ∷ [])
unfolding cqi_send_byte
Sends-byte n = record {
  succeeds = λ s fits. let z : (s.room == 0) ≡ false = ground arith in rw z refl;
  fails = λ s full. let z : (s.room == 0) ≡ true = ground arith in rw z refl;
}

after-append : (s : Sink) (a b : List ℕ) → after (after s a) b ≡ after s (a ++ b)
after-append s a b =
    let room : s.room - length a - length b ≡ s.room - length (a ++ b) =
      omega (arith, length-append a b) in
    rw (room, append_assoc s.sent a b)

also_second :
    (f g : Sender) (s t : Sink)
    → f s ≡ (t, 1)
    → also f g s ≡ (if (g t).1 == 0 then ((g t).0, 0) else ((g t).0, 1))
unfolding also
also_second f g s t e = rw e refl

also_first : (f g : Sender) (s : Sink) → (f s).1 ≡ 0 → (also f g s).1 ≡ 0
unfolding also
also_first f g s e = rw e refl

pub Sends-also : {f g : Sender} {a b : List ℕ} → Sends f a → Sends g b → Sends (also f g) (a ++ b)
Sends-also {f} {g} {a} {b} first second = record {
  succeeds = λ s fits.
      let (fa, fb) = split s fits in
      also_second f g s (after s a) (first.succeeds s fa)
      ∙ rw (second.succeeds (after s a) fb, after-append s a b) refl;
  fails = λ s full. elim (dec_le (length a) s.room) [
    | no p ↦ also_first f g s (first.fails s (omega arith))
    | yes p ↦
        let e = second.fails (after s a) (omega (arith, full, length-append a b)) in
        ap (λ r. r.1) (also_second f g s (after s a) (first.succeeds s p)) ∙ rw e refl
  ];
}
  where
    split :
        (s : Sink) → length (a ++ b) ≤ s.room → (length a ≤ s.room) × (length b ≤ s.room - length a)
    split s fits = (omega (arith, fits, length-append a b), omega (arith, fits, length-append a b))

-- The bytes that the shifts leave are those of the pattern.
shifted_bytes :
    (n : ℤ)
    → IsInt32 n
    → (low_byte (shift_right n 24) ≡ unsigned32 n / 2 ^ 24 % 256)
      × (low_byte (shift_right n 16) ≡ unsigned32 n / 2 ^ 16 % 256)
      × (low_byte (shift_right n 8) ≡ unsigned32 n / 2 ^ 8 % 256)
      × (low_byte n ≡ unsigned32 n % 256)
shifted_bytes (pos n) h = (refl, refl, refl, refl)
shifted_bytes (negsuc n) h = (omega arith, omega arith, omega arith, omega arith)

pub Sends-word : (n : ℕ) → Sends (cqi_send_word (pos n)) (word_bytes n)
unfolding cqi_send_word
Sends-word n = Sends-also (Sends-byte (pos (n / 2 ^ 8))) (Sends-byte (pos n))

pub Sends-int : (n : ℤ) → IsInt32 n → Sends (cqi_send_int n) (int_bytes n)
unfolding cqi_send_int
Sends-int n h =
    let (a, b, c, d) = shifted_bytes n h in
    rw (← a, ← b, ← c, ← d)
      (Sends-also (Sends-byte (shift_right n 24)) (
        Sends-also (Sends-byte (shift_right n 16))
          (Sends-also (Sends-byte (shift_right n 8)) (Sends-byte n))))

after-nil : (s : Sink) → after s [] ≡ s
after-nil s = let room : s.room - 0 ≡ s.room = omega arith in rw (room, append-nil s.sent) refl

each_cons {ℓ} :
    {A : Type ℓ} (send : A → Sender) (x : A) (list : List A) (s : Sink)
    → send_each send (x ∷ list) s
      ≡ (if (send x s).1 == 0 then ((send x s).0, 0) else send_each send list (send x s).0)
unfolding send_each
each_cons send x list s = refl

-- A condition on all elements.
abbrev pub All {ℓ κ} : {A : Type ℓ} → (A → Type κ) → List A → Type κ
All P [] = Unit
All P (x ∷ xs) = P x × All P xs

pub Sends-each {ℓ} :
    {A : Type ℓ} (send : A → Sender) (bytes : A → List ℕ) (list : List A)
    → All (λ x. Sends (send x) (bytes x)) list
    → Sends (send_each send list) (each_bytes bytes list)
unfolding each_bytes
Sends-each send bytes [] h = record {
  succeeds = λ s fits. unfold send_each in rw (after-nil s) refl;
  fails = λ s full. absurd (omega arith);
}
Sends-each send bytes (x ∷ list) (h, hs) =
    let rest = Sends-each send bytes list hs in
    record {
      succeeds = λ s fits.
          let n = length-append (bytes x) (each_bytes bytes list) in
          each_cons send x list s
          ∙ rw (h.succeeds s (omega (arith, fits, n))) (
              rest.succeeds (after s (bytes x)) (omega (arith, fits, n))
              ∙ ap (λ t. (t, 1)) (after-append s (bytes x) (each_bytes bytes list)));
      fails = λ s full.
          let n = length-append (bytes x) (each_bytes bytes list) in
          elim (dec_le (length (bytes x)) s.room) [
            | no p ↦ ap (λ r. r.1) (each_cons send x list s) ∙ rw (h.fails s (omega arith)) refl
            | yes p ↦
                let e = rest.fails (after s (bytes x)) (omega (arith, full, n)) in
                ap (λ r. r.1) (each_cons send x list s) ∙ rw (h.succeeds s p) e
          ];
    }
