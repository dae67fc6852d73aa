-- ===== src/Cqi/Values.antt =====
-- The values of the protocol: texts, lists, and values with their tags.
use mathlib.Core.Path.{subst}
use cwb.Base.{
  ℕ, ◌+◌, ◌%◌, ◌^◌, ◌≤◌, ◌<◌, ◌≡◌, refl, ap, true, Option, none, some, List, [], ◌∷◌, ◌++◌, arith,
  length, length-append,
}
use cwb.Base.Int.{pos}
use cwb.Cqi.Send.{
  Sink, Sender, cqi_send_byte, also, cqi_send_word, cqi_send_int, send_each, cqi_send_string,
  cqi_send_byte_list, cqi_flush, or_exit, DataTag, tag_code, tagged,
}
use cwb.Cqi.Encoding.{
  word_bytes, int_bytes, string_bytes, each_bytes, list_bytes, after, Sends, Sends-byte, Sends-also,
  Sends-word, Sends-int, Sends-each, All,
}

-- `unsigned char` values, and the texts of C strings.
abbrev pub AllBytes : List ℕ → Type 0
AllBytes = All (λ b. b < 256)

abbrev pub IsText : Option (List ℕ) → Type 0
IsText none = Unit
IsText (some str) = AllBytes str × (length str < 2 ^ 16)

byte_each : (list : List ℕ) → AllBytes list → each_bytes (λ b. b % 256 ∷ []) list ≡ list
unfolding each_bytes
byte_each [] h = refl
byte_each (b ∷ list) (h, hs) =
    let e : b % 256 ≡ b = omega arith in rw e (ap (λ l. b ∷ l) (byte_each list hs))

All-senders {ℓ} :
    {A : Type ℓ} {P : A → Type 0} (send : A → Sender) (bytes : A → List ℕ) (list : List A)
    → ((x : A) → P x → Sends (send x) (bytes x))
    → All P list
    → All (λ x. Sends (send x) (bytes x)) list
All-senders send bytes [] h all = tt
All-senders send bytes (x ∷ list) h (p, all) = (h x p, All-senders send bytes list h all)

Sends-bytes :
    (list : List ℕ) → AllBytes list → Sends (send_each (λ b. cqi_send_byte (pos b)) list) list
Sends-bytes list h =
    subst (Sends (send_each (λ b. cqi_send_byte (pos b)) list)) (byte_each list h) (
      Sends-each (λ b. cqi_send_byte (pos b)) (λ b. b % 256 ∷ []) list
        (All-senders (λ b. cqi_send_byte (pos b)) (λ b. b % 256 ∷ []) list
          (λ b small. Sends-byte (pos b)) h))

pub Sends-string :
    (str : Option (List ℕ)) → IsText str → Sends (cqi_send_string str) (string_bytes str)
unfolding cqi_send_string
Sends-string none h = Sends-word 0
Sends-string (some str) (h, small) = Sends-also (Sends-word (length str)) (Sends-bytes str h)

-- A list with fewer than 2^31 elements.
pub Sends-list {ℓ} :
    {A : Type ℓ} {P : A → Type 0} (send : A → Sender) (bytes : A → List ℕ) (list : List A)
    → length list < 2 ^ 31
    → ((x : A) → P x → Sends (send x) (bytes x))
    → All P list
    → Sends (also (cqi_send_int (pos (length list))) (send_each send list)) (list_bytes bytes list)
Sends-list send bytes list short h all =
    Sends-also (Sends-int (pos (length list)) short)
      (Sends-each send bytes list (All-senders send bytes list h all))

pub Sends-byte_list :
    (list : List ℕ)
    → length list < 2 ^ 31
    → AllBytes list
    → Sends (cqi_send_byte_list list) (int_bytes (pos (length list)) ++ list)
unfolding cqi_send_byte_list
Sends-byte_list list short h = Sends-also (Sends-int (pos (length list)) short) (Sends-bytes list h)

or_exit-some :
    (f : Sender) (bytes : List ℕ) (s : Sink)
    → Sends f bytes
    → length bytes ≤ s.room
    → s.flushes ≡ true
    → or_exit f s ≡ some (after s bytes)
unfolding or_exit also cqi_flush
or_exit-some f bytes s h fits e = simp (h.succeeds s fits, e)

or_exit-none :
    (f : Sender) (bytes : List ℕ) (s : Sink)
    → Sends f bytes
    → s.room < length bytes
    → or_exit f s ≡ none
unfolding or_exit also
or_exit-none f bytes s h full = simp (h.fails s full)

-- A value with its tag: if the stream takes the bytes and can be flushed, exactly the two bytes of the
-- tag and those of the value are sent; if the stream takes fewer bytes, the server exits.
pub tagged_lem :
    (tag : DataTag) (value : Sender) (bytes : List ℕ) (s : Sink)
    → Sends value bytes
    → (length bytes + 2 ≤ s.room
        → s.flushes ≡ true
        → tagged tag value s ≡ some (after s (word_bytes (tag_code tag) ++ bytes)))
      × (s.room < length bytes + 2 → tagged tag value s ≡ none)
unfolding tagged
tagged_lem tag value bytes s h =
    let both = Sends-also (Sends-word (tag_code tag)) h in
    let n = length-append (word_bytes (tag_code tag)) bytes in
    let whole = word_bytes (tag_code tag) ++ bytes in
    let f = also (cqi_send_word (pos (tag_code tag))) value in
    (
      λ fits e. or_exit-some f whole s both (omega arith) e,
      λ full. or_exit-none f whole s both (omega arith),
    )
