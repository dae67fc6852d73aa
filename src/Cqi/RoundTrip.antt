-- ===== src/Cqi/RoundTrip.antt =====
-- What a client reads is what the server sent, and the other way round: the readers of the server give
-- back a value from its bytes, and leave what follows.
use mathlib.Core.List.{append_assoc}
use cwb.Base.{
  ℕ, zero, suc, ◌+◌, ◌*◌, ◌/◌, ◌%◌, ◌^◌, ◌≤◌, ◌<◌, ◌≡◌, refl, ap, ◌∙◌, true, false, Option, none,
  some, List, [], ◌∷◌, ◌++◌, map, arith, ◌==◌, leb, length, length-append, take, drop, replicate,
}
use cwb.Base.Int.{ℤ, pos, unsigned32, signed32, IsInt32, signed32-unsigned32, unsigned32-lt}
use cwb.Base.Bits.{bit_or_shift}
use cwb.Cqi.Send.{
  Sink, Sender, cqi_send_string_list, cqi_send_int_list, cqi_send_string, cqi_send_int,
}
use cwb.Cqi.Receive.{
  Reader, then_read, cqi_read_byte, cqi_recv_bytes, join_byte, cqi_read_word, cqi_read_int,
  cqi_read_string, cqi_read_command, read_each, read_elements, read_list, cqi_read_int_list,
  cqi_read_string_list,
}
use cwb.Cqi.Encoding.{
  word_bytes, int_bytes, string_bytes, each_bytes, list_bytes, after, Sends-int, All,
}
use cwb.Cqi.Values.{IsText, Sends-string, Sends-list}

-- The reader gives the value back from these bytes, whatever follows.
abbrev pub Reads {ℓ} : {A : Type ℓ} → Reader A → List ℕ → A → Type ℓ
Reads read bytes a = (rest : List ℕ) → read (bytes ++ rest) ≡ some (a, rest)

join : (n b : ℕ) → n < 2 ^ 24 → b < 256 → join_byte n b ≡ n * 256 + b
join n b hn hb =
    let e : n * 2 ^ 8 % 2 ^ 32 ≡ n * 2 ^ 8 = omega arith in rw e (bit_or_shift 8 n b hb)

pub read-word : (n : ℕ) → n < 2 ^ 16 → Reads cqi_read_word (word_bytes n) n
unfolding cqi_read_word then_read cqi_read_byte
read-word n h rest =
    let e : join_byte (n / 2 ^ 8 % 256) (n % 256) ≡ n =
      join (n / 2 ^ 8 % 256) (n % 256) (omega arith) (omega arith) ∙ omega arith in
    rw e refl

join_four :
    (n : ℕ)
    → n < 2 ^ 32
    → join_byte
        (join_byte (join_byte (n / 2 ^ 24 % 256) (n / 2 ^ 16 % 256)) (n / 2 ^ 8 % 256))
        (n % 256)
      ≡ n
join_four n h =
    let j1 = join (n / 2 ^ 24 % 256) (n / 2 ^ 16 % 256) (omega arith) (omega arith) in
    let x1 = n / 2 ^ 24 % 256 * 256 + n / 2 ^ 16 % 256 in
    let j2 = join x1 (n / 2 ^ 8 % 256) (omega arith) (omega arith) in
    let x2 = x1 * 256 + n / 2 ^ 8 % 256 in
    let j3 = join x2 (n % 256) (omega arith) (omega arith) in
    ap (λ t. join_byte (join_byte t (n / 2 ^ 8 % 256)) (n % 256)) j1
    ∙ ap (λ t. join_byte t (n % 256)) j2
    ∙ j3
    ∙ omega arith

pub read-int : (n : ℤ) → IsInt32 n → Reads cqi_read_int (int_bytes n) n
unfolding cqi_read_int then_read cqi_read_byte
read-int n h rest =
    let e = ap signed32 (join_four (unsigned32 n) (unsigned32-lt n h)) ∙ signed32-unsigned32 n h in
    ap (λ t. some (t, rest)) e

take-append {ℓ} :
    {A : Type ℓ} (xs ys : List A)
    → (take (length xs) (xs ++ ys) ≡ xs) × (drop (length xs) (xs ++ ys) ≡ ys)
take-append [] [] = (refl, refl)
take-append [] (y ∷ ys) = (refl, refl)
take-append (x ∷ xs) ys = let (t, d) = take-append xs ys in (ap (λ l. x ∷ l) t, d)

recv-bytes : (str : List ℕ) → Reads (cqi_recv_bytes (length str)) str str
unfolding cqi_recv_bytes
recv-bytes str rest =
    let n = length-append str rest in
    let enough : leb (length str) (length (str ++ rest)) ≡ true = ground (arith, n) in
    let (t, d) = take-append str rest in rw (enough, t, d) refl

pub then_step {ℓ κ} :
    {A : Type ℓ} {B : Type κ} (read : Reader A) (next : A → Reader B) (bytes rest : List ℕ) (a : A)
    → Reads read bytes a
    → then_read read next (bytes ++ rest) ≡ next a rest
unfolding then_read
then_step read next bytes rest a h = rw (then_read, h rest) refl

pub read-string :
    (str : List ℕ) → length str < 2 ^ 16 → Reads cqi_read_string (string_bytes (some str)) str
unfolding cqi_read_string
read-string str h rest =
    ap (then_read cqi_read_word cqi_recv_bytes) (append_assoc (word_bytes (length str)) str rest)
    ∙ then_step cqi_read_word cqi_recv_bytes (word_bytes (length str)) (str ++ rest) (length str)
        (read-word (length str) h)
    ∙ recv-bytes str rest

read-each {ℓ κ} :
    {A : Type ℓ} {B : Type κ} (read : Reader B) (bytes : A → List ℕ) (value : A → B) (list : List A)
    → All (λ x. Reads read (bytes x) (value x)) list
    → Reads (read_each read (length list)) (each_bytes bytes list) (map value list)
unfolding read_each each_bytes
read-each read bytes value [] h rest = refl
read-each {B = B} read bytes value (x ∷ list) (h, hs) rest =
    let next = λ (y : B). then_read (read_each read (length list)) (λ l i. some (y ∷ l, i)) in
    ap (then_read read next) (append_assoc (bytes x) (each_bytes bytes list) rest)
    ∙ then_step read next (bytes x) (each_bytes bytes list ++ rest) (value x) h
    ∙ then_step (read_each read (length list)) (λ l i. some (value x ∷ l, i))
        (each_bytes bytes list) rest (map value list) (read-each read bytes value list hs)

pub read-list {ℓ κ} :
    {A : Type ℓ} {B : Type κ} (read : Reader B) (bytes : A → List ℕ) (value : A → B) (list : List A)
    → length list < 2 ^ 31
    → All (λ x. Reads read (bytes x) (value x)) list
    → Reads (read_list read) (list_bytes bytes list) (map value list, length list)
unfolding read_list read_elements
read-list read bytes value list short h rest =
    let n = pos (length list) in
    ap (then_read cqi_read_int (read_elements read))
      (append_assoc (int_bytes n) (each_bytes bytes list) rest)
    ∙ then_step cqi_read_int (read_elements read) (int_bytes n) (each_bytes bytes list ++ rest) n
        (read-int n short)
    ∙ then_step (read_each read (length list)) (λ l i. some ((l, length list), i))
        (each_bytes bytes list) rest (map value list) (read-each read bytes value list h)

pub map_same {ℓ} : {A : Type ℓ} (list : List A) → map (λ x. x) list ≡ list
map_same [] = refl
map_same (x ∷ list) = ap (λ l. x ∷ l) (map_same list)

-- Where both ends agree, what the sender puts on the stream comes back from the reader.
abbrev pub Transmits {ℓ} : {A : Type ℓ} → Sender → Reader A → A → Type ℓ
Transmits send read a =
    (bytes : List ℕ) × ((s : Sink) → length bytes ≤ s.room → send s ≡ (after s bytes, 1))
    × ((s : Sink) → s.room < length bytes → (send s).1 ≡ 0)
    × ((rest : List ℕ) → read (bytes ++ rest) ≡ some (a, rest))

-- `cqi_send_int_list` sends a list of fewer than 2^31 ints so that `cqi_read_int_list` gives the list
-- and its length back and leaves what follows; if the stream does not take all its bytes, the sender
-- returns 0.
pub int_list_round_trip :
    (list : List ℤ)
    → length list < 2 ^ 31
    → All IsInt32 list
    → Transmits (cqi_send_int_list list) cqi_read_int_list (list, length list)
unfolding cqi_send_int_list
int_list_round_trip list short h =
    let sends = Sends-list {P = IsInt32} cqi_send_int int_bytes list short Sends-int h in
    let reads = read-list cqi_read_int int_bytes (λ n. n) list short (all_reads list h) in
    (
      list_bytes int_bytes list,
      sends.succeeds,
      sends.fails,
      λ rest. rw (map_same list) at (reads rest),
    )
  where
    all_reads :
        (list : List ℤ) → All IsInt32 list → All (λ n. Reads cqi_read_int (int_bytes n) n) list
    all_reads [] h = tt
    all_reads (n ∷ list) (h, hs) = (read-int n h, all_reads list hs)

-- The text that arrives for a string: "" for NULL.
abbrev pub text : Option (List ℕ) → List ℕ
text none = []
text (some str) = str

-- `cqi_send_string_list` sends a list of fewer than 2^31 strings, each NULL or shorter than 2^16 bytes, so
-- that `cqi_read_string_list` gives the list, with "" for NULL, and its length back and leaves what follows;
-- if the stream does not take all its bytes, the sender returns 0.
pub string_list_round_trip :
    (list : List (Option (List ℕ)))
    → length list < 2 ^ 31
    → All IsText list
    → Transmits (cqi_send_string_list list) cqi_read_string_list (map text list, length list)
unfolding cqi_send_string_list
string_list_round_trip list short h =
    let sends = Sends-list {P = IsText} cqi_send_string string_bytes list short Sends-string h in
    let reads = read-list cqi_read_string string_bytes text list short (all_reads list h) in
    (list_bytes string_bytes list, sends.succeeds, sends.fails, reads)
  where
    read_text :
        (str : Option (List ℕ)) → IsText str → Reads cqi_read_string (string_bytes str) (text str)
    read_text none h = read-string [] (omega arith)
    read_text (some str) (h, small) = read-string str small

    all_reads :
        (list : List (Option (List ℕ)))
        → All IsText list
        → All (λ str. Reads cqi_read_string (string_bytes str) (text str)) list
    all_reads [] h = tt
    all_reads (str ∷ list) (h, hs) = (read_text str h, all_reads list hs)

-- Padding before a command is skipped: after any number of zero bytes a command whose first byte is not
-- zero is read.
pub cqi_read_command-padding :
    (n command : ℕ)
    → 2 ^ 8 ≤ command
    → command < 2 ^ 16
    → Reads cqi_read_command (replicate n 0 ++ word_bytes command) command
unfolding cqi_read_command then_read cqi_read_byte
cqi_read_command-padding zero command lo hi rest =
    let z : (command / 2 ^ 8 % 256 == 0) ≡ false = ground arith in
    let e : join_byte (command / 2 ^ 8 % 256) (command % 256) ≡ command =
      join (command / 2 ^ 8 % 256) (command % 256) (omega arith) (omega arith) ∙ omega arith in
    rw (z, e) refl
cqi_read_command-padding (suc n) command lo hi rest = cqi_read_command-padding n command lo hi rest
