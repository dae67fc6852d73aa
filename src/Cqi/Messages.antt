-- ===== src/Cqi/Messages.antt =====
-- What is sent with a tag is read as a value of the type of the tag.
use mathlib.Core.List.{append_assoc}
use cwb.Base.{
  ℕ, ◌%◌, ◌^◌, ◌≤◌, ◌<◌, ◌≡◌, refl, ap, ◌∙◌, true, Option, none, some, List, [], ◌∷◌, ◌++◌, arith,
  length, length-append,
}
use cwb.Base.Int.{ℤ, pos, IsInt32}
use cwb.Cqi.Send.{
  Sink, Sender, also, cqi_send_byte, cqi_send_int, cqi_send_string, cqi_send_byte_list,
  cqi_send_int_list, cqi_send_string_list, DataTag, data_byte, data_bool, data_int, data_string,
  data_byte_list, data_bool_list, data_int_list, data_string_list, data_int_int,
  data_int_int_int_int, tag_code, tagged,
}
use cwb.Cqi.Receive.{
  Reader, then_read, read_list, cqi_read_byte, cqi_read_word, cqi_read_int, cqi_read_string,
}
use cwb.Cqi.Encoding.{
  word_bytes, int_bytes, string_bytes, list_bytes, after, Sends, Sends-byte, Sends-also, Sends-int,
  All,
}
use cwb.Cqi.Values.{IsText, Sends-string, Sends-list, tagged_lem}
use cwb.Cqi.RoundTrip.{
  Reads, read-word, read-int, read-string, then_step, read-list, map_same, text,
}
use cwb.Cqi.Typed.{
  Value, Received, IsValue, received, cqi_data, read_both, read_four, read_value, tags, find_tag,
  Message, read_tagged, read_message,
}

abbrev pub byte_bytes : ℕ → List ℕ
byte_bytes b = b % 256 ∷ []

All-Reads {ℓ κ} :
    {A : Type ℓ} {B : Type κ} {P : A → Type 0} (read : Reader B) (bytes : A → List ℕ)
    (value : A → B)
    → ((x : A) → P x → Reads read (bytes x) (value x))
    → (list : List A) → All P list
    → All (λ x. Reads read (bytes x) (value x)) list
All-Reads read bytes value h [] all = tt
All-Reads read bytes value h (x ∷ list) (p, all) = (h x p, All-Reads read bytes value h list all)

read-byte : (b : ℕ) → b < 256 → Reads cqi_read_byte (byte_bytes b) b
unfolding cqi_read_byte
read-byte b h rest = let e : b % 256 ≡ b = omega arith in ap (λ n. some (n, rest)) e

read-text :
    (str : Option (List ℕ)) → IsText str → Reads cqi_read_string (string_bytes str) (text str)
read-text none h = read-string [] (omega arith)
read-text (some str) (h, small) = read-string str small

read-both {ℓ κ} :
    {A : Type ℓ} {B : Type κ} (first : Reader A) (second : Reader B) (bytes bytes' : List ℕ) (a : A)
    (b : B)
    → Reads first bytes a
    → Reads second bytes' b
    → Reads (read_both first second) (bytes ++ bytes') (a, b)
unfolding read_both
read-both {A = A} {B = B} first second bytes bytes' a b ha hb rest =
    let next : A → Reader (A × B) = λ a. then_read second (λ b i. some ((a, b), i)) in
    ap (then_read first next) (append_assoc bytes bytes' rest)
    ∙ then_step first next bytes (bytes' ++ rest) a ha
    ∙ then_step second (λ b i. some ((a, b), i)) bytes' rest b hb

-- A list of numbers that are read as they are.
read-numbers {ℓ} :
    {A : Type ℓ} {P : A → Type 0} (read : Reader A) (bytes : A → List ℕ) (list : List A)
    → length list < 2 ^ 31
    → ((x : A) → P x → Reads read (bytes x) x)
    → All P list
    → Reads (read_list read) (list_bytes bytes list) (list, length list)
read-numbers read bytes list short h all rest =
    let reads =
      read-list read bytes (λ x. x) list short (All-Reads read bytes (λ x. x) h list all) rest in
    rw (map_same list) at reads

-- Two ints.
two-Sends :
    (n1 n2 : ℤ)
    → IsInt32 n1
    → IsInt32 n2
    → Sends (also (cqi_send_int n1) (cqi_send_int n2)) (int_bytes n1 ++ int_bytes n2)
two-Sends n1 n2 h1 h2 = Sends-also (Sends-int n1 h1) (Sends-int n2 h2)

two-Reads :
    (n1 n2 : ℤ)
    → IsInt32 n1
    → IsInt32 n2
    → Reads (read_both cqi_read_int cqi_read_int) (int_bytes n1 ++ int_bytes n2) (n1, n2)
two-Reads n1 n2 h1 h2 =
    read-both cqi_read_int cqi_read_int (int_bytes n1) (int_bytes n2) n1 n2 (read-int n1 h1)
      (read-int n2 h2)

four-Reads :
    (n1 n2 n3 n4 : ℤ)
    → IsInt32 n1
    → IsInt32 n2
    → IsInt32 n3
    → IsInt32 n4
    → Reads read_four
        (int_bytes n1 ++ (int_bytes n2 ++ (int_bytes n3 ++ int_bytes n4)))
        (n1, n2, n3, n4)
unfolding read_four
four-Reads n1 n2 n3 n4 h1 h2 h3 h4 rest =
    let two = read_both cqi_read_int cqi_read_int in
    let last : ℤ × ℤ → Reader (ℤ × ℤ × ℤ × ℤ) = λ b i. some ((n1, n2, b.0, b.1), i) in
    let next : ℤ × ℤ → Reader (ℤ × ℤ × ℤ × ℤ) =
      λ a. then_read two (λ b i. some ((a.0, a.1, b.0, b.1), i)) in
    then_step two next (int_bytes n1 ++ int_bytes n2) ((int_bytes n3 ++ int_bytes n4) ++ rest)
      (n1, n2) (two-Reads n1 n2 h1 h2)
    ∙ then_step two last (int_bytes n3 ++ int_bytes n4) rest (n3, n4) (two-Reads n3 n4 h3 h4)

-- The bytes of a value.
unfoldable pub value_bytes : (tag : DataTag) → Value tag → List ℕ
value_bytes data_byte b = byte_bytes b
value_bytes data_bool b = byte_bytes b
value_bytes data_int n = int_bytes n
value_bytes data_string str = string_bytes str
value_bytes data_byte_list list = list_bytes byte_bytes list
value_bytes data_bool_list list = list_bytes byte_bytes list
value_bytes data_int_list list = list_bytes int_bytes list
value_bytes data_string_list list = list_bytes string_bytes list
value_bytes data_int_int (n1, n2) = int_bytes n1 ++ int_bytes n2
value_bytes data_int_int_int_int (n1, n2, n3, n4) =
    int_bytes n1 ++ (int_bytes n2 ++ (int_bytes n3 ++ int_bytes n4))

-- How a value is sent behind its tag and read.
record Carries (tag : DataTag) (v : Value tag) : Type 0 where
  sender : Sender
  tagged_with : cqi_data tag v ≡ tagged tag sender
  sends : Sends sender (value_bytes tag v)
  reads : Reads (read_value tag) (value_bytes tag v) (received tag v)

sender-Carries : (tag : DataTag) (v : Value tag) → IsValue tag v → Carries tag v
unfolding cqi_data read_value value_bytes cqi_send_byte_list cqi_send_int_list cqi_send_string_list
sender-Carries data_byte b h = record {
  sender = cqi_send_byte (pos b);
  tagged_with = refl;
  sends = Sends-byte (pos b);
  reads = read-byte b h;
}
sender-Carries data_bool b h = record {
  sender = cqi_send_byte (pos b);
  tagged_with = refl;
  sends = Sends-byte (pos b);
  reads = read-byte b h;
}
sender-Carries data_int n h = record {
  sender = cqi_send_int n;
  tagged_with = refl;
  sends = Sends-int n h;
  reads = read-int n h;
}
sender-Carries data_string str h = record {
  sender = cqi_send_string str;
  tagged_with = refl;
  sends = Sends-string str h;
  reads = read-text str h;
}
sender-Carries data_byte_list list (short, all) = record {
  sender = cqi_send_byte_list list;
  tagged_with = refl;
  sends =
      Sends-list (λ b. cqi_send_byte (pos b)) byte_bytes list short (λ b h. Sends-byte (pos b)) all;
  reads = read-numbers cqi_read_byte byte_bytes list short read-byte all;
}
sender-Carries data_bool_list list (short, all) = record {
  sender = cqi_send_byte_list list;
  tagged_with = refl;
  sends =
      Sends-list (λ b. cqi_send_byte (pos b)) byte_bytes list short (λ b h. Sends-byte (pos b)) all;
  reads = read-numbers cqi_read_byte byte_bytes list short read-byte all;
}
sender-Carries data_int_list list (short, all) = record {
  sender = cqi_send_int_list list;
  tagged_with = refl;
  sends = Sends-list cqi_send_int int_bytes list short Sends-int all;
  reads = read-numbers cqi_read_int int_bytes list short read-int all;
}
sender-Carries data_string_list list (short, all) = record {
  sender = cqi_send_string_list list;
  tagged_with = refl;
  sends = Sends-list cqi_send_string string_bytes list short Sends-string all;
  reads =
      read-list cqi_read_string string_bytes text list short
        (All-Reads cqi_read_string string_bytes text read-text list all);
}
sender-Carries data_int_int (n1, n2) (h1, h2) = record {
  sender = also (cqi_send_int n1) (cqi_send_int n2);
  tagged_with = refl;
  sends = two-Sends n1 n2 h1 h2;
  reads = two-Reads n1 n2 h1 h2;
}
sender-Carries data_int_int_int_int (n1, n2, n3, n4) (h1, h2, h3, h4) = record {
  sender =
      also (cqi_send_int n1) (also (cqi_send_int n2) (also (cqi_send_int n3) (cqi_send_int n4)));
  tagged_with = refl;
  sends = Sends-also (Sends-int n1 h1) (Sends-also (Sends-int n2 h2) (two-Sends n3 n4 h3 h4));
  reads = four-Reads n1 n2 n3 n4 h1 h2 h3 h4;
}

tag_found : (tag : DataTag) → find_tag (tag_code tag) tags ≡ some tag
unfolding find_tag
tag_found data_byte = refl
tag_found data_bool = refl
tag_found data_int = refl
tag_found data_string = refl
tag_found data_byte_list = refl
tag_found data_bool_list = refl
tag_found data_int_list = refl
tag_found data_string_list = refl
tag_found data_int_int = refl
tag_found data_int_int_int_int = refl

code-lt : (tag : DataTag) → tag_code tag < 2 ^ 16
code-lt data_byte = omega arith
code-lt data_bool = omega arith
code-lt data_int = omega arith
code-lt data_string = omega arith
code-lt data_byte_list = omega arith
code-lt data_bool_list = omega arith
code-lt data_int_list = omega arith
code-lt data_string_list = omega arith
code-lt data_int_int = omega arith
code-lt data_int_int_int_int = omega arith

abbrev pub message_bytes : (tag : DataTag) → Value tag → List ℕ
message_bytes tag v = word_bytes (tag_code tag) ++ value_bytes tag v

read-message :
    (tag : DataTag) (v : Value tag)
    → IsValue tag v
    → Reads read_message (message_bytes tag v) (tag, received tag v)
unfolding read_message read_tagged
read-message tag v h rest =
    let c = sender-Carries tag v h in
    let code = tag_code tag in
    let next : ℕ → Reader Message = λ n. read_tagged (find_tag n tags) in
    let last : Received tag → Reader Message = λ w i. some ((tag, w), i) in
    ap (then_read cqi_read_word next) (append_assoc (word_bytes code) (value_bytes tag v) rest)
    ∙ then_step cqi_read_word next (word_bytes code) (value_bytes tag v ++ rest) code
        (read-word code (code-lt tag))
    ∙ ap (λ o. read_tagged o (value_bytes tag v ++ rest)) (tag_found tag)
    ∙ then_step (read_value tag) last (value_bytes tag v) rest (received tag v) c.reads

-- For every tag and value of its type (bytes, ints, texts shorter than 2^16 bytes, lists shorter than 2^31): if
-- the connection takes the bytes of the message and can be flushed, the server's function for the tag sends
-- exactly them; and whatever follows, they are read as the tag and a value of the type of the tag, the one sent,
-- with "" for NULL and the length beside a list.
pub cqi_data-Reads :
    (tag : DataTag) (v : Value tag) (s : Sink)
    → IsValue tag v
    → length (message_bytes tag v) ≤ s.room
    → s.flushes ≡ true
    → (cqi_data tag v s ≡ some (after s (message_bytes tag v)))
      × Reads read_message (message_bytes tag v) (tag, received tag v)
cqi_data-Reads tag v s h fits flushes =
    let c = sender-Carries tag v h in
    let size = length-append (word_bytes (tag_code tag)) (value_bytes tag v) in
    (
      ap (λ f. f s) c.tagged_with
          ∙ (tagged_lem tag c.sender (value_bytes tag v) s c.sends).0 (omega (arith, fits, size))
              flushes,
      read-message tag v h,
    )
