-- ===== src/Cqi/Typed.antt =====
-- Messages with their tags: the type of the values of a tag, the function that sends them, and the reader.
-- A client's reader is put together from the readers of the server.

use cwb.Base.{ℕ, ◌^◌, ◌<◌, Option, none, some, List, [], ◌∷◌, if◌then◌else◌, ◌==◌, map, length}
use cwb.Base.Int.{ℤ, pos, IsInt32}
use cwb.Cqi.Send.{
  Sink, DataTag, data_byte, data_bool, data_int, data_string, data_byte_list, data_bool_list,
  data_int_list, data_string_list, data_int_int, data_int_int_int_int, tag_code, cqi_data_byte,
  cqi_data_bool, cqi_data_int, cqi_data_string, cqi_data_byte_list, cqi_data_bool_list,
  cqi_data_int_list, cqi_data_string_list, cqi_data_int_int, cqi_data_int_int_int_int,
}
use cwb.Cqi.Receive.{
  Reader, then_read, cqi_read_byte, cqi_read_bool, cqi_read_word, cqi_read_int, cqi_read_string,
  cqi_read_byte_list, cqi_read_bool_list, cqi_read_int_list, cqi_read_string_list,
}
use cwb.Cqi.Encoding.{All}
use cwb.Cqi.Values.{AllBytes, IsText}
use cwb.Cqi.RoundTrip.{text}

-- The values of a tag, as they are sent and as they are read.
abbrev pub Value : DataTag → Type 0
Value data_byte = ℕ
Value data_bool = ℕ
Value data_int = ℤ
Value data_string = Option (List ℕ)
Value data_byte_list = List ℕ
Value data_bool_list = List ℕ
Value data_int_list = List ℤ
Value data_string_list = List (Option (List ℕ))
Value data_int_int = ℤ × ℤ
Value data_int_int_int_int = ℤ × ℤ × ℤ × ℤ

abbrev pub Received : DataTag → Type 0
Received data_string = List ℕ
Received data_byte_list = List ℕ × ℕ
Received data_bool_list = List ℕ × ℕ
Received data_int_list = List ℤ × ℕ
Received data_string_list = List (List ℕ) × ℕ
Received tag = Value tag

-- Bytes, ints, texts shorter than 2^16 bytes and lists shorter than 2^31.
abbrev pub IsValue : (tag : DataTag) → Value tag → Type 0
IsValue data_byte b = b < 256
IsValue data_bool b = b < 256
IsValue data_int n = IsInt32 n
IsValue data_string str = IsText str
IsValue data_byte_list list = (length list < 2 ^ 31) × AllBytes list
IsValue data_bool_list list = (length list < 2 ^ 31) × AllBytes list
IsValue data_int_list list = (length list < 2 ^ 31) × All IsInt32 list
IsValue data_string_list list = (length list < 2 ^ 31) × All IsText list
IsValue data_int_int (n1, n2) = IsInt32 n1 × IsInt32 n2
IsValue data_int_int_int_int (n1, n2, n3, n4) = IsInt32 n1 × IsInt32 n2 × IsInt32 n3 × IsInt32 n4

abbrev pub received : (tag : DataTag) → Value tag → Received tag
received data_byte b = b
received data_bool b = b
received data_int n = n
received data_string str = text str
received data_byte_list list = (list, length list)
received data_bool_list list = (list, length list)
received data_int_list list = (list, length list)
received data_string_list list = (map text list, length list)
received data_int_int v = v
received data_int_int_int_int v = v

unfoldable pub cqi_data : (tag : DataTag) → Value tag → Sink → Option Sink
cqi_data data_byte b = cqi_data_byte (pos b)
cqi_data data_bool b = cqi_data_bool (pos b)
cqi_data data_int n = cqi_data_int n
cqi_data data_string str = cqi_data_string str
cqi_data data_byte_list list = cqi_data_byte_list list
cqi_data data_bool_list list = cqi_data_bool_list list
cqi_data data_int_list list = cqi_data_int_list list
cqi_data data_string_list list = cqi_data_string_list list
cqi_data data_int_int (n1, n2) = cqi_data_int_int n1 n2
cqi_data data_int_int_int_int (n1, n2, n3, n4) = cqi_data_int_int_int_int n1 n2 n3 n4

-- Two values, one after the other.
unfoldable pub read_both {ℓ κ} : {A : Type ℓ} {B : Type κ} → Reader A → Reader B → Reader (A × B)
read_both first second = then_read first (λ a. then_read second (λ b i. some ((a, b), i)))

unfoldable pub read_four : Reader (ℤ × ℤ × ℤ × ℤ)
unfolding read_both
read_four =
    then_read (read_both cqi_read_int cqi_read_int)
      (λ a. then_read (read_both cqi_read_int cqi_read_int) (λ b i. some ((a.0, a.1, b.0, b.1), i)))

unfoldable pub read_value : (tag : DataTag) → Reader (Received tag)
unfolding read_both read_four
read_value data_byte = cqi_read_byte
read_value data_bool = cqi_read_bool
read_value data_int = cqi_read_int
read_value data_string = cqi_read_string
read_value data_byte_list = cqi_read_byte_list
read_value data_bool_list = cqi_read_bool_list
read_value data_int_list = cqi_read_int_list
read_value data_string_list = cqi_read_string_list
read_value data_int_int = read_both cqi_read_int cqi_read_int
read_value data_int_int_int_int = read_four

-- A message: the word of a tag, and a value of its type.
abbrev pub tags : List DataTag
tags =
    data_byte ∷ data_bool ∷ data_int ∷ data_string ∷ data_byte_list ∷ data_bool_list ∷ data_int_list
    ∷ data_string_list ∷ data_int_int ∷ data_int_int_int_int ∷ []

unfoldable pub find_tag : ℕ → List DataTag → Option DataTag
find_tag code [] = none
find_tag code (tag ∷ rest) =
    let later = find_tag code rest in if code == tag_code tag then some tag else later

abbrev pub Message : Type 0
Message = (tag : DataTag) × Received tag

unfoldable pub read_tagged : Option DataTag → Reader Message
unfolding read_value
read_tagged none i = none
read_tagged (some tag) i = then_read (read_value tag) (λ v i'. some ((tag, v), i')) i

unfoldable pub read_message : Reader Message
unfolding find_tag read_tagged
read_message = then_read cqi_read_word (λ code. read_tagged (find_tag code tags))
