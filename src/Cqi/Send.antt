-- ===== src/Cqi/Send.antt =====
-- CQi/server.c: what the server sends. The stream `conn_out` is the bytes sent, how many more bytes
-- `putc` takes before it returns EOF, and whether `fflush` succeeds. Results: the stream and the C
-- result. A function that exits by `cqi_send_error` gives `none`. The tracing output of `snoop` is
-- left out, and with it the argument `nosnoop`.
use cwb.Base.{
  ℕ, ◌-◌, ◌/◌, ◌%◌, ◌^◌, Bool, Option, none, some, List, [], ◌∷◌, ◌++◌, if◌then◌else◌, ◌==◌, length,
}
use cwb.Base.Int.{ℤ, pos, negsuc}

pub record Sink : Type 0 where
  pub sent : List ℕ
  pub room : ℕ
  pub flushes : Bool

abbrev pub Sender : Type 0
Sender = Sink → Sink × ℕ

-- `0xff & n` on a two's complement int, and `n >> k` as the compilers have it.
abbrev pub low_byte : ℤ → ℕ
low_byte (pos n) = n % 256
low_byte (negsuc n) = 255 - n % 256

abbrev pub shift_right : ℤ → ℕ → ℤ
shift_right (pos n) k = pos (n / 2 ^ k)
shift_right (negsuc n) k = negsuc (n / 2 ^ k)

unfoldable pub cqi_send_byte : ℤ → Sender
cqi_send_byte n s =
    if s.room == 0
    then (s, 0)
    else (record s { sent = s.sent ++ low_byte n ∷ []; room = s.room - 1 }, 1)

-- `if (!f || !g) return 0; else return 1;`
unfoldable pub also : Sender → Sender → Sender
also f g s =
    let r = f s in
    let t = g r.0 in if r.1 == 0 then (r.0, 0) else if t.1 == 0 then (t.0, 0) else (t.0, 1)

unfoldable pub cqi_send_word : ℤ → Sender
unfolding also
cqi_send_word n = also (cqi_send_byte (shift_right n 8)) (cqi_send_byte n)

unfoldable pub cqi_send_int : ℤ → Sender
unfolding also
cqi_send_int n = also (cqi_send_byte (shift_right n 24)) (
    also (cqi_send_byte (shift_right n 16))
      (also (cqi_send_byte (shift_right n 8)) (cqi_send_byte n)))

-- `while (--l >= 0) if (!send(*list++)) return 0; return 1;`
unfoldable pub send_each {ℓ} : {A : Type ℓ} → (A → Sender) → List A → Sender
send_each send [] s = (s, 1)
send_each send (x ∷ list) s =
    let r = send x s in let rest = send_each send list r.0 in if r.1 == 0 then (r.0, 0) else rest

-- A string is its bytes up to the null byte, or NULL.
unfoldable pub cqi_send_string : Option (List ℕ) → Sender
unfolding send_each
cqi_send_string none = cqi_send_word (pos 0)
cqi_send_string (some str) =
    also (cqi_send_word (pos (length str))) (send_each (λ c. cqi_send_byte (pos c)) str)

unfoldable pub cqi_send_byte_list : List ℕ → Sender
unfolding send_each
cqi_send_byte_list list =
    also (cqi_send_int (pos (length list))) (send_each (λ b. cqi_send_byte (pos b)) list)

unfoldable pub cqi_send_int_list : List ℤ → Sender
unfolding send_each
cqi_send_int_list list = also (cqi_send_int (pos (length list))) (send_each cqi_send_int list)

unfoldable pub cqi_send_string_list : List (Option (List ℕ)) → Sender
unfolding send_each
cqi_send_string_list list = also (cqi_send_int (pos (length list))) (send_each cqi_send_string list)

unfoldable pub cqi_flush : Sender
cqi_flush s = (s, if s.flushes then 1 else 0)

-- `if (!f || !cqi_flush()) cqi_send_error(...);`
unfoldable pub or_exit : Sender → Sink → Option Sink
unfolding also
or_exit f s = let r = also f cqi_flush s in if r.1 == 0 then none else some r.0

abbrev pub cqi_command : ℤ → Sink → Option Sink
cqi_command command = or_exit (cqi_send_word command)

-- `CQI_DATA_BYTE` and the other tags of values.
pub data DataTag : Type 0 where
  data_byte : DataTag
  data_bool : DataTag
  data_int : DataTag
  data_string : DataTag
  data_byte_list : DataTag
  data_bool_list : DataTag
  data_int_list : DataTag
  data_string_list : DataTag
  data_int_int : DataTag
  data_int_int_int_int : DataTag

abbrev pub tag_code : DataTag → ℕ
tag_code data_byte = 0x0301
tag_code data_bool = 0x0302
tag_code data_int = 0x0303
tag_code data_string = 0x0304
tag_code data_byte_list = 0x0305
tag_code data_bool_list = 0x0306
tag_code data_int_list = 0x0307
tag_code data_string_list = 0x0308
tag_code data_int_int = 0x0309
tag_code data_int_int_int_int = 0x030a

unfoldable pub tagged : DataTag → Sender → Sink → Option Sink
unfolding or_exit
tagged tag value = or_exit (also (cqi_send_word (pos (tag_code tag))) value)

abbrev pub cqi_data_byte : ℤ → Sink → Option Sink
cqi_data_byte n = tagged data_byte (cqi_send_byte n)

abbrev pub cqi_data_bool : ℤ → Sink → Option Sink
cqi_data_bool n = tagged data_bool (cqi_send_byte n)

abbrev pub cqi_data_int : ℤ → Sink → Option Sink
cqi_data_int n = tagged data_int (cqi_send_int n)

abbrev pub cqi_data_string : Option (List ℕ) → Sink → Option Sink
cqi_data_string str = tagged data_string (cqi_send_string str)

abbrev pub cqi_data_byte_list : List ℕ → Sink → Option Sink
cqi_data_byte_list list = tagged data_byte_list (cqi_send_byte_list list)

abbrev pub cqi_data_bool_list : List ℕ → Sink → Option Sink
cqi_data_bool_list list = tagged data_bool_list (cqi_send_byte_list list)

abbrev pub cqi_data_int_list : List ℤ → Sink → Option Sink
cqi_data_int_list list = tagged data_int_list (cqi_send_int_list list)

abbrev pub cqi_data_string_list : List (Option (List ℕ)) → Sink → Option Sink
cqi_data_string_list list = tagged data_string_list (cqi_send_string_list list)

abbrev pub cqi_data_int_int : ℤ → ℤ → Sink → Option Sink
cqi_data_int_int n1 n2 = tagged data_int_int (also (cqi_send_int n1) (cqi_send_int n2))

abbrev pub cqi_data_int_int_int_int : ℤ → ℤ → ℤ → ℤ → Sink → Option Sink
cqi_data_int_int_int_int n1 n2 n3 n4 =
    tagged data_int_int_int_int
      (also (cqi_send_int n1) (also (cqi_send_int n2) (also (cqi_send_int n3) (cqi_send_int n4))))
