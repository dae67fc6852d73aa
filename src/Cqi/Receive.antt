-- ===== src/Cqi/Receive.antt =====
-- CQi/server.c: what the server reads. The connection is the bytes that are still to come; `recv`
-- fails at its end. `none` is an exit by `cqi_recv_error`; otherwise the value and the rest.

use cwb.Base.{
  ℕ, zero, suc, ◌*◌, ◌%◌, ◌^◌, bit_or, Option, none, some, List, [], ◌∷◌, if◌then◌else◌, ◌==◌, leb,
  length, take, drop,
}
use cwb.Base.Int.{ℤ, pos, negsuc, signed32}

abbrev pub Reader {ℓ} : Type ℓ → Type ℓ
Reader A = List ℕ → Option (A × List ℕ)

-- A read, and another that uses its value.
unfoldable pub then_read {ℓ κ} : {A : Type ℓ} {B : Type κ} → Reader A → (A → Reader B) → Reader B
then_read read next input = elim (read input) [ none ↦ none | some r ↦ next r.0 r.1 ]

abbrev pub returning {ℓ} : {A : Type ℓ} → A → Reader A
returning a input = some (a, input)

-- `cqi_recv_byte` and the test for EOF.
unfoldable pub cqi_read_byte : Reader ℕ
cqi_read_byte [] = none
cqi_read_byte (b ∷ input) = some (b, input)

abbrev pub cqi_read_bool : Reader ℕ
cqi_read_bool = cqi_read_byte

-- `recv` of this many bytes, all or none.
unfoldable pub cqi_recv_bytes : ℕ → Reader (List ℕ)
cqi_recv_bytes bytes input =
    if leb bytes (length input) then some (take bytes input, drop bytes input) else none

-- `(n << 8) | b` on a 32-bit int.
abbrev pub join_byte : ℕ → ℕ → ℕ
join_byte n b = bit_or (n * 2 ^ 8 % 2 ^ 32) b

unfoldable pub cqi_read_word : Reader ℕ
unfolding then_read
cqi_read_word = then_read cqi_read_byte λ n. then_read cqi_read_byte λ b. returning (join_byte n b)

-- With 32-bit ints `minus_bits` is 0.
unfoldable pub cqi_read_int : Reader ℤ
unfolding then_read
cqi_read_int = then_read cqi_read_byte λ a. then_read cqi_read_byte λ b.
    then_read cqi_read_byte λ c.
      then_read cqi_read_byte λ d. returning (signed32 (join_byte (join_byte (join_byte a b) c) d))

unfoldable pub cqi_read_string : Reader (List ℕ)
unfolding then_read
cqi_read_string = then_read cqi_read_word λ len. cqi_recv_bytes len

-- `while (command == CQI_PAD) command = cqi_read_byte();`, then the second byte.
unfoldable pub cqi_read_command : Reader ℕ
unfolding then_read
cqi_read_command [] = none
cqi_read_command (command ∷ input) =
    let padded = cqi_read_command input in
    let found = then_read cqi_read_byte (λ b. returning (join_byte command b)) input in
    if command == 0 then padded else found

-- `for (i = 0; i < len; i++) (*list)[i] = read();`
unfoldable pub read_each {ℓ} : {A : Type ℓ} → Reader A → ℕ → Reader (List A)
unfolding then_read
read_each read zero = returning []
read_each read (suc len) =
    then_read read λ x. then_read (read_each read len) λ list. returning (x ∷ list)

-- A length that is not positive gives NULL and 0. Otherwise the list and its length.
unfoldable pub read_elements {ℓ} : {A : Type ℓ} → Reader A → ℤ → Reader (List A × ℕ)
unfolding then_read read_each
read_elements read (negsuc n) = returning ([], 0)
read_elements read (pos n) = then_read (read_each read n) λ list. returning (list, n)

unfoldable pub read_list {ℓ} : {A : Type ℓ} → Reader A → Reader (List A × ℕ)
unfolding then_read read_elements
read_list read = then_read cqi_read_int (read_elements read)

abbrev pub cqi_read_byte_list : Reader (List ℕ × ℕ)
cqi_read_byte_list = read_list cqi_read_byte

abbrev pub cqi_read_bool_list : Reader (List ℕ × ℕ)
cqi_read_bool_list = read_list cqi_read_byte

abbrev pub cqi_read_int_list : Reader (List ℤ × ℕ)
cqi_read_int_list = read_list cqi_read_int

abbrev pub cqi_read_string_list : Reader (List (List ℕ) × ℕ)
cqi_read_string_list = read_list cqi_read_string
