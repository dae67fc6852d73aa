-- ===== src/BitIo/Word.antt =====
-- cl/bitio.c: `BFreadWord`, on a host that stores the low byte of a word first.
use cwb.Base.{
  ℕ, zero, suc, ◌+◌, ◌-◌, ◌*◌, ◌/◌, ◌%◌, ◌^◌, List, [], ◌∷◌, if◌then◌else◌, ltb, ◌==◌, get_or, set,
}
use cwb.BitIo.File.{BFile, bf_read}

-- The word whose bytes in memory, read in network order by `ntohl`, are these.
abbrev pub network_word : List ℕ → ℕ
network_word bytes =
    get_or bytes 0 0 * 2 ^ 24
    + get_or bytes 1 0 * 2 ^ 16
    + get_or bytes 2 0 * 2 ^ 8
    + get_or bytes 3 0

-- `for (i = 4 - bytes; i < 4; i++)`, with the rounds left, on the four bytes of the caller's word.
unfoldable pub bf_read_bytes : ℕ → List ℕ → BFile → BFile × List ℕ × ℕ
bf_read_bytes zero cdata s = (s, cdata, 1)
bf_read_bytes (suc left) cdata s =
    let (r, b, ok) = bf_read 8 s in
    let filled = set cdata (3 - left) b in
    let more = bf_read_bytes left filled r in if ok == 0 then (r, filled, 0) else more

-- The word with these bytes in memory, and the bytes of a word.
abbrev pub host_word : List ℕ → ℕ
host_word bytes =
    get_or bytes 0 0
    + get_or bytes 1 0 * 2 ^ 8
    + get_or bytes 2 0 * 2 ^ 16
    + get_or bytes 3 0 * 2 ^ 24

abbrev pub host_bytes : ℕ → List ℕ
host_bytes word = word % 256 ∷ word / 2 ^ 8 % 256 ∷ word / 2 ^ 16 % 256 ∷ word / 2 ^ 24 % 256 ∷ []

-- From the caller's word, to the word that it is afterwards; a failure leaves the bytes as they are.
unfoldable pub bf_read_word : ℕ → ℕ → BFile → BFile × ℕ × ℕ
unfolding bf_read_bytes
bf_read_word data_word nbits s =
    let bytes = nbits / 8 in
    let rest = nbits % 8 in
    let cdata = host_bytes data_word in
    let (r, b, ok) = bf_read rest s in
    let filled = set cdata (3 - bytes) b in
    let (t, all, done) =
      if rest == 0 then bf_read_bytes bytes cdata s else bf_read_bytes bytes filled r in
    let finished : BFile × ℕ × ℕ =
      if done == 0 then (t, host_word all, 0) else (t, network_word all, 1) in
    if ltb 32 nbits
    then (s, data_word, 0)
    else (if rest == 0 then finished else (if ok == 0 then (r, host_word filled, 0) else finished))
