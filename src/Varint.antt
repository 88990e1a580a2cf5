-- ===== src/Varint.antt =====
-- formats/varint/varint.go and formats/varint/helpers.go: variable-length integers.
-- A byte slice is a list of numbers, a uint64 a number with its bound stated where it matters.
pub mod Encoding
pub mod RoundTrip
pub mod Blocks
mod Tests
use Prim.Native.Nat.{bit_and, bit_or}
use portbase.Prelude.{
  ℕ, zero, suc, ◌+◌, ◌-◌, ◌*◌, ◌/◌, ◌%◌, ◌^◌, List, [], ◌∷◌, ◌++◌, ◌&&◌, ltb, leb, ◌==◌,
  if◌then◌else◌, Result, ok, err, panic, ◌>>=◌, length, take, drop,
}
use portbase.Prelude.Int.{ℤ, pos, negsuc, ltb_ℤ, int64, add64}

-- Each error value of the package, one constructor for each message.
pub data Error : Type 0 where
  buf_too_small over_uint8 over_uint16 over_uint32 over_uint64 block_too_short : Error

-- Go's binary.PutUvarint into a buffer that has room for so many bytes: the bytes written.
-- A write past the end of the buffer panics.
pub put_uvarint : ℕ → ℕ → Result Error (List ℕ)
put_uvarint zero x = panic
put_uvarint (suc room) x =
    let rest = put_uvarint room (x / 128) in
    let group = bit_or (x % 256) 0x80 in
    if ltb x 0x80 then ok (x ∷ []) else rest >>= λ tail. ok (group ∷ tail)

-- The pair of a value and a count that binary.Uvarint returns: a positive count is the number of
-- bytes read, 0 says that the buffer ends too early, and a negative one that the value overflows.
pub data Read : Type 0 where
  value : ℕ → ℕ → Read
  too_small overflow : Read

-- Go's binary.Uvarint behind `i` bytes, with `unit` for `1 << s` and `acc` for the bits so far.
-- The shifted group shares no bit with `acc`, so `|` is a sum.
pub uvarint_loop : List ℕ → ℕ → ℕ → ℕ → Read
uvarint_loop [] i unit acc = too_small
uvarint_loop (b ∷ bs) i unit acc =
    let more = uvarint_loop bs (i + 1) (unit * 128) ((acc + bit_and b 0x7f * unit) % 2 ^ 64) in
    if i == 10
    then overflow
    else if ltb b 0x80
    then (if i == 9 && ltb 1 b then overflow else value ((acc + b * unit) % 2 ^ 64) (i + 1))
    else more

pub uvarint : List ℕ → Read
unfolding uvarint_loop
uvarint buf = uvarint_loop buf 0 1 0

unfoldable pub pack8 : ℕ → List ℕ
pack8 n = if ltb n 128 then n ∷ [] else n ∷ 0x01 ∷ []

pub pack16 : ℕ → Result Error (List ℕ)
unfolding put_uvarint
pack16 n = put_uvarint 3 n

pub pack32 : ℕ → Result Error (List ℕ)
unfolding put_uvarint
pack32 n = put_uvarint 5 n

unfoldable pub pack64 : ℕ → Result Error (List ℕ)
unfolding put_uvarint
pack64 n = put_uvarint 10 n

-- The value and the number of bytes used.
unfoldable pub unpack8 : List ℕ → Result Error (ℕ × ℕ)
unpack8 [] = err buf_too_small
unpack8 (b ∷ []) = if ltb b 128 then ok (b, 1) else err buf_too_small
unpack8 (b ∷ c ∷ rest) =
    if ltb b 128 then ok (b, 1) else if c == 0x01 then ok (b, 1) else err over_uint8

-- What the callers of binary.Uvarint do with its answer, for a type whose greatest value is `top`.
bounded : ℕ → Error → Read → Result Error (ℕ × ℕ)
bounded top e (value n r) = if ltb top n then err e else ok (n, r)
bounded top e too_small = err buf_too_small
bounded top e overflow = err over_uint64

unfoldable pub unpack16 : List ℕ → Result Error (ℕ × ℕ)
unfolding uvarint bounded
unpack16 blob = bounded 65535 over_uint16 (uvarint blob)

unfoldable pub unpack32 : List ℕ → Result Error (ℕ × ℕ)
unfolding uvarint bounded
unpack32 blob = bounded 4294967295 over_uint32 (uvarint blob)

any_value : Read → Result Error (ℕ × ℕ)
any_value (value n r) = ok (n, r)
any_value too_small = err buf_too_small
any_value overflow = err over_uint64

unfoldable pub unpack64 : List ℕ → Result Error (ℕ × ℕ)
unfolding uvarint any_value
unpack64 blob = any_value (uvarint blob)

unfoldable pub prepend_length : List ℕ → Result Error (List ℕ)
prepend_length bytes = do size ← pack64 (length bytes % 2 ^ 64); ok (size ++ bytes)

-- bytes[low:high] for a signed upper end.
pub slice : List ℕ → ℕ → ℤ → Result Error (List ℕ)
slice bytes low (negsuc _) = panic
slice bytes low (pos high) =
    if leb low high && leb high (length bytes)
    then ok (take (high - low) (drop low bytes))
    else panic

-- The end of GetNextBlock, from the comparison with the data's length on.
pub cut_block : List ℕ → ℕ → ℤ → Result Error (List ℕ × ℤ)
cut_block bytes n total =
    if ltb_ℤ (pos (length bytes)) total
    then err block_too_short
    else (slice bytes n total >>= λ block. ok (block, total))

-- `int(l)` and the sum are signed and wrap around.
unfoldable pub get_next_block : List ℕ → Result Error (List ℕ × ℤ)
get_next_block bytes = do (l, n) ← unpack64 bytes; cut_block bytes n (add64 (int64 l) (pos n))

unfoldable pub encoded_size : ℕ → ℕ
encoded_size n =
    if ltb n (2 ^ 7)
    then 1
    else if ltb n (2 ^ 14)
    then 2
    else if ltb n (2 ^ 21)
    then 3
    else if ltb n (2 ^ 28)
    then 4
    else if ltb n (2 ^ 35)
    then 5
    else if ltb n (2 ^ 42)
    then 6
    else if ltb n (2 ^ 49)
    then 7
    else if ltb n (2 ^ 56)
    then 8
    else if ltb n (2 ^ 63)
    then 9
    else 10
