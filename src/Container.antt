-- ===== src/Container.antt =====
-- container/container.go: a queue of byte slices. `compartments[offset:]` is what it holds.
-- A method returns the new state; a read or slice out of range is a `panic`.
pub mod Valid
pub mod Whole
pub mod Read
pub mod Drain
pub mod Blocks
pub mod Parts
pub mod Faults
mod Tests
use portbase.Prelude.{
  ℕ, zero, suc, ◌+◌, ◌-◌, ◌/◌, ◌%◌, ◌^◌, List, [], ◌∷◌, ◌++◌, Bool, true, false, Option, none, some,
  ltb, leb, ◌==◌, if◌then◌else◌, Result, ok, err, panic, ◌>>=◌, map_err, or_panic, length, take,
  drop, replicate, set, get_elem?,
}
use portbase.Prelude.Int.{ℤ, pos, negsuc, int64, bits64}
use portbase.Varint
use portbase.Varint.{pack64, unpack8, unpack16, unpack32, unpack64}

pub data Error : Type 0 where
  not_enough_data : Error
  varint_error : Varint.Error → Error

-- The field `err` of the struct is only ever copied.
pub record Container : Type 0 where
  pub compartments : List (List ℕ)
  pub offset : ℕ
  pub fault : Option Error

abbrev pub M : Type 0 → Type 0
M A = Result Error A

unfoldable pub new : List (List ℕ) → Container
new slices = record { compartments = slices; offset = 0; fault = none }

-- Slicing `compartments[offset:]` panics past the end.
pub renew_compartments : Container → M Container
renew_compartments c =
    if leb c.offset (length c.compartments)
    then ok (record c { compartments = replicate 5 [] ++ drop c.offset c.compartments; offset = 4 })
    else panic

-- c.offset--; c.compartments[c.offset] = data
set_front : List ℕ → Container → M Container
set_front bytes c =
    let front = c.offset - 1 in
    if ltb front (length c.compartments)
    then ok (record c { compartments = set c.compartments front bytes; offset = front })
    else panic

pub prepend : List ℕ → Container → M Container
prepend bytes c = do
  renewed ← if ltb c.offset 1 then renew_compartments c else ok c
  set_front bytes renewed

pub append : List ℕ → Container → Container
append bytes c = record c { compartments = c.compartments ++ bytes ∷ [] }

pack : ℕ → M (List ℕ)
pack n = map_err varint_error (pack64 n)

pub prepend_number : ℕ → Container → M Container
prepend_number n c = do bytes ← pack n; prepend bytes c

pub append_number : ℕ → Container → M Container
append_number n c = do bytes ← pack n; ok (append bytes c)

-- `uint64(n)` of an int is its bit pattern.
pub prepend_int : ℤ → Container → M Container
prepend_int n c = do bytes ← pack (bits64 n); prepend bytes c

pub append_int : ℤ → Container → M Container
append_int n c = do bytes ← pack (bits64 n); ok (append bytes c)

pub append_as_block : List ℕ → Container → M Container
append_as_block bytes c = do sized ← append_number (length bytes) c; ok (append bytes sized)

pub prepend_as_block : List ℕ → Container → M Container
prepend_as_block bytes c = do held ← prepend bytes c; prepend_number (length bytes) held

pub append_container : Container → Container → Container
append_container other c = record c { compartments = c.compartments ++ other.compartments }

-- The loops over the compartments from the offset on.
holds_data_loop : List (List ℕ) → Bool
holds_data_loop [] = false
holds_data_loop (x ∷ xs) = if ltb 0 (length x) then true else holds_data_loop xs

pub holds_data : Container → Bool
holds_data c = holds_data_loop (drop c.offset c.compartments)

length_loop : List (List ℕ) → ℕ
length_loop [] = 0
length_loop (x ∷ xs) = length x + length_loop xs

pub total_length : Container → ℕ
total_length c = length_loop (drop c.offset c.compartments)

pub append_container_as_block : Container → Container → M Container
append_container_as_block other c = do
  sized ← append_number (total_length other) c
  ok (append_container other sized)

pub prepend_length : Container → M Container
prepend_length c = do bytes ← pack (total_length c); prepend bytes c

pub replace : List ℕ → Container → Container
replace bytes c = record c { compartments = bytes ∷ [] }

-- The new buffer has the total length, so the copies fill it one behind the other.
compile_loop : List (List ℕ) → List ℕ
compile_loop [] = []
compile_loop (x ∷ xs) = x ++ compile_loop xs

pub compact : Container → Container
compact c =
    if length c.compartments == 1
    then c
    else record c { compartments = compile_loop (drop c.offset c.compartments) ∷ []; offset = 0 }

pub compile_data : Container → M (List ℕ × Container)
compile_data c = do first ← or_panic (get_elem? (compact c).compartments 0); ok (first, compact c)

pub check_offset : Container → Container
check_offset c =
    if leb (length c.compartments) c.offset
    then record c { offset = length c.compartments / 2 }
    else c

-- Gathers bytes into a slice with so much room left.
peek_loop : ℕ → List (List ℕ) → List ℕ
peek_loop room [] = []
peek_loop room (x ∷ xs) =
    let rest = peek_loop (room - length x) xs in
    if leb room (length x) then take room x else x ++ rest

pub peek : ℤ → Container → M (List ℕ)
peek (negsuc _) c = ok []
peek (pos zero) c = ok []
peek (pos (suc n)) c = do
  first ← or_panic (get_elem? c.compartments c.offset)
  if leb (suc n) (length first)
      then ok (take (suc n) first)
      else ok (peek_loop (suc n) (drop c.offset c.compartments))

-- The compartments from index `i` on after `n` bytes are skipped, and the new offset.
skip_loop : ℕ → ℕ → List (List ℕ) → List (List ℕ) × ℕ
skip_loop n i [] = ([], i)
skip_loop n i (x ∷ xs) =
    let rest = skip_loop (n - length x) (i + 1) xs in
    if leb (length x) n
    then (if n - length x == 0 then ([] ∷ xs, i + 1) else ([] ∷ rest.0, rest.1))
    else (drop n x ∷ xs, i)

pub skip : ℕ → Container → Container
skip n c =
    let loop = skip_loop n c.offset (drop c.offset c.compartments) in
    check_offset
      (record c { compartments = take c.offset c.compartments ++ loop.0; offset = loop.1 })

-- `len(buf) < n` for a signed n.
too_few : List ℕ → ℤ → Bool
too_few buf (pos n) = ltb (length buf) n
too_few buf (negsuc n) = false

pub get : ℤ → Container → M (List ℕ × Container)
get n c = do
  buf ← peek n c
  if too_few buf n then err not_enough_data else ok (buf, skip (length buf) c)

pub get_all : Container → M (List ℕ × Container)
get_all c = do buf ← peek (pos (total_length c)) c; ok (buf, skip (length buf) c)

pub get_max : ℤ → Container → M (List ℕ × Container)
get_max n c = do buf ← peek n c; ok (buf, skip (length buf) c)

-- The compartments of the new container, and what is still missing.
peek_container_loop : ℕ → List (List ℕ) → List (List ℕ) × ℕ
peek_container_loop n [] = ([], n)
peek_container_loop n (x ∷ xs) =
    let rest = peek_container_loop (n - length x) xs in
    let (taken, missing) = rest in
    if leb (length x) n then (x ∷ taken, missing) else (take n x ∷ taken, missing)

-- `none` is the nil pointer.
pub peek_container : ℤ → Container → Option Container
peek_container (negsuc _) c = none
peek_container (pos zero) c = some (new [])
peek_container (pos (suc n)) c =
    let loop = peek_container_loop (suc n) (drop c.offset c.compartments) in
    if ltb 0 loop.1 then none else some (new loop.0)

skip_int : ℤ → Container → Container
skip_int (pos n) c = skip n c
skip_int (negsuc _) c = c

pub get_as_container : ℤ → Container → M (Container × Container)
get_as_container n c = elim (peek_container n c) [
  | none ↦ err not_enough_data
  | some part ↦ ok (part, skip_int n c)
]

-- The bytes written to a slice of that length, whether the container is now empty, and the rest.
write_loop : ℕ → ℕ → List (List ℕ) → List ℕ × Bool × (List (List ℕ) × ℕ)
write_loop room i [] = ([], true, ([], i))
write_loop room i (x ∷ xs) =
    let rest = write_loop (room - length x) (i + 1) xs in
    if ltb room (length x)
    then (take room x, false, (drop room x ∷ xs, i))
    else (x ++ rest.0, rest.1, ([] ∷ rest.2.0, rest.2.1))

pub write_to_slice : ℕ → Container → List ℕ × Bool × Container
write_to_slice room c =
    let loop = write_loop room c.offset (drop c.offset c.compartments) in
    (
      loop.0,
      loop.1,
      check_offset
          (record c { compartments = take c.offset c.compartments ++ loop.2.0; offset = loop.2.1 }),
    )

next_number : (List ℕ → Result Varint.Error (ℕ × ℕ)) → ℕ → Container → M (ℕ × Container)
next_number unpack width c = do
  buf ← peek (pos width) c
  (num, n) ← map_err varint_error (unpack buf)
  ok (num, skip n c)

pub get_next_n8 : Container → M (ℕ × Container)
get_next_n8 = next_number unpack8 2

pub get_next_n16 : Container → M (ℕ × Container)
get_next_n16 = next_number unpack16 3

pub get_next_n32 : Container → M (ℕ × Container)
get_next_n32 = next_number unpack32 5

pub get_next_n64 : Container → M (ℕ × Container)
get_next_n64 = next_number unpack64 10

pub get_next_block : Container → M (List ℕ × Container)
get_next_block c = do (size, behind) ← get_next_n64 c; get (int64 size) behind

pub get_next_block_as_container : Container → M (Container × Container)
get_next_block_as_container c = do
  (size, behind) ← get_next_n64 c
  get_as_container (int64 size) behind
