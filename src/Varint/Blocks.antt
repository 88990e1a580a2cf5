-- ===== src/Varint/Blocks.antt =====
-- formats/varint/helpers.go: a block behind its length, and lengths that do not fit an int.
use portbase.Prelude.{
  ℕ, ◌+◌, ◌-◌, ◌%◌, ◌^◌, ◌≤◌, ◌<◌, ◌≡◌, ◌∙◌, List, [], ◌∷◌, ◌++◌, ok, panic, length, take, drop,
  arith, append_assoc, take_all, length-append, take-append_left,
}
use portbase.Prelude.Int.{pos, int64, add64}
use portbase.Varint.{pack64, unpack64, slice, cut_block, prepend_length, get_next_block}
use portbase.Varint.Encoding.{groups, pack64-groups, length-groups_bounds}
use portbase.Varint.RoundTrip.{unpack64-groups}

-- `int(l) + n` where the sum fits an int, and where `l` does not.
total_fits : (l n : ℕ) → l + n < 2 ^ 63 → add64 (int64 l) (pos n) ≡ pos (l + n)
unfolding add64
total_fits l n h = ground arith

take-drop_block :
    (head body rest : List ℕ) (n : ℕ)
    → n ≡ length body
    → take n (drop (length head) (head ++ (body ++ rest))) ≡ body
take-drop_block [] body rest n e =
    rw e (take-append_left (length body) body rest (omega arith) ∙ take_all _ body (omega arith))
take-drop_block (x ∷ head) body rest n e = take-drop_block head body rest n e

slice_block :
    (head body rest : List ℕ)
    → slice (head ++ (body ++ rest)) (length head) (pos (length body + length head)) ≡ ok body
unfolding slice
slice_block head body rest = ground (
  arith,
  length-append head (body ++ rest),
  length-append body rest,
  take-drop_block head body rest (length body + length head - length head) (omega arith),
)

-- For data of fewer than 2^63 - 10 bytes, GetNextBlock returns what PrependLength put behind its
-- length, whatever follows, and the total length of both.
pub get_next_block-prepend_length :
    (body rest : List ℕ)
    → length body < 2 ^ 63 - 10
    → (buf : List ℕ) × (prepend_length body ≡ ok buf)
      × (get_next_block (buf ++ rest) ≡ ok (body, pos (length buf)))
unfolding prepend_length get_next_block cut_block
get_next_block-prepend_length body rest h =
    let size : List ℕ = groups 9 (length body) in
    let whole : unpack64 (size ++ (body ++ rest)) ≡ ok (length body, length size) =
      unpack64-groups (length body) (body ++ rest) (omega arith) in
    let few : length size ≤ 10 = omega (arith, (length-groups_bounds 9 (length body)).1) in
    let fits : add64 (int64 (length body)) (pos (length size)) ≡ pos (length body + length size) =
      total_fits (length body) (length size) (omega arith) in
    let small : length body % 2 ^ 64 ≡ length body = omega arith in
    (
      size ++ body,
      rw (small, pack64-groups (length body) (omega arith)),
      rw (append_assoc, whole, fits)
          (ground (
            arith,
            slice_block size body rest,
            length-append size body,
            length-append size (body ++ rest),
            length-append body rest,
          )),
    )

huge_total :
    (l n : ℕ) (bytes : List ℕ)
    → 2 ^ 63 ≤ l
    → l < 2 ^ 64
    → n ≤ 10
    → n ≤ length bytes
    → cut_block bytes n (add64 (int64 l) (pos n)) ≡ panic
unfolding cut_block slice add64
huge_total l n bytes lo hi hn hb = ground arith

-- GetNextBlock panics on every input that begins with the varint of a uint64 from 2^63 on.
pub get_next_block_panics :
    (l : ℕ) (rest : List ℕ)
    → 2 ^ 63 ≤ l
    → l < 2 ^ 64
    → (buf : List ℕ) × (pack64 l ≡ ok buf) × (get_next_block (buf ++ rest) ≡ panic)
unfolding get_next_block
get_next_block_panics l rest lo hi =
    let size : List ℕ = groups 9 l in
    (
      size,
      pack64-groups l hi,
      rw (unpack64-groups l rest hi) (
          huge_total l (length size) (size ++ rest) lo hi (length-groups_bounds 9 l).1
            (omega (arith, length-append (groups 9 l) rest))),
    )
