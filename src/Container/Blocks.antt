-- ===== src/Container/Blocks.antt =====
-- A container as a queue of blocks, each behind its length as a varint.
use portbase.Prelude.{
  ℕ, suc, ◌-◌, ◌^◌, ◌≤◌, ◌<◌, ◌≡◌, refl, sym, ap, ◌∙◌, List, [], ◌∷◌, ◌++◌, ok, length, take, drop,
  concat, map, arith, length-append, take-append_left, take-append_right, append-nil, append_assoc,
  take_all, lt→ltb,
}
use portbase.Prelude.Int.{pos, int64}
use portbase.Varint.Encoding.{groups, length-groups_bounds}
use portbase.Varint.RoundTrip.{unpack64-groups}
use portbase.Container.{
  Container, too_few, append_as_block, prepend_as_block, next_number, get_next_n64, get_next_block,
  get, peek, skip,
}
use portbase.Container.Valid.{content, IsValid, append_as_block-Yields, prepend_as_block-Yields}
use portbase.Container.Read.{Reads, peek-content, skip-content, get-Reads, compartments_pos}

-- A block as its bytes stand in the content.
abbrev pub block : List ℕ → List ℕ
block bytes = groups 9 (length bytes) ++ bytes

take_ten :
    (head rest : List ℕ)
    → length head ≤ 10
    → take 10 (head ++ rest) ≡ head ++ take (10 - length head) rest
take_ten head rest h = take-append_right 10 head rest h

pub drop_head : (head rest : List ℕ) → drop (length head) (head ++ rest) ≡ rest
drop_head [] rest = refl
drop_head (x ∷ head) rest = drop_head head rest

pub take_head : (head rest : List ℕ) → take (length head) (head ++ rest) ≡ head
take_head head rest =
    take-append_left (length head) head rest (omega arith) ∙ take_all _ head (omega arith)

-- GetNextN64 returns the number whose varint begins the content, and consumes just its bytes.
pub get_next_n64-Reads :
    (n : ℕ) (c : Container) (rest : List ℕ)
    → n < 2 ^ 64
    → IsValid c
    → content c ≡ groups 9 n ++ rest
    → Reads (get_next_n64 c) n rest
unfolding get_next_n64 next_number
get_next_n64-Reads n c rest h v e =
    let size = groups 9 n in
    let few : (1 ≤ length size) × (length size ≤ 10) = length-groups_bounds 9 n in
    let some_there : 0 < length c.compartments =
      compartments_pos c (omega (arith, ap length e, length-append size rest)) in
    let (valid, holds) = skip-content (length size) c v in
    record {
      rest = skip (length size) c;
      returned = rw (
        peek-content 10 c v some_there,
        e,
        take_ten size rest few.1,
        unpack64-groups n (take (10 - length size) rest) h,
      );
      valid = valid;
      holds = holds ∙ ap (drop (length size)) e ∙ drop_head size rest;
    }

get_nothing : (c : Container) → IsValid c → Reads (get (pos 0) c) [] (content c)
unfolding get peek too_few
get_nothing c v =
    let (valid, holds) = skip-content 0 c v in
    record { rest = skip 0 c; returned = refl; valid = valid; holds = holds }

get_front :
    (bytes rest : List ℕ) (c : Container)
    → IsValid c
    → content c ≡ bytes ++ rest
    → Reads (get (pos (length bytes)) c) bytes rest
get_front [] rest c v e = rw (← e) (get_nothing c v)
get_front (b ∷ bytes) rest c v e =
    let got =
      get-Reads (suc (length bytes)) c v (compartments_pos c (omega (arith, ap length e)))
        (omega (arith, ap length e, length-append bytes rest)) in
    record {
      rest = got.rest;
      returned =
          got.returned
          ∙ ap (λ t. ok (t, got.rest))
              (ap (take (suc (length bytes))) e ∙ take_head (b ∷ bytes) rest);
      valid = got.valid;
      holds = got.holds ∙ ap (drop (suc (length bytes))) e ∙ drop_head (b ∷ bytes) rest;
    }

pub size_int : (n : ℕ) → n < 2 ^ 63 → int64 n ≡ pos n
unfolding int64
size_int n h = rw (lt→ltb n (2 ^ 63) h)

-- GetNextBlock takes the first block off the content.
pub get_next_block-Reads :
    (bytes rest : List ℕ) (c : Container)
    → length bytes < 2 ^ 63
    → IsValid c
    → content c ≡ block bytes ++ rest
    → Reads (get_next_block c) bytes rest
unfolding get_next_block
get_next_block-Reads bytes rest c h v e =
    let size =
      get_next_n64-Reads (length bytes) c (bytes ++ rest) (omega arith) v
        (e ∙ append_assoc (groups 9 (length bytes)) bytes rest) in
    let got = get_front bytes rest size.rest size.valid size.holds in
    record {
      rest = got.rest;
      returned = rw (size.returned, size_int (length bytes) h) got.returned;
      valid = got.valid;
      holds = got.holds;
    }

-- The abstract queue: the blocks, first to last.
pub record Holds (c : Container) (blocks : List (List ℕ)) : Type 0 where
  pub valid : IsValid c
  pub queued : content c ≡ concat (map block blocks)

queue_end :
    (bytes : List ℕ) (blocks : List (List ℕ))
    → concat (map block (blocks ++ bytes ∷ [])) ≡ concat (map block blocks) ++ block bytes
queue_end bytes [] = append-nil (block bytes)
queue_end bytes (b ∷ blocks) =
    ap (λ t. block b ++ t) (queue_end bytes blocks)
    ∙ sym (append_assoc (block b) (concat (map block blocks)) (block bytes))

-- AppendAsBlock of fewer than 2^63 bytes does not fail and puts a block at the end of the queue.
pub append_as_block-Holds :
    (bytes : List ℕ) (blocks : List (List ℕ)) (c : Container)
    → length bytes < 2 ^ 63
    → Holds c blocks
    → (c' : Container) × (append_as_block bytes c ≡ ok c') × Holds c' (blocks ++ bytes ∷ [])
append_as_block-Holds bytes blocks c h q =
    let y = append_as_block-Yields bytes c (omega arith) q.valid in
    (
      y.result,
      y.returned,
      record { valid = y.valid; queued = y.holds ∙ rw (q.queued) (sym (queue_end bytes blocks)) },
    )

-- PrependAsBlock of fewer than 2^63 bytes does not fail and puts a block at the front of the queue.
pub prepend_as_block-Holds :
    (bytes : List ℕ) (blocks : List (List ℕ)) (c : Container)
    → length bytes < 2 ^ 63
    → Holds c blocks
    → (c' : Container) × (prepend_as_block bytes c ≡ ok c') × Holds c' (bytes ∷ blocks)
prepend_as_block-Holds bytes blocks c h q =
    let y = prepend_as_block-Yields bytes c (omega arith) q.valid in
    (
      y.result,
      y.returned,
      record {
        valid = y.valid;
        queued = y.holds ∙ rw (q.queued) (sym (append_assoc (groups 9 (length bytes)) bytes _));
      },
    )

-- From a queue whose first block is shorter than 2^63 bytes, GetNextBlock returns that block without
-- an error and leaves a well-formed container with the others.
pub get_next_block-Holds :
    (bytes : List ℕ) (blocks : List (List ℕ)) (c : Container)
    → length bytes < 2 ^ 63
    → Holds c (bytes ∷ blocks)
    → (c' : Container) × (get_next_block c ≡ ok (bytes, c')) × Holds c' blocks
get_next_block-Holds bytes blocks c h q =
    let r = get_next_block-Reads bytes (concat (map block blocks)) c h q.valid q.queued in
    (r.rest, r.returned, record { valid = r.valid; queued = r.holds })
