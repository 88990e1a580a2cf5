-- ===== src/Container/Parts.antt =====
-- Reading a part of a container as a container of its own.
use portbase.Prelude.{
  ℕ, zero, suc, ◌-◌, ◌^◌, ◌≤◌, ◌<◌, ◌≡◌, refl, sym, ap, ◌∙◌, List, [], ◌∷◌, ◌++◌, true, false, ltb,
  leb, err, length, take, drop, concat, arith, length-append, take-append_left, take-append_right,
  append-nil, append_assoc, take_all, le→ltb, lt→ltb, Bool-cases, inl, inr, leb→le,
}
use portbase.Prelude.Int.{pos}
use portbase.Varint.Encoding.{groups}
use portbase.Container.{
  Container, not_enough_data, new, skip, peek_container_loop, peek_container, skip_int,
  get_as_container, get_next_block_as_container,
}
use portbase.Container.Valid.{content, IsValid}
use portbase.Container.Read.{Reads, skip-content}
use portbase.Container.Blocks.{block, get_next_n64-Reads, size_int, take_head, drop_head}

peek_container_loop-concat :
    (n : ℕ) (xs : List (List ℕ))
    → (concat (peek_container_loop n xs).0 ≡ take n (concat xs))
      × ((peek_container_loop n xs).1 ≡ n - length (concat xs))
unfolding peek_container_loop
peek_container_loop-concat n [] = (sym (take_all n [] (omega arith)), omega arith)
peek_container_loop-concat n (x ∷ xs) =
    let rest = peek_container_loop-concat (n - length x) xs in
    elim (Bool-cases (leb (length x) n)) [
      | inl whole ↦ rw whole (
        ap (λ t. x ++ t) rest.0 ∙ sym (take-append_right n x (concat xs) (leb→le _ _ whole)),
        omega (arith, rest.1, length-append x (concat xs)),
      )
      | inr part ↦ rw part (part_taken n x xs rest.0 rest.1 (ground arith))
    ]
  where
    none_missing : (n : ℕ) (x : List ℕ) → n < length x → n - length x ≡ 0
    none_missing n x h = omega arith

    part_taken :
        (n : ℕ) (x : List ℕ) (xs : List (List ℕ))
        → concat (peek_container_loop (n - length x) xs).0 ≡ take (n - length x) (concat xs)
        → (peek_container_loop (n - length x) xs).1 ≡ n - length x - length (concat xs)
        → n < length x
        → (take n x ++ concat (peek_container_loop (n - length x) xs).0 ≡ take n (x ++ concat xs))
          × ((peek_container_loop (n - length x) xs).1 ≡ n - length (x ++ concat xs))
    part_taken n x xs e m h = (
      rw (e, none_missing n x h, take-append_left n x (concat xs) (omega arith))
          (append-nil (take n x)),
      omega (arith, m, length-append x (concat xs)),
    )

-- GetAsContainer of at most as many bytes as a well-formed container holds splits them off as a
-- well-formed container, and leaves the rest.
pub get_as_container-content :
    (n : ℕ) (c : Container)
    → IsValid c
    → n ≤ length (content c)
    → (part : Container) × (content part ≡ take n (content c))
      × IsValid part
      × Reads (get_as_container (pos n) c) part (drop n (content c))
unfolding get_as_container peek_container skip_int new
get_as_container-content zero c v h =
    let (valid, holds) = skip-content 0 c v in
    (
      new [],
      refl,
      record { in_range = omega arith; cleared = refl },
      record { rest = skip 0 c; returned = refl; valid = valid; holds = holds },
    )
get_as_container-content (suc n) c v h =
    let loop = peek_container_loop-concat (suc n) (drop c.offset c.compartments) in
    let enough : ltb 0 (peek_container_loop (suc n) (drop c.offset c.compartments)).1 ≡ false =
      le→ltb 0 _ (omega (arith, loop.1)) in
    let (valid, holds) = skip-content (suc n) c v in
    (
      new (peek_container_loop (suc n) (drop c.offset c.compartments)).0,
      loop.0,
      record { in_range = omega arith; cleared = refl },
      record {
        rest = skip (suc n) c;
        returned = rw (enough, get_as_container);
        valid = valid;
        holds = holds;
      },
    )

pub get_as_container_too_few :
    (n : ℕ) (c : Container)
    → length (content c) < n
    → get_as_container (pos n) c ≡ err not_enough_data
unfolding get_as_container peek_container
get_as_container_too_few zero c h = absurd (omega arith)
get_as_container_too_few (suc n) c h =
    let loop = peek_container_loop-concat (suc n) (drop c.offset c.compartments) in
    let missing : ltb 0 (peek_container_loop (suc n) (drop c.offset c.compartments)).1 ≡ true =
      lt→ltb 0 _ (omega (arith, loop.1)) in
    rw (missing, get_as_container)

-- GetNextBlockAsContainer takes the first block off as a container that holds its data.
pub get_next_block_as_container-content :
    (bytes rest : List ℕ) (c : Container)
    → length bytes < 2 ^ 63
    → IsValid c
    → content c ≡ block bytes ++ rest
    → (part : Container) × (content part ≡ bytes)
      × IsValid part
      × Reads (get_next_block_as_container c) part rest
unfolding get_next_block_as_container
get_next_block_as_container-content bytes rest c h v e =
    let size =
      get_next_n64-Reads (length bytes) c (bytes ++ rest) (omega arith) v
        (e ∙ append_assoc (groups 9 (length bytes)) bytes rest) in
    let (part, taken, valid, got) =
      get_as_container-content (length bytes) size.rest size.valid
        (omega (arith, ap length size.holds, length-append bytes rest)) in
    (
      part,
      taken ∙ ap (take (length bytes)) size.holds ∙ take_head bytes rest,
      valid,
      record {
        rest = got.rest;
        returned = rw (size.returned, size_int (length bytes) h) got.returned;
        valid = got.valid;
        holds = got.holds ∙ ap (drop (length bytes)) size.holds ∙ drop_head bytes rest;
      },
    )
