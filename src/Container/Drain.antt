-- ===== src/Container/Drain.antt =====
-- Reading all of a container, or as much as there is: GetAll, GetMax and WriteToSlice.
use portbase.Prelude.{
  ℕ, zero, suc, ◌+◌, ◌-◌, ◌≤◌, ◌<◌, ◌≡◌, refl, sym, ap, ◌∙◌, List, [], ◌∷◌, ◌++◌, Bool, ltb, leb,
  ok, length, take, drop, concat, arith, length-append, take-append_left, drop-append_left,
  take-append_right, drop-append_right, take_all, drop_all, Bool-cases, inl, inr, le→leb, ltb→lt,
}
use portbase.Prelude.Int.{pos}
use portbase.Container.{Container, peek, skip, get_all, get_max, write_loop, write_to_slice}
use portbase.Container.Valid.{content, IsValid}
use portbase.Container.Whole.{total_length-content}
use portbase.Container.Read.{
  peek-content, skip-content, compartments_pos, Reads, Leaves, stops, front_grows, front_clear,
  check_offset-IsValid, length_front,
}

peek_whole : (c : Container) → IsValid c → peek (pos (length (content c))) c ≡ ok (content c)
peek_whole c v = elim (Bool-cases (ltb 0 (length (content c)))) [
  | inl some_there ↦
      peek-content (length (content c)) c v (compartments_pos c (ltb→lt _ _ some_there))
      ∙ ap ok (take_all _ (content c) (omega arith))
  | inr nothing ↦ ground (arith, peek_none c, empty_of_length (content c))
]
  where
    peek_none : (c : Container) → peek (pos 0) c ≡ ok []
    peek_none c = unfold peek in refl

    empty_of_length : (xs : List ℕ) → length xs ≡ 0 → xs ≡ []
    empty_of_length [] h = refl
    empty_of_length (x ∷ xs) h = absurd (omega arith)

-- GetAll returns the whole content, and leaves none; it fails on no well-formed container.
pub get_all-Reads : (c : Container) → IsValid c → Reads (get_all c) (content c) []
unfolding get_all
get_all-Reads c v =
    let (valid, holds) = skip-content (length (content c)) c v in
    record {
      rest = skip (length (content c)) c;
      returned = rw (total_length-content c, peek_whole c v);
      valid = valid;
      holds = holds ∙ drop_all _ (content c) (omega arith);
    }

-- GetMax returns the first n bytes, or all, and consumes them.
pub get_max-Reads :
    (n : ℕ) (c : Container)
    → IsValid c
    → 0 < length c.compartments
    → Reads (get_max (pos n) c) (take n (content c)) (drop n (content c))
unfolding get_max
get_max-Reads n c v some_there =
    let taken = length (take n (content c)) in
    let (valid, holds) = skip-content taken c v in
    record {
      rest = skip taken c;
      returned = rw (peek-content n c v some_there);
      valid = valid;
      holds = holds ∙ drop_taken n (content c);
    }
  where
    drop_taken : (n : ℕ) (xs : List ℕ) → drop (length (take n xs)) xs ≡ drop n xs
    drop_taken zero xs = refl
    drop_taken (suc n) [] = refl
    drop_taken (suc n) (x ∷ xs) = drop_taken n xs

record Written (front : List (List ℕ)) (room : ℕ) (xs : List (List ℕ))
    (loop : List ℕ × Bool × (List (List ℕ) × ℕ)) : Type 0 where
  out : loop.0 ≡ take room (concat xs)
  emptied : loop.1 ≡ leb (length (concat xs)) room
  leaves : Leaves front loop.2 (drop room (concat xs))

write_loop-Written :
    (room i : ℕ) (xs front : List (List ℕ))
    → length front ≡ i
    → concat front ≡ []
    → Written front room xs (write_loop room i xs)
unfolding write_loop
write_loop-Written room i [] front e f = record {
  out = sym (take_all room [] (omega arith));
  emptied = sym (le→leb 0 room (omega arith));
  leaves = stops front [] i (drop room []) e f (sym (drop_all room [] (omega arith)));
}
write_loop-Written room i (x ∷ xs) front e f = elim (Bool-cases (ltb room (length x))) [
  | inl part ↦ rw part (record {
    out = sym (take-append_left room x (concat xs) (omega (arith, ltb→lt _ _ part)));
    emptied = ground (arith, length-append x (concat xs));
    leaves =
        stops front (drop room x ∷ xs) i _ e f
          (sym (drop-append_left room x (concat xs) (omega (arith, ltb→lt _ _ part))));
  })
  | inr whole ↦
      let fits : length x ≤ room = ground arith in
      let rest =
        write_loop-Written (room - length x) (i + 1) xs (front ++ [] ∷ [])
          (omega (arith, length-append front ([] ∷ []))) (front_clear front [] f) in
      rw (whole) (record {
        out = ap (λ t. x ++ t) rest.out ∙ sym (take-append_right room x (concat xs) fits);
        emptied = rest.emptied ∙ ground (arith, length-append x (concat xs));
        leaves = rw (drop-append_right room x (concat xs) fits) (front_grows front _ _ rest.leaves);
      })
]

-- WriteToSlice on a well-formed container fills the slice from the front of the content, says whether
-- all of it was written, and leaves a well-formed container with the rest.
pub write_to_slice-content :
    (room : ℕ) (c : Container)
    → IsValid c
    → ((write_to_slice room c).0 ≡ take room (content c))
      × ((write_to_slice room c).1 ≡ leb (length (content c)) room)
      × IsValid (write_to_slice room c).2
      × (content (write_to_slice room c).2 ≡ drop room (content c))
unfolding write_to_slice
write_to_slice-content room c v =
    let w =
      write_loop-Written room c.offset (drop c.offset c.compartments) (take c.offset c.compartments)
        (length_front c.offset c.compartments v.in_range) v.cleared in
    let (valid, holds) = check_offset-IsValid _ w.leaves.emptied in
    (w.out, w.emptied, valid, holds ∙ w.leaves.holds)
