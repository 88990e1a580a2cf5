-- ===== src/Container/Read.antt =====
-- Reading from a container, against reading from its content.
use portbase.Prelude.{
  ℕ, zero, suc, ◌+◌, ◌-◌, ◌/◌, ◌≤◌, ◌<◌, ◌≡◌, refl, sym, ap, ◌∙◌, List, [], ◌∷◌, ◌++◌, some, ltb,
  leb, Result, ok, err, length, take, drop, concat, arith, length-append, take-append_left,
  drop-append_left, take-append_right, drop-append_right, concat-append, append_assoc,
  take-append-drop, take_all, drop_all, le→ltb, lt→ltb, Bool-cases, inl, inr, leb→le, length-take,
  ltb→lt, ◌==◌, get_elem?, ==_iff,
}
use portbase.Prelude.Int.{pos}
use portbase.Container.{
  Container, Error, too_few, peek_loop, peek, skip_loop, skip, check_offset, get, not_enough_data,
}
use portbase.Container.Valid.{content, IsValid, append-eq-nil_left, append-eq-nil_right}

peek_loop-concat : (room : ℕ) (xs : List (List ℕ)) → peek_loop room xs ≡ take room (concat xs)
unfolding peek_loop
peek_loop-concat room [] = sym (take_all room [] (omega arith))
peek_loop-concat room (x ∷ xs) = elim (Bool-cases (leb room (length x))) [
  | inl within ↦ rw within (sym (take-append_left room x (concat xs) (leb→le _ _ within)))
  | inr beyond ↦
      rw (beyond, peek_loop-concat (room - length x) xs)
        (sym (take-append_right room x (concat xs) (ground arith)))
]

first_compartment :
    (i : ℕ) (xs : List (List ℕ))
    → i < length xs
    → (x : List ℕ) × (rest : List (List ℕ)) × (get_elem? xs i ≡ some x) × (drop i xs ≡ x ∷ rest)
first_compartment i [] h = absurd (omega arith)
first_compartment zero (x ∷ xs) h = (x, xs, refl, refl)
first_compartment (suc i) (x ∷ xs) h = first_compartment i xs (omega arith)

-- On a well-formed container that has a compartment, Peek returns the first n bytes, or all.
pub peek-content :
    (n : ℕ) (c : Container)
    → IsValid c
    → 0 < length c.compartments
    → peek (pos n) c ≡ ok (take n (content c))
unfolding peek
peek-content zero c v h = refl
peek-content (suc n) c v h =
    let (first, rest, e, d) =
      first_compartment c.offset c.compartments (omega (arith, v.in_range)) in
    rw (e, d)
      (elim (Bool-cases (leb (suc n) (length first))) [
        | inl within ↦
            rw within
              (ap ok (sym (take-append_left (suc n) first (concat rest) (leb→le _ _ within))))
        | inr beyond ↦ rw beyond (ap ok (peek_loop-concat (suc n) (first ∷ rest)))
      ])

-- What a loop over the compartments leaves: behind the empty `front`, compartments and an offset
-- that hold `bytes`.
pub record Leaves (front : List (List ℕ)) (left : List (List ℕ) × ℕ) (bytes : List ℕ) : Type 0 where
  pub emptied : concat (take left.1 (front ++ left.0)) ≡ []
  pub holds : concat (drop left.1 (front ++ left.0)) ≡ bytes

take_front {ℓ} :
    {A : Type ℓ} (front back : List A) (i : ℕ) → length front ≡ i → take i (front ++ back) ≡ front
take_front front back i e =
    rw (← e)
      (take-append_left (length front) front back (omega arith) ∙ take_all _ front (omega arith))

drop_front {ℓ} :
    {A : Type ℓ} (front back : List A) (i : ℕ) → length front ≡ i → drop i (front ++ back) ≡ back
drop_front [] back i e = rw (← e) refl
drop_front (x ∷ front) back i e = rw (← e) (drop_front front back (length front) refl)

-- The offset stands right behind the front.
pub stops :
    (front back : List (List ℕ)) (i : ℕ) (bytes : List ℕ)
    → length front ≡ i
    → concat front ≡ []
    → concat back ≡ bytes
    → Leaves front (back, i) bytes
stops front back i bytes e f b = record {
  emptied = rw (take_front front back i e) f;
  holds = rw (drop_front front back i e) b;
}

-- One emptied compartment joins the front.
module _ (front : List (List ℕ)) (bytes : List ℕ) where
  pub front_grows :
      (left : List (List ℕ) × ℕ)
      → Leaves (front ++ [] ∷ []) left bytes
      → Leaves front ([] ∷ left.0, left.1) bytes
  front_grows left l = record {
    emptied = rw (append_assoc front ([] ∷ []) left.0) at l.emptied;
    holds = rw (append_assoc front ([] ∷ []) left.0) at l.holds;
  }

  pub front_clear : concat front ≡ [] → concat (front ++ [] ∷ []) ≡ []
  front_clear h = concat-append front ([] ∷ []) ∙ rw h

skip_loop-Leaves :
    (n i : ℕ) (xs front : List (List ℕ))
    → length front ≡ i
    → concat front ≡ []
    → Leaves front (skip_loop n i xs) (drop n (concat xs))
unfolding skip_loop
skip_loop-Leaves n i [] front e f =
    stops front [] i (drop n []) e f (sym (drop_all n [] (omega arith)))
skip_loop-Leaves n i (x ∷ xs) front e f = elim (Bool-cases (leb (length x) n)) [
  | inr part ↦
      rw part (
        stops front (drop n x ∷ xs) i _ e f (sym (drop-append_left n x (concat xs) (ground arith))))
  | inl whole ↦
      rw (whole, drop-append_right n x (concat xs) (leb→le _ _ whole))
        (elim (Bool-cases (n - length x == 0)) [
          | inl done ↦
              rw (done, (==_iff (n - length x) 0).0 done)
                (front_grows front _ (xs, i + 1)
                  (stops (front ++ [] ∷ []) xs (i + 1) _
                    (omega (arith, length-append front ([] ∷ []))) (front_clear front [] f) refl))
          | inr more ↦ rw more (
              front_grows front _ _ (
                skip_loop-Leaves (n - length x) (i + 1) xs (front ++ [] ∷ [])
                  (omega (arith, length-append front ([] ∷ []))) (front_clear front [] f)))
        ])
]

-- What checkOffset makes of the state behind such a loop.
pub check_offset-IsValid :
    (c : Container)
    → concat (take c.offset c.compartments) ≡ []
    → IsValid (check_offset c) × (content (check_offset c) ≡ content c)
unfolding check_offset
check_offset-IsValid c h = elim (Bool-cases (leb (length c.compartments) c.offset)) [
  | inr within ↦ rw within (record { in_range = ground arith; cleared = h }, refl)
  | inl past ↦
      let half = length c.compartments / 2 in
      let none_left : content c ≡ [] =
        ap concat (drop_all c.offset c.compartments (leb→le _ _ past)) in
      let empty : concat (take half c.compartments) ++ concat (drop half c.compartments) ≡ [] =
        sym (concat-append (take half c.compartments) (drop half c.compartments))
        ∙ ap concat (take-append-drop half c.compartments)
        ∙ ap concat (sym (take_all c.offset c.compartments (leb→le _ _ past)))
        ∙ h in
      rw past (
        record { in_range = omega arith; cleared = append-eq-nil_left _ _ empty },
        append-eq-nil_right _ _ empty ∙ sym none_left,
      )
]

pub length_front : (i : ℕ) (xs : List (List ℕ)) → i ≤ length xs - 1 → length (take i xs) ≡ i
length_front i xs h = omega (arith, length-take i xs)

-- Skipping n bytes keeps a container well formed and drops the first n bytes of its content, or all
-- where there are fewer.
pub skip-content :
    (n : ℕ) (c : Container)
    → IsValid c
    → IsValid (skip n c) × (content (skip n c) ≡ drop n (content c))
unfolding skip
skip-content n c v =
    let l =
      skip_loop-Leaves n c.offset (drop c.offset c.compartments) (take c.offset c.compartments)
        (length_front c.offset c.compartments v.in_range) v.cleared in
    let (valid, holds) = check_offset-IsValid _ l.emptied in (valid, holds ∙ l.holds)

-- A container that holds a byte has a compartment.
pub compartments_pos : (c : Container) → 0 < length (content c) → 0 < length c.compartments
compartments_pos c h = elim (Bool-cases (ltb 0 (length c.compartments))) [
  | inl some_there ↦ ltb→lt _ _ some_there
  | inr no_one ↦
      let gone : content c ≡ [] = ap concat (drop_all c.offset c.compartments (ground arith)) in
      absurd (omega (arith, ap length gone))
]

-- Of a read that must not fail: the bytes it returns, and the content that is left.
pub record Reads {A : Type 0} (r : Result Error (A × Container)) (value : A) (left : List ℕ)
    : Type 0 where
  pub rest : Container
  pub returned : r ≡ ok (value, rest)
  pub valid : IsValid rest
  pub holds : content rest ≡ left

-- On a well-formed container with a compartment and at least n bytes, Get returns the first n bytes
-- and leaves a well-formed container with the others.
pub get-Reads :
    (n : ℕ) (c : Container)
    → IsValid c
    → 0 < length c.compartments
    → n ≤ length (content c)
    → Reads (get (pos n) c) (take n (content c)) (drop n (content c))
unfolding get too_few
get-Reads n c v some_there h =
    let e : length (take n (content c)) ≡ n = omega (arith, length-take n (content c)) in
    let (valid, holds) = skip-content n c v in
    record {
      rest = skip n c;
      returned = rw (peek-content n c v some_there, e, le→ltb n n (omega arith));
      valid = valid;
      holds = holds;
    }

-- Where there are fewer, Get answers with its error.
pub get_too_few :
    (n : ℕ) (c : Container)
    → IsValid c
    → 0 < length c.compartments
    → length (content c) < n
    → get (pos n) c ≡ err not_enough_data
unfolding get too_few
get_too_few n c v some_there h =
    rw (peek-content n c v some_there, take_all n (content c) (omega arith), lt→ltb _ _ h)
