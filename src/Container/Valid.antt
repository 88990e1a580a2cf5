-- ===== src/Container/Valid.antt =====
-- The abstract view of a container is the byte list `content`. Well-formed containers, and the
-- operations that add data.
use portbase.Prelude.{
  ℕ, zero, suc, ◌-◌, ◌^◌, ◌≤◌, ◌<◌, ◌≡◌, refl, sym, ap, ◌∙◌, List, [], ◌∷◌, ◌++◌, Option, Result,
  ok, length, take, drop, set, concat, arith, length-append, take-append_left, drop-append_left,
  concat-append, append-nil, append_assoc, take-append-drop, le→ltb, lt→ltb,
}
use portbase.Varint.Encoding.{groups, pack64-groups}
use portbase.Container.{
  Container, Error, renew_compartments, set_front, prepend, append, pack, prepend_number,
  append_number, append_as_block, prepend_as_block, append_container,
}

-- The bytes that a container holds.
abbrev pub content : Container → List ℕ
content c = concat (drop c.offset c.compartments)

-- The offset names a compartment, if there is one, and what stands before it is empty.
pub record IsValid (c : Container) : Type 0 where
  pub in_range : c.offset ≤ length c.compartments - 1
  pub cleared : concat (take c.offset c.compartments) ≡ []

-- Of a step that must not fail: it gives a well-formed container that holds `bytes`.
pub record Yields (r : Result Error Container) (bytes : List ℕ) : Type 0 where
  pub result : Container
  pub returned : r ≡ ok result
  pub valid : IsValid result
  pub holds : content result ≡ bytes

pub append-eq-nil_left {ℓ} : {A : Type ℓ} (xs ys : List A) → xs ++ ys ≡ [] → xs ≡ []
append-eq-nil_left [] ys h = refl
append-eq-nil_left (x ∷ xs) ys h = cc

pub append-eq-nil_right {ℓ} : {A : Type ℓ} (xs ys : List A) → xs ++ ys ≡ [] → ys ≡ []
append-eq-nil_right [] ys h = h
append-eq-nil_right (x ∷ xs) ys h = cc

concat-take_fewer :
    (i : ℕ) (xs : List (List ℕ)) → concat (take (suc i) xs) ≡ [] → concat (take i xs) ≡ []
concat-take_fewer zero xs h = refl
concat-take_fewer (suc i) [] h = refl
concat-take_fewer (suc i) (x ∷ xs) h =
    rw (append-eq-nil_left x (concat (take (suc i) xs)) h)
      (concat-take_fewer i xs (append-eq-nil_right x (concat (take (suc i) xs)) h))

module _ {ℓ} {A : Type ℓ} (v : A) where
  pub take-set : (i : ℕ) (xs : List A) → take i (set xs i v) ≡ take i xs
  take-set zero xs = refl
  take-set (suc i) [] = refl
  take-set (suc i) (x ∷ xs) = ap (λ t. x ∷ t) (take-set i xs)

  pub drop-set : (i : ℕ) (xs : List A) → i < length xs → drop i (set xs i v) ≡ v ∷ drop (suc i) xs
  drop-set i [] h = absurd (omega arith)
  drop-set zero (x ∷ xs) h = refl
  drop-set (suc i) (x ∷ xs) h = drop-set i xs (omega arith)

  pub length-set : (i : ℕ) (xs : List A) → length (set xs i v) ≡ length xs
  length-set i [] = refl
  length-set zero (x ∷ xs) = refl
  length-set (suc i) (x ∷ xs) = ap suc (length-set i xs)

prepend_parts :
    (bytes : List ℕ) (comps : List (List ℕ)) (offset : ℕ) (fault : Option Error)
    → IsValid (record { compartments = comps; offset = offset; fault = fault })
    → Yields
        (prepend bytes (record { compartments = comps; offset = offset; fault = fault }))
        (bytes ++ concat (drop offset comps))
unfolding prepend renew_compartments set_front
prepend_parts bytes comps zero fault v = record {
  result = record { compartments = [] ∷ [] ∷ [] ∷ bytes ∷ [] ∷ comps; offset = 3; fault = fault };
  returned = ground arith;
  valid = record { in_range = omega arith; cleared = refl };
  holds = refl;
}
prepend_parts bytes comps (suc i) fault v = record {
  result = record { compartments = set comps i bytes; offset = i; fault = fault };
  returned =
      let e : suc i - 1 ≡ i = omega arith in
      rw (le→ltb (suc i) 1 (omega arith), e, lt→ltb i (length comps) (omega (arith, v.in_range)));
  valid = record {
    in_range = omega (arith, length-set bytes i comps, v.in_range);
    cleared = rw (take-set bytes i comps) (concat-take_fewer i comps v.cleared);
  };
  holds = ap concat (drop-set bytes i comps (omega (arith, v.in_range)));
}

-- Prepend never panics on a well-formed container, keeps it well formed and puts the data in front
-- of the content.
pub prepend-Yields :
    (bytes : List ℕ) (c : Container) → IsValid c → Yields (prepend bytes c) (bytes ++ content c)
prepend-Yields bytes c v = prepend_parts bytes c.compartments c.offset c.fault v

-- Adding compartments at the end.
more_compartments :
    (c : Container) (more : List (List ℕ))
    → IsValid c
    → IsValid (record c { compartments = c.compartments ++ more })
      × (content (record c { compartments = c.compartments ++ more }) ≡ content c ++ concat more)
more_compartments c more v =
    let within : c.offset ≤ length c.compartments = omega (arith, v.in_range) in
    (
      record {
        in_range = omega (arith, v.in_range, length-append c.compartments more);
        cleared = rw (take-append_left c.offset c.compartments more within) v.cleared;
      },
      ap concat (drop-append_left c.offset c.compartments more within)
          ∙ concat-append (drop c.offset c.compartments) more,
    )

pub append-IsValid :
    (bytes : List ℕ) (c : Container)
    → IsValid c
    → IsValid (append bytes c) × (content (append bytes c) ≡ content c ++ bytes)
unfolding append
append-IsValid bytes c v =
    let (valid, holds) = more_compartments c (bytes ∷ []) v in
    (valid, holds ∙ ap (λ t. content c ++ t) (append-nil bytes))

-- Of a well-formed container, all the compartments together are the content.
pub concat-compartments : (c : Container) → IsValid c → concat c.compartments ≡ content c
concat-compartments c v =
    ap concat (sym (take-append-drop c.offset c.compartments))
    ∙ concat-append (take c.offset c.compartments) (drop c.offset c.compartments)
    ∙ rw v.cleared

pub append_container-IsValid :
    (other c : Container)
    → IsValid other
    → IsValid c
    → IsValid (append_container other c)
      × (content (append_container other c) ≡ content c ++ content other)
unfolding append_container
append_container-IsValid other c w v =
    let (valid, holds) = more_compartments c other.compartments v in
    (valid, holds ∙ ap (λ t. content c ++ t) (concat-compartments other w))

-- A number in front or behind, as its varint.
pub append_number-Yields :
    (n : ℕ) (c : Container)
    → n < 2 ^ 64
    → IsValid c
    → Yields (append_number n c) (content c ++ groups 9 n)
unfolding append_number pack
append_number-Yields n c h v =
    let (valid, holds) = append-IsValid (groups 9 n) c v in
    record {
      result = append (groups 9 n) c;
      returned = rw (pack64-groups n h);
      valid = valid;
      holds = holds;
    }

pub prepend_number-Yields :
    (n : ℕ) (c : Container)
    → n < 2 ^ 64
    → IsValid c
    → Yields (prepend_number n c) (groups 9 n ++ content c)
unfolding prepend_number pack
prepend_number-Yields n c h v = rw (pack64-groups n h) (prepend-Yields (groups 9 n) c v)

-- AppendAsBlock adds the length and the data behind the content, PrependAsBlock in front of it.
pub append_as_block-Yields :
    (bytes : List ℕ) (c : Container)
    → length bytes < 2 ^ 64
    → IsValid c
    → Yields (append_as_block bytes c) (content c ++ (groups 9 (length bytes) ++ bytes))
unfolding append_as_block
append_as_block-Yields bytes c h v =
    let sized = append_number-Yields (length bytes) c h v in
    let (valid, holds) = append-IsValid bytes sized.result sized.valid in
    record {
      result = append bytes sized.result;
      returned = rw sized.returned;
      valid = valid;
      holds = holds ∙ ap (λ t. t ++ bytes) sized.holds ∙ append_assoc (content c) _ bytes;
    }

pub prepend_as_block-Yields :
    (bytes : List ℕ) (c : Container)
    → length bytes < 2 ^ 64
    → IsValid c
    → Yields (prepend_as_block bytes c) (groups 9 (length bytes) ++ (bytes ++ content c))
unfolding prepend_as_block
prepend_as_block-Yields bytes c h v =
    let held = prepend-Yields bytes c v in
    let sized = prepend_number-Yields (length bytes) held.result h held.valid in
    record {
      result = sized.result;
      returned = rw held.returned sized.returned;
      valid = sized.valid;
      holds = sized.holds ∙ ap (λ t. groups 9 (length bytes) ++ t) held.holds;
    }
