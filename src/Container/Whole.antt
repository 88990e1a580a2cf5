-- ===== src/Container/Whole.antt =====
-- Length, HoldsData and CompileData, which look at the whole content.
use portbase.Prelude.{
  ℕ, zero, suc, ◌≡◌, refl, sym, ap, ◌∙◌, List, [], ◌∷◌, Option, some, false, ltb, ok, length, drop,
  concat, arith, length-append, append-nil, ◌==◌, get_elem?,
}
use portbase.Container.{
  Container, Error, total_length, length_loop, holds_data, holds_data_loop, compile_loop, compact,
  compile_data,
}
use portbase.Container.Valid.{content, IsValid}

length_loop-concat : (xs : List (List ℕ)) → length_loop xs ≡ length (concat xs)
unfolding length_loop
length_loop-concat [] = refl
length_loop-concat (x ∷ xs) = omega (arith, length-append x (concat xs), length_loop-concat xs)

pub total_length-content : (c : Container) → total_length c ≡ length (content c)
unfolding total_length
total_length-content c = length_loop-concat (drop c.offset c.compartments)

holds_data_loop-concat : (xs : List (List ℕ)) → holds_data_loop xs ≡ ltb 0 (length (concat xs))
unfolding holds_data_loop
holds_data_loop-concat [] = refl
holds_data_loop-concat ([] ∷ xs) = holds_data_loop-concat xs
holds_data_loop-concat ((b ∷ x) ∷ xs) = ground arith

-- HoldsData answers whether the content has a byte, Length how many.
pub holds_data-length :
    (c : Container)
    → (holds_data c ≡ ltb 0 (total_length c)) × (total_length c ≡ length (content c))
unfolding holds_data
holds_data-length c =
    rw (total_length-content c) (holds_data_loop-concat (drop c.offset c.compartments), refl)

compile_loop-concat : (xs : List (List ℕ)) → compile_loop xs ≡ concat xs
unfolding compile_loop
compile_loop-concat [] = refl
compile_loop-concat (x ∷ xs) = rw (compile_loop-concat xs)

-- After CompileData the first compartment is the content.
record Compiled (c d : Container) : Type 0 where
  first : get_elem? d.compartments 0 ≡ some (content c)
  valid : IsValid d
  kept : content d ≡ content c

compile_many :
    (c : Container)
    → Compiled c
        (record c { compartments = compile_loop (drop c.offset c.compartments) ∷ []; offset = 0 })
compile_many c =
    let whole : compile_loop (drop c.offset c.compartments) ≡ content c =
      compile_loop-concat (drop c.offset c.compartments) in
    record {
      first = ap some whole;
      valid = record { in_range = omega arith; cleared = refl };
      kept = append-nil _ ∙ whole;
    }

not_one : (n : ℕ) → (suc (suc n) == 1) ≡ false
not_one n = ground arith

compact-Compiled :
    (comps : List (List ℕ)) (offset : ℕ) (fault : Option Error)
    → IsValid (record { compartments = comps; offset = offset; fault = fault })
    → Compiled
        (record { compartments = comps; offset = offset; fault = fault })
        (compact (record { compartments = comps; offset = offset; fault = fault }))
unfolding compact
compact-Compiled [] offset fault v = compile_many _
compact-Compiled (x ∷ []) zero fault v = record {
  first = ap some (sym (append-nil x));
  valid = v;
  kept = refl;
}
compact-Compiled (x ∷ []) (suc offset) fault v = absurd (omega (arith, v.in_range))
compact-Compiled (x ∷ y ∷ more) offset fault v = rw (not_one (length more)) (compile_many _)

-- CompileData on a well-formed container returns the content as one slice, does not panic, and keeps
-- the content and the well-formedness.
pub compile_data-content :
    (c : Container)
    → IsValid c
    → (c' : Container) × (compile_data c ≡ ok (content c, c'))
      × IsValid c'
      × (content c' ≡ content c)
unfolding compile_data
compile_data-content c v =
    let done : Compiled c (compact c) = compact-Compiled c.compartments c.offset c.fault v in
    (compact c, rw done.first, done.valid, done.kept)
