-- ===== src/Container/Faults.antt =====
-- A container made of nothing, Replace behind an offset, and GetNextN8.
use portbase.Prelude.{
  ℕ, zero, suc, ◌≤◌, ◌<◌, ◌≡◌, refl, ap, ◌∙◌, List, [], ◌∷◌, ◌++◌, ltb, if◌then◌else◌, ok, panic,
  length, take, drop, concat, arith, length-append, append-nil, drop_all, ◌==◌,
}
use portbase.Prelude.Int.{pos}
use portbase.Varint.{unpack8, pack8}
use portbase.Container.{
  Container, new, next_number, get_next_n64, get_next_n8, get, peek, skip, replace,
}
use portbase.Container.Valid.{content, IsValid}
use portbase.Container.Read.{Reads, peek-content, skip-content, compartments_pos}

-- Replace keeps the offset: from any other offset than 0 the new data is not held.
pub replace-content :
    (bytes : List ℕ) (c : Container)
    → content (replace bytes c) ≡ (if c.offset == 0 then bytes else [])
unfolding replace
replace-content bytes c = parts c.offset
  where
    parts : (offset : ℕ) → concat (drop offset (bytes ∷ [])) ≡ (if offset == 0 then bytes else [])
    parts zero = append-nil bytes
    parts (suc offset) = ap concat (drop_all {A = List ℕ} offset [] (omega arith)) ∙ ground arith

-- A container without a compartment, as New() makes it, panics when a byte is asked for; the
-- answer is not the error of Get.
pub get-new_panics :
    (n : ℕ) → (get (pos (suc n)) (new []) ≡ panic) × (get_next_n64 (new []) ≡ panic)
unfolding get peek get_next_n64 next_number new
get-new_panics n = (refl, refl)

pack8_two :
    (n : ℕ) (rest : List ℕ)
    → n < 256
    → (unpack8 (take 2 (pack8 n ++ rest)) ≡ ok (n, 1))
      × (drop 1 (pack8 n ++ rest) ≡ (if ltb n 128 then rest else 1 ∷ rest))
      × (1 ≤ length (pack8 n))
unfolding unpack8 pack8
pack8_two n [] h = ground arith
pack8_two n (b ∷ rest) h = ground arith

-- GetNextN8 reads back what Pack8 wrote, but consumes one byte: behind a value from 128 on the
-- second byte, 1, is left in front of what follows.
pub get_next_n8-pack8 :
    (n : ℕ) (c : Container) (rest : List ℕ)
    → n < 256
    → IsValid c
    → content c ≡ pack8 n ++ rest
    → Reads (get_next_n8 c) n (if ltb n 128 then rest else 1 ∷ rest)
unfolding get_next_n8 next_number
get_next_n8-pack8 n c rest h v e =
    let some_there : 0 < length c.compartments =
      compartments_pos c
        (omega (arith, ap length e, length-append (pack8 n) rest, (pack8_two n rest h).2)) in
    let (valid, holds) = skip-content 1 c v in
    record {
      rest = skip 1 c;
      returned = rw (peek-content 2 c v some_there, e, (pack8_two n rest h).0);
      valid = valid;
      holds = holds ∙ ap (drop 1) e ∙ (pack8_two n rest h).1;
    }
