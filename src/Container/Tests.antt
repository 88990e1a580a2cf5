-- ===== src/Container/Tests.antt =====
-- Runs of a container at concrete inputs, and its theorems at containers that meet their premises.
use portbase.Prelude.{◌≡◌, refl, [], ◌∷◌, none, ltb, ok, err, panic, arith}
use portbase.Prelude.Int.{pos}
use portbase.Varint.Encoding.{groups}
use portbase.Container.{
  Container, new, prepend, append_as_block, total_length, holds_data, compile_data, get, get_all,
  get_max, get_as_container, get_next_n64, get_next_block, get_next_block_as_container,
  append_container, not_enough_data, set_front,
}
use portbase.Container.Valid.{content, IsValid, append_container-IsValid}
use portbase.Container.Whole.{holds_data-length, compile_data-content}
use portbase.Container.Read.{Reads, get_too_few}
use portbase.Container.Drain.{get_all-Reads, get_max-Reads}
use portbase.Container.Blocks.{Holds, append_as_block-Holds, get_next_block-Holds}
use portbase.Container.Parts.{get_as_container_too_few, get_next_block_as_container-content}
use portbase.Container.Faults.{get-new_panics}

-- Two slices, and one of them already read.
abbrev two : Container
two = record { compartments = (1 ∷ 2 ∷ []) ∷ (3 ∷ []) ∷ []; offset = 0; fault = none }

abbrev half_read : Container
half_read = record { compartments = [] ∷ (3 ∷ []) ∷ []; offset = 1; fault = none }

two-IsValid : IsValid two
two-IsValid = record { in_range = omega arith; cleared = refl }

half_read-IsValid : IsValid half_read
half_read-IsValid = record { in_range = omega arith; cleared = refl }

prepend_run :
    prepend (9 ∷ []) half_read
    ≡ ok (record half_read { compartments = (9 ∷ []) ∷ (3 ∷ []) ∷ []; offset = 0 })
unfolding prepend set_front
prepend_run = refl

append_container-IsValid_example :
    IsValid (append_container half_read two)
    × (content (append_container half_read two) ≡ 1 ∷ 2 ∷ 3 ∷ 3 ∷ [])
append_container-IsValid_example =
    append_container-IsValid half_read two half_read-IsValid two-IsValid

holds_data-length_example : (holds_data two ≡ ltb 0 (total_length two)) × (total_length two ≡ 3)
holds_data-length_example = holds_data-length two

compile_data-content_example :
    (c' : Container) × (compile_data two ≡ ok (1 ∷ 2 ∷ 3 ∷ [], c'))
    × IsValid c'
    × (content c' ≡ 1 ∷ 2 ∷ 3 ∷ [])
compile_data-content_example = compile_data-content two two-IsValid

get_too_few_example : get (pos 4) two ≡ err not_enough_data
get_too_few_example = get_too_few 4 two two-IsValid (omega arith) (omega arith)

get_all-Reads_example : Reads (get_all half_read) (3 ∷ []) []
get_all-Reads_example = get_all-Reads half_read half_read-IsValid

get_max-Reads_example : Reads (get_max (pos 9) two) (1 ∷ 2 ∷ 3 ∷ []) []
get_max-Reads_example = get_max-Reads 9 two two-IsValid (omega arith)

abbrev one_block : Container
one_block = record { compartments = (2 ∷ []) ∷ (7 ∷ 8 ∷ []) ∷ []; offset = 0; fault = none }

one_block-Holds : Holds one_block ((7 ∷ 8 ∷ []) ∷ [])
unfolding groups
one_block-Holds = record {
  valid = record { in_range = omega arith; cleared = refl };
  queued = refl;
}

append_as_block-Holds_example :
    (c' : Container) × (append_as_block (5 ∷ []) one_block ≡ ok c')
    × Holds c' ((7 ∷ 8 ∷ []) ∷ (5 ∷ []) ∷ [])
append_as_block-Holds_example =
    append_as_block-Holds (5 ∷ []) _ one_block (omega arith) one_block-Holds

get_next_block-Holds_example :
    (c' : Container) × (get_next_block one_block ≡ ok (7 ∷ 8 ∷ [], c')) × Holds c' []
get_next_block-Holds_example =
    get_next_block-Holds (7 ∷ 8 ∷ []) [] one_block (omega arith) one_block-Holds

get_as_container_too_few_run : get_as_container (pos 4) two ≡ err not_enough_data
get_as_container_too_few_run = get_as_container_too_few 4 two (omega arith)

get_next_block_as_container-content_example :
    (part : Container) × (content part ≡ 7 ∷ 8 ∷ [])
    × IsValid part
    × Reads (get_next_block_as_container one_block) part []
get_next_block_as_container-content_example =
    get_next_block_as_container-content (7 ∷ 8 ∷ []) [] one_block (omega arith)
      one_block-Holds.valid one_block-Holds.queued

get-new_panics_example : (get (pos 3) (new []) ≡ panic) × (get_next_n64 (new []) ≡ panic)
get-new_panics_example = get-new_panics 2
