-- ===== src/Varint/Tests.antt =====
-- Runs of formats/varint at concrete inputs, and its theorems at inputs that meet their premises.
use portbase.Prelude.{ℕ, ◌+◌, ◌^◌, ◌≡◌, refl, List, [], ◌∷◌, ◌++◌, ok, err, panic, length, arith}
use portbase.Varint.{
  over_uint8, over_uint16, buf_too_small, pack16, pack64, unpack8, unpack16, unpack64,
  get_next_block,
}
use portbase.Varint.RoundTrip.{unpack64-pack64, unpack16-pack16}
use portbase.Varint.Blocks.{get_next_block_panics}

pack64_300 : pack64 300 ≡ ok (0xac ∷ 0x02 ∷ [])
unfolding pack64
pack64_300 = refl

unpack16_too_wide : unpack16 (0xff ∷ 0xff ∷ 0x7f ∷ []) ≡ err over_uint16
unfolding unpack16
unpack16_too_wide = refl

unpack8_too_wide : unpack8 (0x80 ∷ 0x02 ∷ []) ≡ err over_uint8
unfolding unpack8
unpack8_too_wide = refl

unpack64_cut : unpack64 (0x80 ∷ []) ≡ err buf_too_small
unfolding unpack64
unpack64_cut = refl

unpack64-pack64_example :
    (buf : List ℕ) × (pack64 300 ≡ ok buf) × (unpack64 (buf ++ (7 ∷ [])) ≡ ok (300, length buf))
unpack64-pack64_example = unpack64-pack64 300 (7 ∷ []) (omega arith)

unpack16-pack16_example :
    (buf : List ℕ) × (pack16 300 ≡ ok buf) × (unpack16 (buf ++ (7 ∷ [])) ≡ ok (300, length buf))
unpack16-pack16_example = unpack16-pack16 300 (7 ∷ []) (omega arith)

get_next_block_panics_example :
    (buf : List ℕ) × (pack64 (2 ^ 63 + 5) ≡ ok buf) × (get_next_block (buf ++ (1 ∷ [])) ≡ panic)
get_next_block_panics_example =
    get_next_block_panics (2 ^ 63 + 5) (1 ∷ []) (omega arith) (omega arith)
