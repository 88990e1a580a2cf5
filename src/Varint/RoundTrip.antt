-- ===== src/Varint/RoundTrip.antt =====
-- The unpackers of formats/varint on what the packers write.
use native.Mathlib.Nat.{pow-suc}
use portbase.Prelude.{
  ℕ, zero, suc, ◌+◌, ◌*◌, ◌/◌, ◌%◌, ◌^◌, ◌≤◌, ◌<◌, ◌≡◌, refl, ◌∙◌, ap, List, [], ◌∷◌, ◌++◌, ltb,
  if◌then◌else◌, ok, length, arith, Bool-cases, inl, inr, ltb→lt,
}
use portbase.Prelude.Bytes.{low_bits}
use portbase.Varint.{
  value, uvarint, uvarint_loop, pack8, pack16, pack32, pack64, unpack8, unpack16, unpack32,
  unpack64,
}
use portbase.Varint.Encoding.{groups, pack16-groups, pack32-groups, pack64-groups}

-- One round on a last byte, and on a byte with the top bit set over the group `g`.
last_byte :
    (b i unit acc : ℕ) (rest : List ℕ)
    → b < 128
    → i ≤ 9
    → (i ≡ 9 → b ≤ 1)
    → acc + b * unit < 2 ^ 64
    → uvarint_loop (b ∷ rest) i unit acc ≡ value (acc + b * unit) (i + 1)
unfolding uvarint_loop
last_byte b i unit acc rest hb hi h9 fits = grind arith

inner_byte :
    (g i unit acc : ℕ) (rest : List ℕ)
    → g < 128
    → i ≤ 9
    → acc + g * unit < 2 ^ 64
    → uvarint_loop ((g + 128) ∷ rest) i unit acc
      ≡ uvarint_loop rest (i + 1) (unit * 128) (acc + g * unit)
unfolding uvarint_loop
inner_byte g i unit acc rest hg hi fits = ground (arith, low_bits (g + 128))

split_group : (x unit : ℕ) → x * unit ≡ x % 128 * unit + x / 128 * (unit * 128)
split_group x unit = omega (arith, ap (λ (t : ℕ). t * unit) (div_mod x))
  where
    div_mod : (x : ℕ) → x ≡ x % 128 + 128 * (x / 128)
    div_mod x = omega arith

-- At the tenth byte `unit` is 2 ^ 63.
module _ (i k unit : ℕ) (top : i + suc k ≡ 9 → unit * 128 ^ suc k ≡ 2 ^ 63) where
  next_top : i + 1 + k ≡ 9 → unit * 128 * 128 ^ k ≡ 2 ^ 63
  next_top e = omega (arith, top (omega arith), ap (λ (t : ℕ). unit * t) (pow-suc 128 k))

last_fits :
    (x i unit acc : ℕ)
    → (i + 0 ≡ 9 → unit * 128 ^ 0 ≡ 2 ^ 63)
    → acc + x * unit < 2 ^ 64
    → i ≡ 9
    → x ≤ 1
last_fits x i unit acc top fits e =
    let u : unit ≡ 2 ^ 63 = omega (arith, top (omega arith)) in
    omega (arith, ap (λ (t : ℕ). x * t) u)

-- With `i` bytes read, `k` more groups may come, ten in all.
uvarint_loop-groups :
    (k x i unit acc : ℕ) (rest : List ℕ)
    → i + k ≤ 9
    → (i + k ≡ 9 → unit * 128 ^ k ≡ 2 ^ 63)
    → x < 128 ^ suc k
    → acc + x * unit < 2 ^ 64
    → uvarint_loop (groups k x ++ rest) i unit acc
      ≡ value (acc + x * unit) (i + length (groups k x))
unfolding groups
uvarint_loop-groups zero x i unit acc rest hi top hx fits =
    last_byte x i unit acc rest (omega arith) (omega arith) (last_fits x i unit acc top fits) fits
uvarint_loop-groups (suc k) x i unit acc rest hi top hx fits = elim (Bool-cases (ltb x 128)) [
  | inl small ↦ rw small (
      last_byte x i unit acc rest (ltb→lt _ _ small) (omega arith) (λ e. absurd (omega arith)) fits)
  | inr large ↦ rw large (
      inner_byte (x % 128) i unit acc (groups k (x / 128) ++ rest) (omega arith) (omega arith)
        (omega (arith, split_group x unit))
      ∙ uvarint_loop-groups k (x / 128) (i + 1) (unit * 128) (acc + x % 128 * unit) rest
          (omega arith) (next_top i k unit top) (omega (arith, pow-suc 128 (suc k)))
          (omega (arith, split_group x unit))
      ∙ ground (arith, split_group x unit))
]

uvarint-groups :
    (k x : ℕ) (rest : List ℕ)
    → k ≤ 9
    → x < 128 ^ suc k
    → x < 2 ^ 64
    → uvarint (groups k x ++ rest) ≡ value x (length (groups k x))
unfolding uvarint
uvarint-groups k x rest hk hx h =
    uvarint_loop-groups k x 0 1 0 rest (omega arith) (top k) hx (omega arith) ∙ ground arith
  where
    top : (k : ℕ) → 0 + k ≡ 9 → 1 * 128 ^ k ≡ 2 ^ 63
    top k e = let e' : k ≡ 9 = omega arith in rw e' refl

pub unpack64-groups :
    (n : ℕ) (rest : List ℕ)
    → n < 2 ^ 64
    → unpack64 (groups 9 n ++ rest) ≡ ok (n, length (groups 9 n))
unfolding unpack64
unpack64-groups n rest h = rw (uvarint-groups 9 n rest (omega arith) (omega arith) h)

-- Pack64 panics for no uint64, and whatever follows its bytes, Unpack64 reads the number back and
-- says how many bytes it took.
pub unpack64-pack64 :
    (n : ℕ) (rest : List ℕ)
    → n < 2 ^ 64
    → (buf : List ℕ) × (pack64 n ≡ ok buf) × (unpack64 (buf ++ rest) ≡ ok (n, length buf))
unpack64-pack64 n rest h = (groups 9 n, pack64-groups n h, unpack64-groups n rest h)

-- Pack32 panics for no uint32, and whatever follows its bytes, Unpack32 reads the number back and
-- says how many bytes it took.
pub unpack32-pack32 :
    (n : ℕ) (rest : List ℕ)
    → n < 2 ^ 32
    → (buf : List ℕ) × (pack32 n ≡ ok buf) × (unpack32 (buf ++ rest) ≡ ok (n, length buf))
unfolding unpack32
unpack32-pack32 n rest h = (groups 4 n, pack32-groups n h, ground (arith, uvarint-groups 4 n rest))

-- The same for uint16.
pub unpack16-pack16 :
    (n : ℕ) (rest : List ℕ)
    → n < 2 ^ 16
    → (buf : List ℕ) × (pack16 n ≡ ok buf) × (unpack16 (buf ++ rest) ≡ ok (n, length buf))
unfolding unpack16
unpack16-pack16 n rest h = (groups 2 n, pack16-groups n h, ground (arith, uvarint-groups 2 n rest))

-- Unpack8 reads back every uint8 that Pack8 wrote, but reports one byte as used also where Pack8
-- wrote two: for the values from 128 on.
pub unpack8-pack8 :
    (n : ℕ) (rest : List ℕ)
    → n < 256
    → (unpack8 (pack8 n ++ rest) ≡ ok (n, 1)) × (length (pack8 n) ≡ (if ltb n 128 then 1 else 2))
unfolding pack8 unpack8
unpack8-pack8 n [] h = ground arith
unpack8-pack8 n (b ∷ rest) h = ground arith
