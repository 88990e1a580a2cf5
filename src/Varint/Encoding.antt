-- ===== src/Varint/Encoding.antt =====
-- What the functions of formats/varint write, against the groups of seven bits of the number.
use Prim.Native.Nat.{bit_or}
use native.Mathlib.Nat.{pow-suc}
use portbase.Prelude.{
  ℕ, zero, suc, ◌+◌, ◌*◌, ◌/◌, ◌%◌, ◌^◌, ◌≤◌, ◌<◌, ◌≡◌, ◌∙◌, List, [], ◌∷◌, ltb, if◌then◌else◌, ok,
  All, length, arith, Bool-cases, inl, inr, ltb→lt,
}
use portbase.Prelude.Bytes.{IsByte, set_top_bit}
use portbase.Varint.{put_uvarint, pack16, pack32, pack64, encoded_size}

-- The groups of seven bits of `x`, the lowest first, all but the last with the top bit set.
unfoldable pub groups : ℕ → ℕ → List ℕ
groups zero x = x ∷ []
groups (suc k) x =
    let rest = groups k (x / 128) in if ltb x 128 then x ∷ [] else (x % 128 + 128) ∷ rest

group_bit : (x : ℕ) → bit_or (x % 256) 0x80 ≡ x % 128 + 128
group_bit x = set_top_bit (x % 256) (omega arith) ∙ omega arith

pub put_uvarint-groups : (k x : ℕ) → x < 128 ^ suc k → put_uvarint (suc k) x ≡ ok (groups k x)
unfolding put_uvarint groups
put_uvarint-groups zero x h = ground arith
put_uvarint-groups (suc k) x h = elim (Bool-cases (ltb x 128)) [
  | inl small ↦ rw small
  | inr large ↦
      rw (large, put_uvarint-groups k (x / 128) (omega (arith, pow-suc 128 (suc k))), group_bit x)
]

-- Every uint16, uint32 and uint64 is packed, with no panic, as its groups.
pub pack16-groups : (n : ℕ) → n < 2 ^ 16 → pack16 n ≡ ok (groups 2 n)
unfolding pack16
pack16-groups n h = put_uvarint-groups 2 n (omega arith)

pub pack32-groups : (n : ℕ) → n < 2 ^ 32 → pack32 n ≡ ok (groups 4 n)
unfolding pack32
pack32-groups n h = put_uvarint-groups 4 n (omega arith)

pub pack64-groups : (n : ℕ) → n < 2 ^ 64 → pack64 n ≡ ok (groups 9 n)
unfolding pack64
pack64-groups n h = put_uvarint-groups 9 n (omega arith)

pub groups-IsByte : (k x : ℕ) → x < 2 * 128 ^ k → All IsByte (groups k x)
unfolding groups
groups-IsByte zero x h = omega arith
groups-IsByte (suc k) x h = elim (Bool-cases (ltb x 128)) [
  | inl small ↦ rw small (omega (arith, ltb→lt _ _ small))
  | inr large ↦ rw large (omega arith, groups-IsByte k (x / 128) (omega (arith, pow-suc 128 k)))
]

pub length-groups_bounds : (k x : ℕ) → (1 ≤ length (groups k x)) × (length (groups k x) ≤ k + 1)
unfolding groups
length-groups_bounds zero x = omega arith
length-groups_bounds (suc k) x = ground (arith, length-groups_bounds k (x / 128))

-- For every uint64, Pack64 does not panic and writes as many bytes as EncodedSize says, each below 256.
pub encoded_size-pack64 :
    (n : ℕ)
    → n < 2 ^ 64
    → (buf : List ℕ) × (pack64 n ≡ ok buf) × (length buf ≡ encoded_size n) × All IsByte buf
unfolding encoded_size groups
encoded_size-pack64 n h =
    (groups 9 n, pack64-groups n h, ground arith, groups-IsByte 9 n (omega arith))
