-- ===== src/Histogram.antt =====
-- api/gc-histogram.h and src/freelist.h: linear-log buckets of sizes. A mask of low bits is a rest, and
-- `|` of parts that share no bit is a sum.
use native.Mathlib.Nat.{pow-succ', div-mul-le_self, le-div_iff_mul-le, div-div-eq-div-mul}
use native.Mathlib.Decide.{dec_lt}
use whippet.Base.{
  ℕ, zero, suc, ◌+◌, ◌-◌, ◌*◌, ◌/◌, ◌%◌, ◌^◌, ◌≤◌, ◌<◌, ◌≡◌, ◌∙◌, sym, ap, ltb, leb, ◌==◌,
  if◌then◌else◌, arith, lt→ltb, false,
}
use whippet.Base.Word.{◌<<<◌, ◌>>>◌}

-- 64 - `__builtin_clzll` of a 64-bit number: how many bits it takes. Fuel is 64 bits.
unfoldable pub bit_length : ℕ → ℕ → ℕ
bit_length zero val = 0
bit_length (suc fuel) val = let rest = bit_length fuel (val / 2) in if val == 0 then 0 else suc rest

abbrev pub clamp : ℕ → ℕ → ℕ
clamp limit idx = if leb limit idx then limit else idx

unfoldable pub bucket : ℕ → ℕ → ℕ → ℕ
unfolding bit_length
bucket max_value_bits precision val =
    let small = ltb val (2 ^ precision) in
    let major = if small then 0 else bit_length 64 val - precision in
    let minor = if small then val else (val >>> (major - 1)) % 2 ^ precision in
    clamp (max_value_bits <<< precision) ((major <<< precision) + minor)

unfoldable pub bucket_min_val : ℕ → ℕ → ℕ
bucket_min_val precision idx =
    let major = idx >>> precision in
    let minor = idx % 2 ^ precision in
    if major == 0 then minor else (2 ^ precision + minor) <<< (major - 1)

-- `name##_num_size_classes` of a freelist.
abbrev pub num_size_classes : ℕ → ℕ → ℕ
num_size_classes max_value_bits precision = max_value_bits <<< precision + 1

clamp-le : (limit idx : ℕ) → clamp limit idx ≤ limit
clamp-le limit idx = ground arith

-- A bucket is one of the size classes.
pub bucket-le :
    (max_value_bits precision val : ℕ)
    → bucket max_value_bits precision val ≤ max_value_bits <<< precision
unfolding bucket
bucket-le max_value_bits precision val = clamp-le (max_value_bits <<< precision) _

-- The larger of two numbers takes as many bits or more.
bit_length-le : (fuel a b : ℕ) → a ≤ b → bit_length fuel a ≤ bit_length fuel b
unfolding bit_length
bit_length-le zero a b h = omega arith
bit_length-le (suc fuel) a b h = ground (arith, bit_length-le fuel (a / 2) (b / 2))

bits_pos : (fuel a : ℕ) → a < 2 ^ fuel → bit_length fuel a ≡ 0 → a ≡ 0
unfolding bit_length
bits_pos zero a h e = omega arith
bits_pos (suc fuel) a h e = ground arith

-- A number of so many bits.
bits_bounds :
    (fuel k a : ℕ) → a < 2 ^ fuel → bit_length fuel a ≡ suc k → (2 ^ k ≤ a) × (a < 2 ^ suc k)
unfolding bit_length
bits_bounds zero k a h e = absurd (omega arith)
bits_bounds (suc fuel) zero a h e = ground (arith, bits_pos fuel (a / 2), pow-succ' 2 fuel)
bits_bounds (suc fuel) (suc k) a h e =
    ground (arith, bits_bounds fuel k (a / 2), pow-succ' 2 fuel, pow-succ' 2 k, pow-succ' 2 (suc k))

-- The first three bits of a number, from 4 to 7, behind which it has `k` more.
leading :
    (fuel k a : ℕ) → a < 2 ^ fuel → bit_length fuel a ≡ k + 3 → (4 ≤ a / 2 ^ k) × (a / 2 ^ k < 8)
unfolding bit_length
leading fuel zero a h e = omega (arith, bits_bounds fuel 2 a h e)
leading zero (suc k) a h e = absurd (omega arith)
leading (suc fuel) (suc k) a h e =
    let halves : a / 2 ^ suc k ≡ a / 2 / 2 ^ k =
      ap (λ (t : ℕ). a / t) (pow-succ' 2 k) ∙ sym (div-div-eq-div-mul a 2 (2 ^ k)) in
    rw halves (ground (arith, leading fuel k (a / 2), pow-succ' 2 fuel))

three_bits : (fuel a : ℕ) → a < 2 ^ fuel → 4 ≤ a → 3 ≤ bit_length fuel a
unfolding bit_length
three_bits zero a h le = absurd (omega arith)
three_bits (suc zero) a h le = absurd (omega arith)
three_bits (suc (suc zero)) a h le = absurd (omega arith)
three_bits (suc (suc (suc fuel))) a h le = ground arith

-- The bucket, with two bits behind the first: of a small value, and of a large one.
bucket_small : (a : ℕ) → a < 4 → bucket 63 2 a ≡ clamp 252 a
unfolding bucket
bucket_small a h = let idx : 0 * 4 + a ≡ a = omega arith in rw (lt→ltb a 4 h) (ap (clamp 252) idx)

bucket_large :
    (a : ℕ)
    → 4 ≤ a
    → a < 2 ^ 64
    → bucket 63 2 a ≡ clamp 252 ((bit_length 64 a - 2) * 4 + (a / 2 ^ (bit_length 64 a - 3) - 4))
unfolding bucket
bucket_large a h fits =
    let big : ltb a 4 ≡ false = ground arith in
    let bits = three_bits 64 a fits h in
    let k = bit_length 64 a - 3 in
    let lead = leading 64 k a fits (omega arith) in
    let shift : bit_length 64 a - 2 - 1 ≡ k = omega arith in
    let q = a / 2 ^ k in
    let idx : (bit_length 64 a - 2) * 4 + q % 4 ≡ (bit_length 64 a - 2) * 4 + (q - 4) =
      omega (arith, lead) in
    rw (big, shift) (ap (clamp 252) idx)

pub two_pow_pos : (k : ℕ) → 0 < 2 ^ k
two_pow_pos zero = omega arith
two_pow_pos (suc k) = omega (arith, pow-succ' 2 k, two_pow_pos k)

pub div_mono : (a b d : ℕ) → 0 < d → a ≤ b → a / d ≤ b / d
div_mono a b d p h = (le-div_iff_mul-le p).1 (omega (arith, div-mul-le_self a d))

clamp_mono : (limit a b : ℕ) → a ≤ b → clamp limit a ≤ clamp limit b
clamp_mono limit a b h = ground arith

larger-bucket :
    (k l x y : ℕ)
    → k ≤ l
    → 3 ≤ k
    → x < 8
    → 4 ≤ y
    → (k ≡ l → x ≤ y)
    → (k - 2) * 4 + (x - 4) ≤ (l - 2) * 4 + (y - 4)
larger-bucket k l x y le three hx hy same = ground arith

-- The bucket of a larger value is not before that of a smaller one.
pub bucket-le-bucket : (a b : ℕ) → a ≤ b → b < 2 ^ 64 → bucket 63 2 a ≤ bucket 63 2 b
bucket-le-bucket a b h fits = elim (dec_lt b 4) [
  | yes small ↦ rw (bucket_small a (omega arith), bucket_small b small) (clamp_mono 252 a b h)
  | no large ↦ elim (dec_lt a 4) [
    | yes small ↦
        rw (bucket_small a small, bucket_large b (omega arith) fits)
          (clamp_mono 252 a ((bit_length 64 b - 2) * 4 + (b / 2 ^ (bit_length 64 b - 3) - 4))
            (omega (arith, three_bits 64 b fits (omega arith))))
    | no large' ↦
        let pa = three_bits 64 a (omega arith) (omega arith) in
        let pb = three_bits 64 b fits (omega arith) in
        let la = leading 64 (bit_length 64 a - 3) a (omega arith) (omega arith) in
        let lb = leading 64 (bit_length 64 b - 3) b fits (omega arith) in
        rw (bucket_large a (omega arith) (omega arith), bucket_large b (omega arith) fits)
          (clamp_mono 252 _ _ (
            larger-bucket (bit_length 64 a) (bit_length 64 b) (a / 2 ^ (bit_length 64 a - 3))
              (b / 2 ^ (bit_length 64 b - 3)) (bit_length-le 64 a b h) pa la.1 lb.0
              (λ e.
                rw e (
                  div_mono a b (2 ^ (bit_length 64 b - 3)) (two_pow_pos (bit_length 64 b - 3)) h))))
  ]
]
