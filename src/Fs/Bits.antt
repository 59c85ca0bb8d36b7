-- ===== src/Fs/Bits.antt =====
-- The bit operations on one word that the file server writes as `k & (1 << i)`, `k |= 1 << i` and
-- `k &= ~(1 << i)`, by recursion on the bit number.
use sdios.Prelude.{
  ℕ, zero, suc, ◌+◌, ◌*◌, ◌/◌, ◌%◌, ◌^◌, ◌≤◌, ◌<◌, ◌≡◌, ◌≢◌, arith, ◌==◌, if◌then◌else◌, Bool-cases,
  inl, inr,
}
use native.Mathlib.Nat.{pow-suc}

-- bit i of k, as 0 or 1
unfoldable pub bit_of : ℕ → ℕ → ℕ
bit_of k zero = k % 2
bit_of k (suc i) = bit_of (k / 2) i

unfoldable pub set_bit : ℕ → ℕ → ℕ
set_bit k zero = (k / 2) * 2 + 1
set_bit k (suc i) = set_bit (k / 2) i * 2 + k % 2

unfoldable pub clear_bit : ℕ → ℕ → ℕ
clear_bit k zero = (k / 2) * 2
clear_bit k (suc i) = clear_bit (k / 2) i * 2 + k % 2

-- `for (i = 0; (k & (1 << i)) != 0; ++i) {}` with the width of the word as its fuel.
unfoldable pub lowest_clear : ℕ → ℕ → ℕ
lowest_clear zero k = 0
lowest_clear (suc f) k = let rest = lowest_clear f (k / 2) in if k % 2 == 0 then 0 else suc rest

pub bit_of-le : (k i : ℕ) → bit_of k i ≤ 1
unfolding bit_of
bit_of-le k zero = omega arith
bit_of-le k (suc i) = bit_of-le (k / 2) i

pub bit_of-set_bit : (k i j : ℕ) → bit_of (set_bit k i) j ≡ (if j == i then 1 else bit_of k j)
unfolding bit_of set_bit
bit_of-set_bit k zero zero = omega arith
bit_of-set_bit k zero (suc j) =
    let e : ((k / 2) * 2 + 1) / 2 ≡ k / 2 = omega arith in ground (arith, e)
bit_of-set_bit k (suc i) zero = ground arith
bit_of-set_bit k (suc i) (suc j) =
    let e : (set_bit (k / 2) i * 2 + k % 2) / 2 ≡ set_bit (k / 2) i = omega arith in
    ground (arith, e, bit_of-set_bit (k / 2) i j)

pub bit_of-clear_bit : (k i j : ℕ) → bit_of (clear_bit k i) j ≡ (if j == i then 0 else bit_of k j)
unfolding bit_of clear_bit
bit_of-clear_bit k zero zero = omega arith
bit_of-clear_bit k zero (suc j) =
    let e : ((k / 2) * 2) / 2 ≡ k / 2 = omega arith in ground (arith, e)
bit_of-clear_bit k (suc i) zero = ground arith
bit_of-clear_bit k (suc i) (suc j) =
    let e : (clear_bit (k / 2) i * 2 + k % 2) / 2 ≡ clear_bit (k / 2) i = omega arith in
    ground (arith, e, bit_of-clear_bit (k / 2) i j)

-- Setting a clear bit and clearing it again is the identity.
pub clear_bit-set_bit : (k i : ℕ) → bit_of k i ≡ 0 → clear_bit (set_bit k i) i ≡ k
unfolding bit_of set_bit clear_bit
clear_bit-set_bit k zero h = omega arith
clear_bit-set_bit k (suc i) h =
    let e : (set_bit (k / 2) i * 2 + k % 2) / 2 ≡ set_bit (k / 2) i = omega arith in
    ground (arith, e, clear_bit-set_bit (k / 2) i h)

-- A bit below the width keeps the word within the width.
pub set_bit-lt : (w k i : ℕ) → k < 2 ^ w → i < w → set_bit k i < 2 ^ w
unfolding set_bit
set_bit-lt zero k i h l = absurd (omega arith)
set_bit-lt (suc w) k zero h l = omega (arith, pow-suc 2 w)
set_bit-lt (suc w) k (suc i) h l =
    let below : k / 2 < 2 ^ w = omega (arith, pow-suc 2 w) in
    omega (arith, pow-suc 2 w, set_bit-lt w (k / 2) i below (omega arith))

-- A word below 2 ^ f that is not all ones has a clear bit, and the loop stops at the lowest.
pub lowest_clear_lem :
    (f k : ℕ)
    → k < 2 ^ f
    → k + 1 ≢ 2 ^ f
    → (lowest_clear f k < f)
      × (bit_of k (lowest_clear f k) ≡ 0)
      × ((j : ℕ) → j < lowest_clear f k → bit_of k j ≡ 1)
unfolding lowest_clear bit_of
lowest_clear_lem zero k h ne = absurd (omega arith)
lowest_clear_lem (suc f) k h ne = elim (Bool-cases (k % 2 == 0)) [
  | inl e ↦ rw (e, lowest_clear) (omega arith, ground arith, λ j l. absurd (omega arith))
  | inr e ↦
      let odd : k % 2 ≡ 1 = ground arith in
      let below : k / 2 < 2 ^ f = omega (arith, pow-suc 2 f) in
      let not_ones : k / 2 + 1 ≢ 2 ^ f = omega (arith, pow-suc 2 f) in
      let rest = lowest_clear_lem f (k / 2) below not_ones in
      rw (e, lowest_clear) (omega (arith, rest.0), rest.1, lower odd rest.2)
]
  where
    lower :
        k % 2 ≡ 1
        → ((j : ℕ) → j < lowest_clear f (k / 2) → bit_of (k / 2) j ≡ 1)
        → (j : ℕ) → j < suc (lowest_clear f (k / 2))
        → bit_of k j ≡ 1
    lower odd rest zero l = odd
    lower odd rest (suc j) l = rest j (omega arith)

-- A word of f ones has every bit below f set.
pub bit_of-ones : (f k r : ℕ) → k + 1 ≡ 2 ^ f → r < f → bit_of k r ≡ 1
unfolding bit_of
bit_of-ones zero k r e l = absurd (omega arith)
bit_of-ones (suc f) k zero e l = omega (arith, pow-suc 2 f)
bit_of-ones (suc f) k (suc r) e l =
    let half : k / 2 + 1 ≡ 2 ^ f = omega (arith, pow-suc 2 f) in
    bit_of-ones f (k / 2) r half (omega arith)

pub clear_bit-le : (k i : ℕ) → clear_bit k i ≤ k
unfolding clear_bit
clear_bit-le k zero = omega arith
clear_bit-le k (suc i) = omega (arith, clear_bit-le (k / 2) i)
