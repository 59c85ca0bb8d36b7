-- ===== src/Fs/Words.antt =====
-- Byte order: conv2 and conv4 of sdios/src/minix3fs/servers/fs/utility.c. A word is the number
-- of its bit pattern; `or` of two disjoint fields is their sum.
mod Tests
use sdios.Prelude.{ℕ, ◌+◌, ◌*◌, ◌/◌, ◌%◌, ◌^◌, ◌<◌, ◌≡◌, Bool, true, false, arith, if◌then◌else◌}

-- `norm` true leaves the low 16 bits as they are, false exchanges the two low bytes.
unfoldable pub conv2 : Bool → ℕ → ℕ
conv2 norm w = if norm then w % 2 ^ 16 else (w % 2 ^ 8) * 2 ^ 8 + (w / 2 ^ 8) % 2 ^ 8

-- `norm` true leaves the word alone, false reverses its four bytes by two calls of conv2.
unfoldable pub conv4 : Bool → ℕ → ℕ
unfolding conv2
conv4 norm x =
    if norm then x else conv2 false (x % 2 ^ 16) * 2 ^ 16 + conv2 false ((x / 2 ^ 16) % 2 ^ 16)

pub conv2-lt : (norm : Bool) (w : ℕ) → conv2 norm w < 2 ^ 16
unfolding conv2
conv2-lt true w = omega arith
conv2-lt false w = omega arith

-- Swapping twice gives back the low 16 bits, in either byte order.
pub conv2-conv2 : (norm : Bool) (w : ℕ) → conv2 norm (conv2 norm w) ≡ w % 2 ^ 16
unfolding conv2
conv2-conv2 true w = omega arith
conv2-conv2 false w = omega arith

-- Swapping a 32-bit word twice gives it back, in either byte order.
pub conv4-conv4 : (norm : Bool) (x : ℕ) → x < 2 ^ 32 → conv4 norm (conv4 norm x) ≡ x
unfolding conv4
conv4-conv4 true x h = omega arith
conv4-conv4 false x h = omega arith

pub conv4-lt : (norm : Bool) (x : ℕ) → x < 2 ^ 32 → conv4 norm x < 2 ^ 32
unfolding conv4
conv4-lt true x h = omega arith
conv4-lt false x h = omega arith

-- The word of sixteen ones is the same in both byte orders, and no other word becomes it.
pub conv2-ones : (norm : Bool) (w : ℕ) → w < 2 ^ 16 → conv2 norm w ≡ 65535 → w ≡ 65535
unfolding conv2
conv2-ones true w h e = omega arith
conv2-ones false w h e = omega arith
