-- ===== src/Fs/Bitmap/Scan.antt =====
-- What the scan of one block's words finds.
use sdios.Prelude.{
  ℕ, zero, suc, ◌/◌, ◌%◌, ◌+◌, ◌-◌, ◌*◌, ◌≤◌, ◌<◌, ◌^◌, ◌≡◌, ◌≢◌, refl, Bool, none, some, List, [],
  ◌∷◌, arith, ltb, ◌==◌, if◌then◌else◌, length, get_or, set, ap, ℕ_discrete,
}
use native.Mathlib.Nat.{mod-eq_of_lt}
use sdios.Fs.Words.{conv2, conv2-conv2, conv2-lt, conv2-ones}
use sdios.Fs.Bits.{
  bit_of, set_bit, lowest_clear, lowest_clear_lem, bit_of-set_bit, set_bit-lt, bit_of-ones,
}
use sdios.Fs.Bitmap.{scan_words, scan_from}

-- Each word fits sixteen bits.
abbrev pub AllWords : List ℕ → Type 0
AllWords [] = Unit {0}
AllWords (w ∷ ws) = (w < 2 ^ 16) × AllWords ws

-- Bit r of a row of words stored in the byte order `native`; past the end it counts as used.
unfoldable pub used : Bool → List ℕ → ℕ → ℕ
used native [] r = 1
used native (w ∷ ws) r =
    let rest = used native ws (r - 16) in if ltb r 16 then bit_of (conv2 native w) r else rest

-- A word other than sixteen ones has its lowest clear bit among the sixteen.
module _ (native : Bool) (w : ℕ) (fits : w < 2 ^ 16) (ne : w ≢ 65535) where
  open_word : conv2 native w + 1 ≢ 2 ^ 16
  open_word e = ne (conv2-ones native w fits (omega arith))

  pub lowest-lt : lowest_clear 16 (conv2 native w) < 16
  lowest-lt = (lowest_clear_lem 16 (conv2 native w) (conv2-lt native w) open_word).0

  pub lowest-clear : bit_of (conv2 native w) (lowest_clear 16 (conv2 native w)) ≡ 0
  lowest-clear = (lowest_clear_lem 16 (conv2 native w) (conv2-lt native w) open_word).1

  pub below-lowest : (r : ℕ) → r < lowest_clear 16 (conv2 native w) → bit_of (conv2 native w) r ≡ 1
  below-lowest = (lowest_clear_lem 16 (conv2 native w) (conv2-lt native w) open_word).2

  pub set_word :
      (r : ℕ)
      → let k = conv2 native w in
        bit_of (conv2 native (conv2 native (set_bit k (lowest_clear 16 k)))) r
        ≡ (if r == lowest_clear 16 k then 1 else bit_of k r)
  set_word r =
      let k = conv2 native w in
      let small : set_bit k (lowest_clear 16 k) < 2 ^ 16 =
        set_bit-lt 16 k (lowest_clear 16 k) (conv2-lt native w) lowest-lt in
      rw (conv2-conv2, mod-eq_of_lt small) (bit_of-set_bit k (lowest_clear 16 k) r)

full_word : (native : Bool) (w r : ℕ) → w ≡ 65535 → r < 16 → bit_of (conv2 native w) r ≡ 1
unfolding conv2
full_word native w r e l =
    let ones : conv2 native w ≡ 65535 = ground arith in rw ones (bit_of-ones 16 65535 r refl l)

-- The scan that finds a bit: it lies in the row, below the limit, and was clear.
pub scan_words-found :
    (native : Bool) (limit n : ℕ) (ws : List ℕ) (b : ℕ)
    → AllWords ws
    → (scan_words native limit n ws).0 ≡ some b
    → (n ≤ b) × (b < n + 16 * length ws) × (b < limit) × (used native ws (b - n) ≡ 0)
unfolding scan_words used
scan_words-found native limit n [] b a e = cc
scan_words-found native limit n (w ∷ ws) b a e = elim (ℕ_discrete w 65535) [
  | yes full ↦ ground (arith, scan_words-found native limit (n + 16) ws b a.1)
  | no ne ↦ ground (arith, lowest-lt native w a.0 ne, lowest-clear native w a.0 ne)
]

-- The scan changes the bit that it returns, from clear to set, and no other.
pub scan_words-used :
    (native : Bool) (limit n : ℕ) (ws : List ℕ) (b r : ℕ)
    → AllWords ws
    → (scan_words native limit n ws).0 ≡ some b
    → used native (scan_words native limit n ws).1 r ≡ (if r == b - n then 1 else used native ws r)
unfolding scan_words used
scan_words-used native limit n [] b r a e = cc
scan_words-used native limit n (w ∷ ws) b r a e = elim (ℕ_discrete w 65535) [
  | yes full ↦ ground (
    arith,
    scan_words-used native limit (n + 16) ws b (r - 16) a.1,
    scan_words-found native limit (n + 16) ws b a.1,
  )
  | no ne ↦ ground (arith, lowest-lt native w a.0 ne, set_word native w a.0 ne r)
]

-- A scan that finds nothing leaves the words as they are, and every bit below the limit is set.
pub scan_words-none :
    (native : Bool) (limit n : ℕ) (ws : List ℕ) (r : ℕ)
    → AllWords ws
    → (scan_words native limit n ws).0 ≡ none
    → n + r < limit
    → used native ws r ≡ 1
unfolding scan_words used
scan_words-none native limit n [] r a e l = refl
scan_words-none native limit n (w ∷ ws) r a e l = elim (ℕ_discrete w 65535) [
  | yes full ↦
      ground
        (arith, scan_words-none native limit (n + 16) ws (r - 16) a.1, full_word native w r full)
  | no ne ↦ ground (arith, lowest-lt native w a.0 ne, below-lowest native w a.0 ne r)
]

pub scan_from-found :
    (native : Bool) (limit n word : ℕ) (ws : List ℕ) (b : ℕ)
    → AllWords ws
    → (scan_from native limit n word ws).0 ≡ some b
    → (n ≤ b) × (b < n + 16 * length ws) × (b < limit) × (used native ws (b - n) ≡ 0)
unfolding scan_from used
scan_from-found native limit n zero ws b a e = scan_words-found native limit n ws b a e
scan_from-found native limit n (suc word) [] b a e = cc
scan_from-found native limit n (suc word) (w ∷ ws) b a e =
    ground (arith, scan_from-found native limit (n + 16) word ws b a.1)

pub scan_from-used :
    (native : Bool) (limit n word : ℕ) (ws : List ℕ) (b r : ℕ)
    → AllWords ws
    → (scan_from native limit n word ws).0 ≡ some b
    → used native (scan_from native limit n word ws).1 r
      ≡ (if r == b - n then 1 else used native ws r)
unfolding scan_from used
scan_from-used native limit n zero ws b r a e = scan_words-used native limit n ws b r a e
scan_from-used native limit n (suc word) [] b r a e = cc
scan_from-used native limit n (suc word) (w ∷ ws) b r a e = ground (
  arith,
  scan_from-used native limit (n + 16) word ws b (r - 16) a.1,
  scan_from-found native limit (n + 16) word ws b a.1,
)

pub scan_from-none :
    (native : Bool) (limit n word : ℕ) (ws : List ℕ) (r : ℕ)
    → AllWords ws
    → (scan_from native limit n word ws).0 ≡ none
    → 16 * word ≤ r
    → n + r < limit
    → used native ws r ≡ 1
unfolding scan_from used
scan_from-none native limit n zero ws r a e w l = scan_words-none native limit n ws r a e l
scan_from-none native limit n (suc word) [] r a e w l = refl
scan_from-none native limit n (suc word) (v ∷ ws) r a e w l =
    ground (arith, scan_from-none native limit (n + 16) word ws (r - 16) a.1)

-- The scan keeps the words in range, and their number.
pub scan_from-AllWords :
    (native : Bool) (limit n word : ℕ) (ws : List ℕ)
    → AllWords ws
    → AllWords (scan_from native limit n word ws).1
unfolding scan_from scan_words
scan_from-AllWords native limit n zero [] a = tt
scan_from-AllWords native limit n zero (w ∷ ws) a = ground (
  arith,
  scan_from-AllWords native limit (n + 16) zero ws a.1,
  conv2-lt native (set_bit (conv2 native w) (lowest_clear 16 (conv2 native w))),
)
scan_from-AllWords native limit n (suc word) [] a = tt
scan_from-AllWords native limit n (suc word) (w ∷ ws) a =
    (a.0, scan_from-AllWords native limit (n + 16) word ws a.1)

pub length-scan_from :
    (native : Bool) (limit n word : ℕ) (ws : List ℕ)
    → length (scan_from native limit n word ws).1 ≡ length ws
unfolding scan_from scan_words
length-scan_from native limit n zero [] = refl
length-scan_from native limit n zero (w ∷ ws) =
    ground (arith, length-scan_from native limit (n + 16) zero ws)
length-scan_from native limit n (suc word) [] = refl
length-scan_from native limit n (suc word) (w ∷ ws) =
    ap suc (length-scan_from native limit (n + 16) word ws)

module _ (native : Bool) where
  -- Bit r of the row is a bit of the word that holds it.
  pub used_in_word :
      (ws : List ℕ) (j r : ℕ)
      → r / 16 ≡ j
      → j < length ws
      → used native ws r ≡ bit_of (conv2 native (get_or ws j 0)) (r % 16)
  unfolding used
  used_in_word [] j r e l = absurd (omega arith)
  used_in_word (w ∷ ws) zero r e l = ground arith
  used_in_word (w ∷ ws) (suc j) r e l = ground (arith, used_in_word ws j (r - 16))

  -- Writing another word at j changes the sixteen bits of that word.
  pub used-set :
      (ws : List ℕ) (j r v : ℕ)
      → j < length ws
      → used native (set ws j v) r
        ≡ (if r / 16 == j then bit_of (conv2 native v) (r % 16) else used native ws r)
  unfolding used
  used-set [] j r v l = absurd (omega arith)
  used-set (w ∷ ws) zero r v l = ground arith
  used-set (w ∷ ws) (suc j) r v l = ground (arith, used-set ws j (r - 16) v)

pub AllWords-set : (ws : List ℕ) (j v : ℕ) → AllWords ws → v < 2 ^ 16 → AllWords (set ws j v)
AllWords-set [] j v a h = tt
AllWords-set (w ∷ ws) zero v a h = (h, a.1)
AllWords-set (w ∷ ws) (suc j) v a h = (a.0, AllWords-set ws j v a.1 h)
