-- ===== src/Fs/Bitmap/Search.antt =====
-- The loop over the blocks of a map: which blocks it visits, and what it comes back with.
use sdios.Prelude.{
  ℕ, zero, suc, ◌+◌, ◌-◌, ◌*◌, ◌≤◌, ◌<◌, ◌≡◌, ◌⊎◌, inl, inr, refl, Bool, Option, none, some, List,
  arith, ltb, if◌then◌else◌, Option-cases, dec_lt,
}
use sdios.Fs.Bitmap.{Store, write_block, scan_from, search_blocks, next_block}

-- The block that the loop reads in its round j.
pub visited : ℕ → ℕ → ℕ → ℕ
visited blocks block zero = block
visited blocks block (suc j) = visited blocks (next_block blocks block) j

pub visited_lem :
    (blocks block j : ℕ)
    → block < blocks
    → j ≤ blocks
    → visited blocks block j ≡ (if ltb (block + j) blocks then block + j else block + j - blocks)
unfolding visited
visited_lem blocks block zero b l = ground arith
visited_lem blocks block (suc j) b l = elim (dec_lt (block + 1) blocks) [
  | yes more ↦ ground (arith, visited_lem blocks (block + 1) j more)
  | no last ↦ ground (arith, visited_lem blocks 0 j)
]

-- Each block is read in some round after the first, so from its first word.
pub visited-all :
    (blocks block i : ℕ)
    → block < blocks
    → i < blocks
    → (j : ℕ) × (0 < j) × (j ≤ blocks) × (visited blocks block j ≡ i)
visited-all blocks block i b l = elim (dec_lt block i) [
  | yes above ↦
      (i - block, omega arith, omega arith, ground (arith, visited_lem blocks block (i - block)))
  | no below ↦ (
    blocks - block + i,
    omega arith,
    omega arith,
    ground (arith, visited_lem blocks block (blocks - block + i)),
  )
]

-- Only the first round starts in the middle of its block.
abbrev pub start_word : ℕ → ℕ → ℕ
start_word word zero = word
start_word word (suc j) = 0

module _ (native : Bool) (start limit blocks per_block : ℕ) where
  -- the scan of block i from a word of it
  abbrev pub scan_at : Store → ℕ → ℕ → Option ℕ × List ℕ
  scan_at s i word = scan_from native limit (i * per_block) word (s.words (start + i))

  abbrev pub Found : Store → ℕ × Store → Type 0
  Found s out =
      (i : ℕ) × (word : ℕ) × (b : ℕ) × (i < blocks)
      × ((scan_at s i word).0 ≡ some b)
      × (out ≡ (b, write_block s (start + i) (scan_at s i word).1))

  abbrev pub Missed : Store → ℕ → ℕ → ℕ → ℕ × Store → Type 0
  Missed s bcount block word out =
      (out ≡ (0, s))
      × ((j : ℕ) → j < bcount → (scan_at s (visited blocks block j) (start_word word j)).0 ≡ none)

  miss_first :
      (bcount block word : ℕ) (s : Store) {out : ℕ × Store}
      → (scan_at s block word).0 ≡ none
      → Missed s bcount (next_block blocks block) 0 out
      → Missed s (suc bcount) block word out
  unfolding visited
  miss_first bcount block word s {out} e (same, later) = (same, rounds)
    where
      rounds :
          (j : ℕ)
          → j < suc bcount
          → (scan_at s (visited blocks block j) (start_word word j)).0 ≡ none
      rounds zero h = e
      rounds (suc zero) h = later 0 (omega arith)
      rounds (suc (suc j)) h = later (suc j) (omega arith)

  -- The loop ends with the first bit that a scan finds, or with 0 when no visited block has one.
  pub search_blocks_cases :
      (bcount block word : ℕ) (s : Store)
      → block < blocks
      → Found s (search_blocks native start limit blocks per_block bcount block word s)
        ⊎ Missed s bcount block word
            (search_blocks native start limit blocks per_block bcount block word s)
  unfolding search_blocks visited
  search_blocks_cases zero block word s l = inr (refl, λ j h. absurd (omega arith))
  search_blocks_cases (suc bcount) block word s l = elim (Option-cases (scan_at s block word).0) [
    | inr (b, e) ↦ inl (block, word, b, l, e, rw (e, search_blocks))
    | inl e ↦
        rw (e, search_blocks)
          (go e (search_blocks_cases bcount (next_block blocks block) 0 s (ground arith)))
  ]
    where
      go :
          {out : ℕ × Store}
          → (scan_at s block word).0 ≡ none
          → Found s out ⊎ Missed s bcount (next_block blocks block) 0 out
          → Found s out ⊎ Missed s (suc bcount) block word out
      go e (inl f) = inl f
      go e (inr m) = inr (miss_first bcount block word s e m)
