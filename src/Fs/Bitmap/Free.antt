-- ===== src/Fs/Bitmap/Free.antt =====
-- What free_bit does to the map, and that it undoes alloc_bit.
use sdios.Prelude.{
  ℕ, ◌+◌, ◌/◌, ◌%◌, ◌<◌, ◌^◌, ◌≡◌, ◌≢◌, refl, false, none, some, arith, ◌==◌, if◌then◌else◌, length,
  get_or, set, ℕ_discrete, length-set, ◌∙◌,
}
use native.Mathlib.Nat.{mod-eq_of_lt}
use sdios.Fs.Super.{SuperBlock}
use sdios.Fs.Words.{conv2, conv2-conv2, conv2-lt}
use sdios.Fs.Bits.{bit_of, clear_bit, clear_bit-le, bit_of-clear_bit}
use sdios.Fs.Bitmap.{
  Map, Store, write_block, bits_per_block, start_block, map_bits, bit_blocks, alloc_bit, free_bit,
}
use sdios.Fs.Bitmap.Scan.{used_in_word, used-set, AllWords-set}
use sdios.Fs.Bitmap.Alloc.{
  IsMap, map_bit, div-lt, div_mod_lem, write_block-IsMap, alloc_bit-found, alloc_bit-IsMap,
}

module _ (sp : SuperBlock) (map : Map) (b : ℕ) (s : Store) (v : IsMap sp map s)
    (below : b < map_bits sp map) where
  abbrev per_block : ℕ
  per_block = bits_per_block sp

  abbrev nr : ℕ
  nr = start_block sp map + b / per_block

  abbrev word : ℕ
  word = (b % per_block) / 16

  abbrev k : ℕ
  k = conv2 sp.native (get_or (s.words nr) word 0)

  inside : b / per_block < bit_blocks sp map
  inside = div-lt b per_block (bit_blocks sp map) (omega (arith, v.bits_fit))

  word_inside : word < length (s.words nr)
  word_inside = omega (arith, v.whole (b / per_block) inside, v.block_size)

  bit_number : (b % per_block) % 16 ≡ b % 16
  bit_number = omega (arith, div_mod_lem b per_block)

  bit_of_word : map_bit sp map s b ≡ bit_of k (b % 16)
  unfolding map_bit
  bit_of_word =
      ground (
        arith,
        bit_number,
        used_in_word sp.native (s.words nr) word (b % per_block) refl word_inside,
      )

  abbrev cleared : Store
  cleared = write_block s nr (set (s.words nr) word (conv2 sp.native (clear_bit k (b % 16))))

  small : clear_bit k (b % 16) < 2 ^ 16
  small = omega (arith, clear_bit-le k (b % 16), conv2-lt sp.native (get_or (s.words nr) word 0))

  cleared_bits : (c : ℕ) → map_bit sp map cleared c ≡ (if c == b then 0 else map_bit sp map s c)
  unfolding map_bit write_block
  cleared_bits c = elim (ℕ_discrete (c / per_block) (b / per_block)) [
    | yes here ↦ ground (
      arith,
      here,
      used-set sp.native (s.words nr) word (c % per_block) (conv2 sp.native (clear_bit k (b % 16)))
          word_inside,
      conv2-conv2 sp.native (clear_bit k (b % 16)),
      mod-eq_of_lt small,
      bit_of-clear_bit k (b % 16) ((c % per_block) % 16),
      bit_number,
      div_mod_lem c per_block,
      div_mod_lem b per_block,
      used_in_word sp.native (s.words nr) word (c % per_block),
      word_inside,
    )
    | no elsewhere ↦ ground (arith, elsewhere)
  ]

-- On a well-formed map of a writable file system, free_bit panics on a bit below the end of the map
-- that is clear; given one that is set it succeeds, the map stays well-formed, that bit becomes
-- clear and every other bit is as it was.
pub free_bit_lem :
    (sp : SuperBlock) (map : Map) (b : ℕ) (s : Store)
    → IsMap sp map s
    → b < map_bits sp map
    → sp.rd_only ≡ false
    → (map_bit sp map s b ≡ 0 → free_bit sp map b s ≡ none)
      × (map_bit sp map s b ≡ 1
          → (s' : Store) × (free_bit sp map b s ≡ some s')
            × IsMap sp map s'
            × ((c : ℕ) → map_bit sp map s' c ≡ (if c == b then 0 else map_bit sp map s c)))
unfolding free_bit
free_bit_lem sp map b s v l w = (
  λ clear. ground (arith, w, clear, bit_of_word sp map b s v l),
  λ taken. (
    cleared sp map b s v l,
    ground (arith, w, taken, bit_of_word sp map b s v l),
    write_block-IsMap sp map s (b / bits_per_block sp) _ v (inside sp map b s v l)
        (AllWords-set _ _ _ (v.words_fit _ (inside sp map b s v l)) (conv2-lt sp.native _))
        (length-set _ _ _ ∙ v.whole _ (inside sp map b s v l)),
    cleared_bits sp map b s v l,
  ),
)

-- On a well-formed map of a writable file system, freeing the bit that alloc_bit has just returned
-- succeeds, and gives every bit of the map the value that it had before.
pub free_bit-alloc_bit :
    (sp : SuperBlock) (map : Map) (origin : ℕ) (s : Store) (b : ℕ) (s' : Store)
    → IsMap sp map s
    → sp.rd_only ≡ false
    → alloc_bit sp map origin s ≡ some (b, s')
    → b ≢ 0
    → (s'' : Store) × (free_bit sp map b s' ≡ some s'')
      × ((c : ℕ) → map_bit sp map s'' c ≡ map_bit sp map s c)
free_bit-alloc_bit sp map origin s b s' v w e ne =
    let found = alloc_bit-found sp map origin s b s' v e ne in
    let freed =
      (free_bit_lem sp map b s' (alloc_bit-IsMap sp map origin s b s' v e) found.0 w).1
        (ground (arith, found.2 b)) in
    (freed.0, freed.1, λ c. ground (arith, found.1, found.2 c, freed.3 c))
