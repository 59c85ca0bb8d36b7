-- ===== src/Fs/Bitmap/Alloc.antt =====
-- What alloc_bit does to the map.
use sdios.Prelude.{
  ℕ, zero, suc, ◌+◌, ◌-◌, ◌*◌, ◌/◌, ◌%◌, ◌≤◌, ◌<◌, ◌≡◌, ◌≢◌, ◌⊎◌, inl, inr, false, Option, none,
  some, List, arith, ◌==◌, leb, if◌then◌else◌, length, ℕ_discrete, sym, ap, subst, ◌∙◌,
}
use sdios.Fs.Super.{SuperBlock}
use sdios.Fs.Bitmap.{
  Map, Store, write_block, bits_per_block, start_block, map_bits, bit_blocks, scan_from,
  search_blocks, alloc_bit,
}
use sdios.Fs.Bitmap.Scan.{
  AllWords, used, scan_from-found, scan_from-used, scan_from-none, scan_from-AllWords,
  length-scan_from,
}
use sdios.Fs.Bitmap.Search.{Found, Missed, search_blocks_cases, visited-all, visited}

-- The blocks of a map are there, full of 16-bit words, and hold all bits of the map.
pub record IsMap (sp : SuperBlock) (map : Map) (s : Store) : Type 0 where
  pub words_fit : (i : ℕ) → i < bit_blocks sp map → AllWords (s.words (start_block sp map + i))
  pub whole :
      (i : ℕ)
      → i < bit_blocks sp map
      → length (s.words (start_block sp map + i)) ≡ sp.block_size / 2
  pub bits_fit : map_bits sp map ≤ bit_blocks sp map * bits_per_block sp
  pub not_empty : 0 < bit_blocks sp map
  pub block_size : 2 ≤ sp.block_size

-- Bit b of the map, 1 when it is taken.
unfoldable pub map_bit : SuperBlock → Map → Store → ℕ → ℕ
map_bit sp map s b =
    used sp.native (s.words (start_block sp map + b / bits_per_block sp)) (b % bits_per_block sp)

pub div_of : (i p r b : ℕ) → r < p → b ≡ i * p + r → b / p ≡ i
div_of i p r b l e = grind arith

pub mod_of : (i p r b : ℕ) → r < p → b ≡ i * p + r → b % p ≡ r
mod_of i p r b l e = grind arith

pub div_mod_lem : (c p : ℕ) → c ≡ (c / p) * p + c % p
div_mod_lem c p = grind arith

pub mul_pos : (a b : ℕ) → 0 < a → 0 < b → 0 < a * b
mul_pos a b h k = grind arith

pub div-lt : (b p n : ℕ) → b < n * p → b / p < n
div-lt b p n h = grind arith

-- Writing a block of the map with as many words in range keeps the map well-formed.
pub write_block-IsMap :
    (sp : SuperBlock) (map : Map) (s : Store) (i : ℕ) (ws : List ℕ)
    → IsMap sp map s
    → i < bit_blocks sp map
    → AllWords ws
    → length ws ≡ sp.block_size / 2
    → IsMap sp map (write_block s (start_block sp map + i) ws)
unfolding write_block
write_block-IsMap sp map s i ws v l a n = record {
  words_fit = λ j h. elim (ℕ_discrete j i) [
    | yes here ↦ ground (arith, here, a)
    | no there ↦ ground (arith, there, v.words_fit j h)
  ];
  whole = λ j h. elim (ℕ_discrete j i) [
    | yes here ↦ ground (arith, here, n)
    | no there ↦ ground (arith, there, v.whole j h)
  ];
  bits_fit = v.bits_fit;
  not_empty = v.not_empty;
  block_size = v.block_size;
}

module _ (sp : SuperBlock) (map : Map) (origin : ℕ) (s : Store) (v : IsMap sp map s) where
  abbrev limit : ℕ
  limit = map_bits sp map

  abbrev per_block : ℕ
  per_block = bits_per_block sp

  abbrev from : ℕ
  from = if leb limit origin then 0 else origin

  abbrev outcome : ℕ × Store
  outcome =
      search_blocks sp.native (start_block sp map) limit (bit_blocks sp map) per_block
        (bit_blocks sp map + 1) (from / per_block) ((from % per_block) / 16) s

  from_fits : from / per_block < bit_blocks sp map
  from_fits = div-lt from per_block (bit_blocks sp map) (
      ground (
        arith,
        v.bits_fit,
        mul_pos (bit_blocks sp map) per_block v.not_empty (omega (arith, v.block_size)),
      ))

  outcome_cases :
      Found sp.native (start_block sp map) limit (bit_blocks sp map) per_block s outcome
      ⊎ Missed sp.native
          (start_block sp map)
          limit
          (bit_blocks sp map)
          per_block
          s
          (bit_blocks sp map + 1)
          (from / per_block)
          ((from % per_block) / 16)
          outcome
  outcome_cases =
      search_blocks_cases sp.native (start_block sp map) limit (bit_blocks sp map) per_block
        (bit_blocks sp map + 1) (from / per_block) ((from % per_block) / 16) s from_fits

  -- what a scan that finds a bit does to the map
  module _ (i word b : ℕ) (l : i < bit_blocks sp map) where
    abbrev scanned : Option ℕ × List ℕ
    scanned = scan_from sp.native limit (i * per_block) word (s.words (start_block sp map + i))

    module _ (e : scanned.0 ≡ some b) where
      found_bit :
          (i * per_block ≤ b)
          × (b < i * per_block + per_block)
          × (b < limit)
          × (used sp.native (s.words (start_block sp map + i)) (b - i * per_block) ≡ 0)
      found_bit =
          let f =
            scan_from-found sp.native limit (i * per_block) word (s.words (start_block sp map + i))
              b (v.words_fit i l) e in
          (f.0, omega (arith, v.whole i l, f.1), f.2, f.3)

      found_clear : map_bit sp map s b ≡ 0
      unfolding map_bit
      found_clear =
          let f = found_bit in
          rw
            (
              div_of i per_block (b - i * per_block) b (omega arith) (omega arith),
              mod_of i per_block (b - i * per_block) b (omega arith) (omega arith),
            )
            f.3

      found_set :
          (c : ℕ)
          → map_bit sp map (write_block s (start_block sp map + i) scanned.1) c
            ≡ (if c == b then 1 else map_bit sp map s c)
      unfolding map_bit write_block
      found_set c = elim (ℕ_discrete (c / per_block) i) [
        | yes here ↦ ground (
          arith,
          here,
          found_bit,
          div_mod_lem c per_block,
          scan_from-used sp.native limit (i * per_block) word (s.words (start_block sp map + i)) b
              (c % per_block) (v.words_fit i l) e,
        )
        | no elsewhere ↦ ground (arith, found_bit, div_of i per_block (b - i * per_block) b)
      ]

  -- a loop that finds nothing has seen every bit of the map set
  every_bit_set :
      Missed sp.native
        (start_block sp map)
        limit
        (bit_blocks sp map)
        per_block
        s
        (bit_blocks sp map + 1)
        (from / per_block)
        ((from % per_block) / 16)
        outcome
      → (c : ℕ) → c < limit
      → map_bit sp map s c ≡ 1
  unfolding map_bit
  every_bit_set m c l =
      let inside : c / per_block < bit_blocks sp map =
        div-lt c per_block (bit_blocks sp map) (omega (arith, v.bits_fit)) in
      let round =
        visited-all (bit_blocks sp map) (from / per_block) (c / per_block) from_fits inside in
      scan_from-none sp.native limit ((c / per_block) * per_block) 0
        (s.words (start_block sp map + c / per_block)) (c % per_block)
        (v.words_fit (c / per_block) inside) (none_later round.0 round.1 round.2 round.3)
        (omega arith) (omega (arith, div_mod_lem c per_block))
    where
      none_later :
          (j : ℕ)
          → 0 < j
          → j ≤ bit_blocks sp map
          → visited (bit_blocks sp map) (from / per_block) j ≡ c / per_block
          → (scan_from sp.native limit
              ((c / per_block) * per_block)
              0
              (s.words (start_block sp map + c / per_block))).0
            ≡ none
      none_later zero p q e = absurd (omega arith)
      none_later (suc j) p q e = rw e at (m.1 (suc j) (omega arith))

  alloc_bit-outcome :
      {out r : ℕ × Store} → outcome ≡ out → alloc_bit sp map origin s ≡ some r → out ≡ r
  unfolding alloc_bit
  alloc_bit-outcome p e = ground arith

-- On a well-formed map, when alloc_bit returns a bit number other than NO_BIT, that bit lies below
-- the end of the map and was clear; afterwards it is set, and every other bit is as it was.
pub alloc_bit-found :
    (sp : SuperBlock) (map : Map) (origin : ℕ) (s : Store) (b : ℕ) (s' : Store)
    → IsMap sp map s
    → alloc_bit sp map origin s ≡ some (b, s')
    → b ≢ 0
    → (b < map_bits sp map)
      × (map_bit sp map s b ≡ 0)
      × ((c : ℕ) → map_bit sp map s' c ≡ (if c == b then 1 else map_bit sp map s c))
unfolding alloc_bit
alloc_bit-found sp map origin s b s' v e ne = elim (outcome_cases sp map origin s v) [
  | inl (i, word, a, l, hit, out) ↦
      subst
        (λ (r : ℕ × Store).
          (r.0 < map_bits sp map)
          × (map_bit sp map s r.0 ≡ 0)
          × ((c : ℕ) → map_bit sp map r.1 c ≡ (if c == r.0 then 1 else map_bit sp map s c)))
        (alloc_bit-outcome sp map origin s v out e)
        (
          (found_bit sp map origin s v i word a l hit).2,
          found_clear sp map origin s v i word a l hit,
          found_set sp map origin s v i word a l hit,
        )
  | inr (out, all) ↦
      absurd (ne (sym (ap (λ (r : ℕ × Store). r.0) (alloc_bit-outcome sp map origin s v out e))))
]

-- On a well-formed map whose bit 0 is set, when alloc_bit returns NO_BIT, the store is unchanged
-- and every bit of the map is set.
pub alloc_bit-full :
    (sp : SuperBlock) (map : Map) (origin : ℕ) (s s' : Store)
    → IsMap sp map s
    → map_bit sp map s 0 ≡ 1
    → alloc_bit sp map origin s ≡ some (0, s')
    → (s' ≡ s) × ((c : ℕ) → c < map_bits sp map → map_bit sp map s c ≡ 1)
unfolding alloc_bit
alloc_bit-full sp map origin s s' v zero_set e = elim (outcome_cases sp map origin s v) [
  | inl (i, word, a, l, hit, out) ↦
      let clear = found_clear sp map origin s v i word a l hit in
      let same : a ≡ 0 = ap (λ (r : ℕ × Store). r.0) (alloc_bit-outcome sp map origin s v out e) in
      absurd (omega (arith, zero_set, rw same at clear))
  | inr (out, all) ↦ (
    sym (ap (λ (r : ℕ × Store). r.1) (alloc_bit-outcome sp map origin s v out e)),
    every_bit_set sp map origin s v (out, all),
  )
]

alloc_bit-eq-outcome :
    (sp : SuperBlock) (map : Map) (origin : ℕ) (s : Store) (v : IsMap sp map s)
    → sp.rd_only ≡ false
    → alloc_bit sp map origin s ≡ some (outcome sp map origin s v)
unfolding alloc_bit
alloc_bit-eq-outcome sp map origin s v w = rw w

-- On a well-formed map of a writable file system whose bit 0 is set, if some bit below the end of
-- the map is clear then alloc_bit returns a bit number other than NO_BIT.
pub alloc_bit-succeeds :
    (sp : SuperBlock) (map : Map) (origin : ℕ) (s : Store) (c : ℕ)
    → IsMap sp map s
    → sp.rd_only ≡ false
    → map_bit sp map s 0 ≡ 1
    → c < map_bits sp map
    → map_bit sp map s c ≡ 0
    → (b : ℕ) × (s' : Store) × (alloc_bit sp map origin s ≡ some (b, s')) × (b ≢ 0)
alloc_bit-succeeds sp map origin s c v w zero_set l clear =
    let out = outcome sp map origin s v in
    let e : alloc_bit sp map origin s ≡ some out = alloc_bit-eq-outcome sp map origin s v w in
    (out.0, out.1, e, λ z. absurd (omega (arith, clear, taken e z)))
  where
    taken :
        alloc_bit sp map origin s ≡ some (outcome sp map origin s v)
        → (outcome sp map origin s v).0 ≡ 0
        → map_bit sp map s c ≡ 1
    taken e z =
        (alloc_bit-full sp map origin s (outcome sp map origin s v).1 v zero_set
            (e ∙ ap (λ (b : ℕ). some (b, (outcome sp map origin s v).1)) z)).1
          c l

-- alloc_bit leaves a well-formed map well-formed, whatever it returns.
pub alloc_bit-IsMap :
    (sp : SuperBlock) (map : Map) (origin : ℕ) (s : Store) (b : ℕ) (s' : Store)
    → IsMap sp map s
    → alloc_bit sp map origin s ≡ some (b, s')
    → IsMap sp map s'
alloc_bit-IsMap sp map origin s b s' v e = elim (outcome_cases sp map origin s v) [
  | inl (i, word, a, l, hit, out) ↦
      subst (λ (r : ℕ × Store). IsMap sp map r.1) (alloc_bit-outcome sp map origin s v out e)
        (write_block-IsMap sp map s i _ v l
          (scan_from-AllWords sp.native _ _ word _ (v.words_fit i l))
          (length-scan_from sp.native _ _ word _ ∙ v.whole i l))
  | inr (out, all) ↦
      subst (λ (r : ℕ × Store). IsMap sp map r.1) (alloc_bit-outcome sp map origin s v out e) v
]
