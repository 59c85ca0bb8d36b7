-- ===== src/Fs/InodeTable/Alloc/ZoneMap.antt =====
-- The bits of the zone map, when a bit of the inode map is taken.
use sdios.Prelude.{
  ℕ, ◌+◌, ◌*◌, ◌/◌, ◌%◌, ◌≤◌, ◌<◌, ◌≡◌, ◌≢◌, Bool, ◌==◌, if◌then◌else◌, arith, ap, ap₂, sym, ◌∙◌,
  ==_no,
}
use native.Mathlib.Nat.{mod-lt}
use sdios.Fs.Super.{SuperBlock}
use sdios.Fs.Bitmap.{Store, imap, zmap, map_bits, bit_blocks, bits_per_block, start_block}
use sdios.Fs.Bitmap.Scan.{used}
use sdios.Fs.Bitmap.Alloc.{IsMap, map_bit, div_of, mod_of, div_mod_lem}

-- The zone map follows the inode map on the disk.
behind : SuperBlock → ℕ → ℕ
behind sp c = sp.imap_blocks * bits_per_block sp + c

behind_place : (a p c : ℕ) → 0 < p → ((a * p + c) / p ≡ a + c / p) × ((a * p + c) % p ≡ c % p)
behind_place a p c h =
    let whole = div_mod_lem c p in
    let split : a * p + c ≡ (a + c / p) * p + c % p = grind (arith, whole) in
    (
      div_of (a + c / p) p (c % p) (a * p + c) (mod-lt c h) split,
      mod_of (a + c / p) p (c % p) (a * p + c) (mod-lt c h) split,
    )

zone_bit :
    (sp : SuperBlock) (s : Store) (c : ℕ)
    → 2 ≤ sp.block_size
    → map_bit sp zmap s c ≡ map_bit sp imap s (behind sp c)
unfolding map_bit start_block behind
zone_bit sp s c h =
    let (quotient, rest) = behind_place sp.imap_blocks (bits_per_block sp) c (omega (arith, h)) in
    ap₂ (λ (x y : ℕ). used sp.native (s.words x) y) (omega (arith, quotient)) (sym rest)

-- Taking a bit of the inode map leaves the zone map as it was.
pub zone_bit_kept :
    (sp : SuperBlock) (s s' : Store) (b : ℕ)
    → IsMap sp imap s
    → b < map_bits sp imap
    → ((c : ℕ) → map_bit sp imap s' c ≡ (if c == b then 1 else map_bit sp imap s c))
    → (c : ℕ) → map_bit sp zmap s' c ≡ map_bit sp zmap s c
unfolding behind bit_blocks
zone_bit_kept sp s s' b m l taken c =
    let apart : behind sp c ≢ b = λ e. omega (arith, e, l, m.bits_fit) in
    zone_bit sp s' c m.block_size
    ∙ taken (behind sp c)
    ∙ ap (λ (t : Bool). if t then 1 else map_bit sp imap s (behind sp c))
        (==_no (behind sp c) b apart)
    ∙ sym (zone_bit sp s c m.block_size)
