-- ===== src/Fs/Zones/Tests.antt =====
-- The theorems of zones on the device of Fs/Bitmap/Tests.
use sdios.Prelude.{ℕ, ◌≡◌, ◌≤◌, ◌<◌, refl, Option, none, some, arith, ◌==◌, if◌then◌else◌}
use sdios.Fs.Words.{conv2}
use sdios.Fs.Bits.{lowest_clear}
use sdios.Fs.Super.{SuperBlock}
use sdios.Fs.Bitmap.{zmap, Store, alloc_bit, map_bits, bit_blocks, start_block}
use sdios.Fs.Bitmap.Alloc.{IsMap}
use sdios.Fs.Bitmap.Tests.{floppy, fresh, full, AllWords-replicate, AllWords-ones}
use sdios.Fs.Zones.{alloc_zone, free_zone}
use sdios.Fs.Zones.Alloc.{HasZones, zone_bit, alloc_zone-found, free_zone-alloc_zone}

pub fresh_zones : IsMap floppy zmap fresh
unfolding bit_blocks start_block map_bits
fresh_zones = record {
  words_fit = λ i h. (omega arith, (omega arith, AllWords-replicate 510));
  whole = λ i h. refl;
  bits_fit = omega arith;
  not_empty = omega arith;
  block_size = omega arith;
}

full_zones : IsMap floppy zmap full
unfolding bit_blocks start_block map_bits
full_zones = record {
  words_fit = λ i h. AllWords-ones 512;
  whole = λ i h. refl;
  bits_fit = omega arith;
  not_empty = omega arith;
  block_size = omega arith;
}

pub floppy_zones : HasZones floppy
floppy_zones = record { first = omega arith; inside = omega arith; fits = omega arith }

maps_after : Option (ℕ × SuperBlock × Store) → Store
maps_after none = fresh
maps_after (some (n, sp, s)) = s

abbrev taken : Store
taken = maps_after (alloc_zone floppy 10 fresh)

-- The first zone that is free, and the next search starts at its bit.
first_zone : alloc_zone floppy 10 fresh ≡ some (28, record floppy { zsearch = 19 }, taken)
unfolding maps_after alloc_zone alloc_bit lowest_clear conv2
first_zone = refl

zone_number : Option (ℕ × SuperBlock × Store) → ℕ
zone_number none = 0
zone_number (some (n, sp, s)) = n

-- Near zone 50, whose bit is 41 in the word of bit 32.
near_zone : zone_number (alloc_zone floppy 50 fresh) ≡ 41
unfolding zone_number alloc_zone alloc_bit lowest_clear conv2
near_zone = refl

alloc_zone-found_example :
    (10 ≤ 28)
    × (28 < 60)
    × (zone_bit floppy fresh 28 ≡ 0)
    × ((m : ℕ)
        → 10 ≤ m
        → zone_bit floppy taken m ≡ (if m == 28 then 1 else zone_bit floppy fresh m))
    × IsMap floppy zmap taken
    × ((c : ℕ) × (◌≡◌ {A = SuperBlock}
          (record floppy { zsearch = 19 })
          (record floppy { zsearch = c })))
alloc_zone-found_example =
    alloc_zone-found floppy 10 fresh 28 (record floppy { zsearch = 19 }) taken fresh_zones
      floppy_zones first_zone (omega arith)

free_zone-alloc_zone_example :
    (sp'' : SuperBlock) × (s'' : Store) × (free_zone (record floppy { zsearch = 19 }) 28 taken
      ≡ some (sp'', s''))
    × ((m : ℕ) → zone_bit floppy s'' m ≡ zone_bit floppy fresh m)
    × (sp''.zsearch ≤ 19)
free_zone-alloc_zone_example =
    free_zone-alloc_zone floppy 10 fresh 28 (record floppy { zsearch = 19 }) taken fresh_zones
      floppy_zones refl first_zone (omega arith)
