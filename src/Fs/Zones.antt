-- ===== src/Fs/Zones.antt =====
-- Zones of a device: alloc_zone and free_zone of sdios/src/minix3fs/servers/fs/cache.c. The super
-- block is the slot that get_super finds for the device.
pub mod Alloc
pub mod Tests
use sdios.Prelude.{ℕ, ◌+◌, ◌-◌, ◌%◌, ◌^◌, Option, none, some, ◌==◌, ltb, leb, ◌||◌, if◌then◌else◌}
use sdios.Fs.Super.{SuperBlock}
use sdios.Fs.Bitmap.{Store, zmap, alloc_bit, free_bit}

-- The bit where the search for a zone near `z` starts; z - (firstdatazone - 1) is a 32-bit number.
unfoldable pub zone_origin : SuperBlock → ℕ → ℕ
zone_origin sp z =
    if z == sp.firstdatazone then sp.zsearch else (z + 1 + (2 ^ 32 - sp.firstdatazone)) % 2 ^ 32

-- The zone, 0 for NO_ZONE with the error ENOSPC, the super block and the maps. `none` is a panic.
unfoldable pub alloc_zone : SuperBlock → ℕ → Store → Option (ℕ × SuperBlock × Store)
unfolding zone_origin
alloc_zone sp z s = elim (alloc_bit sp zmap (zone_origin sp z) s) [
  | none ↦ none
  | some (b, s') ↦
      if b == 0
      then some (0, sp, s')
      else some (
        (sp.firstdatazone + b - 1) % 2 ^ 32,
        (if z == sp.firstdatazone then record sp { zsearch = b } else sp),
        s',
      )
]

-- A number that is no zone of the device is ignored. `none` is a panic of free_bit.
unfoldable pub free_zone : SuperBlock → ℕ → Store → Option (SuperBlock × Store)
free_zone sp numb s =
    let bit = numb + 1 - sp.firstdatazone in
    if ltb numb sp.firstdatazone || leb sp.zones numb
    then some (sp, s)
    else elim (free_bit sp zmap bit s) [
      | none ↦ none
      | some s' ↦ some ((if ltb bit sp.zsearch then record sp { zsearch = bit } else sp), s')
    ]
