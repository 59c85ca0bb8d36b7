-- ===== src/Fs/Mapping/Tests.antt =====
-- A file without indirect blocks on the device of Fs/Bitmap/Tests, extended far behind its end.
use sdios.Prelude.{ℕ, ◌≡◌, refl, Option, none, some, ◌∷◌, [], arith, ◌*◌}
use sdios.Fs.Words.{conv2, conv4}
use sdios.Fs.Bits.{lowest_clear, set_bit}
use sdios.Fs.Inode.{Inode}
use sdios.Fs.Inode.Tests.{home}
use sdios.Fs.Bitmap.{alloc_bit, write_block}
use sdios.Fs.Bitmap.Tests.{floppy, fresh}
use sdios.Fs.Zones.{alloc_zone}
use sdios.Fs.Zones.Tests.{floppy_zones, fresh_zones}
use sdios.Fs.Mapping.{Device, Status, ok, block_in, read_map, write_map, boff_at}
use sdios.Fs.Mapping.Entries.{ZonesFit}
use sdios.Fs.Mapping.Position.{CanMap, read_map-write_map}

abbrev file : Inode
file = record home {
  ndzones = 7;
  nindirs = 256;
  zone = 20 ∷ 21 ∷ 0 ∷ 0 ∷ 0 ∷ 0 ∷ 0 ∷ 0 ∷ 0 ∷ 0 ∷ [];
}

abbrev device : Device
device = record { sp = floppy; maps = fresh; entries = λ b i. 0xdead }

inode_after : Option (Status × Inode × Device) → Inode
inode_after none = file
inode_after (some (r, rip, dv)) = rip

device_after : Option (Status × Inode × Device) → Device
device_after none = device
device_after (some (r, rip, dv)) = dv

-- Entry 44 of the second block below the double indirect block.
abbrev far : ℕ
far = 563 * 1024

abbrev extended : Inode
extended = inode_after (write_map far 45 file device)

abbrev written : Device
written = device_after (write_map far 45 file device)

far_ok : write_map far 45 file device ≡ some (ok, extended, written)
unfolding inode_after device_after write_map alloc_zone alloc_bit lowest_clear conv2 conv4
    write_block set_bit
far_ok = refl

floppy_fits : ZonesFit floppy
floppy_fits = record { zones = floppy_zones; short = λ v. omega arith; blocks = omega arith }

file-CanMap : CanMap file device
file-CanMap = record {
  fit = floppy_fits;
  zone_map = fresh_zones;
  places = omega arith;
  double = λ ne. absurd (ne refl);
}

read_map-write_map_example :
    read_map written.sp written.entries extended far
    ≡ some (block_in floppy (boff_at floppy far) 45)
read_map-write_map_example =
    read_map-write_map far 45 file extended device written file-CanMap (omega arith, omega arith)
      far_ok
