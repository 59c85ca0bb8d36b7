-- ===== src/Fs/Super/Tests.antt =====
-- A V2 super block, and the theorems of the super block table on it.
use sdios.Prelude.{ℕ, ◌≡◌, ◌⊎◌, refl, true, false, Option, none, some, [], ◌∷◌, List, arith}
use sdios.Fs.Words.{conv2, conv4}
use sdios.Fs.Super.{
  SuperBlock, ok, read_super, version_of, fill_super, convert, by_version, bad_block_size,
  bad_sizes,
}
use sdios.Fs.Super.Read.{
  IsUsable, foreign, read_super-IsUsable, read_super-einval, read_super-foreign,
}

abbrev disk : SuperBlock
disk = record {
  ninodes = 480;
  nzones = 1440;
  imap_blocks = 1;
  zmap_blocks = 1;
  firstdatazone = 19;
  log_zone_size = 0;
  max_size = 67641344;
  zones = 1440;
  magic = 0x2468;
  block_size = 0;
  isup = none;
  imount = none;
  inodes_per_block = 0;
  dev = 0;
  rd_only = false;
  native = false;
  version = 0;
  ndzones = 0;
  nindirs = 0;
  isearch = 3;
  zsearch = 5;
}

abbrev slot : SuperBlock
slot = record disk { dev = 0x200 }

-- What read_super makes of it.
abbrev pub filled : SuperBlock
filled = record disk {
  block_size = 1024;
  inodes_per_block = 16;
  dev = 0x200;
  native = true;
  version = 2;
  ndzones = 7;
  nindirs = 256;
  isearch = 0;
  zsearch = 0;
}

read_disk : read_super (some disk) slot ≡ some (ok, filled)
unfolding read_super version_of fill_super convert by_version bad_block_size bad_sizes conv2 conv4
read_disk = refl

read_super-IsUsable_example :
    IsUsable filled
    × (filled.dev ≡ slot.dev)
    × ((d : SuperBlock) × (◌≡◌ {A = Option SuperBlock} (some disk) (some d))
        × (version_of d.magic ≡ some (filled.version, filled.native)))
read_super-IsUsable_example = read_super-IsUsable (some disk) slot filled read_disk

read_super-foreign_example :
    read_super (some (foreign disk)) slot
    ≡ some (ok, record filled { native = false; magic = conv2 false 0x2468 })
read_super-foreign_example =
    read_super-foreign disk slot filled (omega arith) (omega arith) read_disk refl

-- A super block with no inodes is refused, and its slot is free.
abbrev no_inodes : SuperBlock
no_inodes = record disk { ninodes = 0 }

read_super-einval_example :
    ((◌≡◌ {A = Option SuperBlock} (some no_inodes) none)
      × (record filled { ninodes = 0; dev = 0 } ≡ slot))
    ⊎ (◌≡◌ {A = ℕ} 0 0)
unfolding read_super version_of fill_super convert by_version bad_block_size bad_sizes conv2 conv4
read_super-einval_example =
    read_super-einval (some no_inodes) slot (record filled { ninodes = 0; dev = 0 }) refl

abbrev mounts : List SuperBlock
mounts = filled ∷ record filled { dev = 0x201; block_size = 4096 } ∷ []
