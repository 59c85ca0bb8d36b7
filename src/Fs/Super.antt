-- ===== src/Fs/Super.antt =====
-- The super block table: super.h, and get_super, get_block_size, mounted and read_super of super.c,
-- all in sdios/src/minix3fs/servers/fs.
pub mod Table
pub mod Read
pub mod Tests
use sdios.Prelude.{
  ℕ, suc, ◌*◌, ◌/◌, ◌%◌, ◌<◌, Bool, true, false, ◌||◌, Option, none, some, List, [], ◌∷◌, ◌==◌, ltb,
  leb, not, if◌then◌else◌, get_or,
}
use mathlib.Core.Option
use sdios.Fs.Words.{conv2, conv4}

-- A struct super_block in memory. Inode pointers are slots of the inode table; `dev` 0 is NO_DEV.
pub record SuperBlock : Type 0 where
  pub ninodes : ℕ
  pub nzones : ℕ
  pub imap_blocks : ℕ
  pub zmap_blocks : ℕ
  pub firstdatazone : ℕ
  pub log_zone_size : ℕ
  pub max_size : ℕ
  pub zones : ℕ
  pub magic : ℕ
  pub block_size : ℕ
  pub isup : Option ℕ
  pub imount : Option ℕ
  pub inodes_per_block : ℕ
  pub dev : ℕ
  pub rd_only : Bool
  pub native : Bool
  pub version : ℕ
  pub ndzones : ℕ
  pub nindirs : ℕ
  pub isearch : ℕ
  pub zsearch : ℕ

abbrev pub min_block_size : ℕ
min_block_size = 1024

abbrev pub static_block_size : ℕ
static_block_size = 1024

abbrev pub max_block_size : ℕ
max_block_size = 4096

-- sizeof (struct super_block), sizeof (d1_inode) and sizeof (d2_inode) on IA32.
abbrev pub super_size : ℕ
super_size = 76

abbrev pub v1_inode_size : ℕ
v1_inode_size = 32

abbrev pub v2_inode_size : ℕ
v2_inode_size = 64

-- The loop over the table: the first slot of the device.
unfoldable pub find_super : ℕ → List SuperBlock → Option ℕ
find_super dev [] = none
find_super dev (sp ∷ table) =
    let rest = Option.map suc (find_super dev table) in if sp.dev == dev then some 0 else rest

-- `none` is a panic: NO_DEV, or a device that has no slot.
unfoldable pub get_super : ℕ → List SuperBlock → Option ℕ
unfolding find_super
get_super dev table = if dev == 0 then none else find_super dev table

-- The loop of get_block_size: MIN_BLOCK_SIZE when no slot is the device's.
unfoldable pub block_size_of : ℕ → List SuperBlock → ℕ
block_size_of dev [] = min_block_size
block_size_of dev (sp ∷ table) =
    let more = block_size_of dev table in if sp.dev == dev then sp.block_size else more

-- `none` is the panic on NO_DEV.
unfoldable pub get_block_size : ℕ → List SuperBlock → Option ℕ
unfolding block_size_of
get_block_size dev table = if dev == 0 then none else some (block_size_of dev table)

-- Whether the device in the first zone number of an inode is the root device or has a slot.
unfoldable pub mounted : ℕ → ℕ → List SuperBlock → Bool
mounted root_dev zone_dev [] = zone_dev == root_dev
mounted root_dev zone_dev (sp ∷ table) = sp.dev == zone_dev || mounted root_dev zone_dev table

pub data Status : Type 0 where
  ok einval : Status

-- The version and byte order that a magic number stands for; `none` is EINVAL.
unfoldable pub version_of : ℕ → Option (ℕ × Bool)
unfolding conv2
version_of magic =
    if magic == 0x137f
    then some (1, true)
    else if magic == conv2 false 0x137f
    then some (1, false)
    else if magic == 0x2468
    then some (2, true)
    else if magic == conv2 false 0x2468
    then some (2, false)
    else if magic == 0x4d5a
    then some (3, true)
    else none

-- The fields of the disk in the byte order of the machine.
unfoldable pub convert : Bool → SuperBlock → SuperBlock
convert native sp = record sp {
  ninodes = conv4 native sp.ninodes;
  nzones = conv2 native sp.nzones;
  imap_blocks = conv2 native sp.imap_blocks;
  zmap_blocks = conv2 native sp.zmap_blocks;
  firstdatazone = conv2 native sp.firstdatazone;
  log_zone_size = conv2 native sp.log_zone_size;
  max_size = conv4 native sp.max_size;
  zones = conv4 native sp.zones;
}

-- The numbers that depend on the version; for V2 the block size is set, for V3 it comes from disk.
-- The Boolean is false when a V2 or V3 block size is less than MIN_BLOCK_SIZE, which is EINVAL before
-- the other numbers are set.
unfoldable pub by_version : ℕ → SuperBlock → Bool × SuperBlock
by_version version sp =
    let size = if version == 2 then static_block_size else sp.block_size in
    if version == 1
    then (
      true,
      record sp {
        block_size = static_block_size;
        zones = sp.nzones;
        inodes_per_block = static_block_size / v1_inode_size;
        ndzones = 7;
        nindirs = static_block_size / 2;
      },
    )
    else if ltb size min_block_size
    then (false, record sp { block_size = size })
    else (
      true,
      record sp {
        block_size = size;
        inodes_per_block = size / v2_inode_size;
        ndzones = 7;
        nindirs = size / 4;
      },
    )

-- The checks of the block size.
unfoldable pub bad_block_size : ℕ → Bool
bad_block_size size =
    ltb size min_block_size
    || ltb max_block_size size
    || not (size % 512 == 0)
    || ltb size super_size
    || not (size % v2_inode_size == 0)
    || not (size % v1_inode_size == 0)

-- `x < 1` for a short, given as its 16-bit pattern.
abbrev pub short_lt_one : ℕ → Bool
short_lt_one x = x == 0 || leb 32768 x

-- The last checks: `(unsigned) s_log_zone_size > 4` also refuses a negative short.
unfoldable pub bad_sizes : SuperBlock → Bool
bad_sizes sp =
    short_lt_one sp.imap_blocks
    || short_lt_one sp.zmap_blocks
    || sp.ninodes == 0
    || sp.zones == 0
    || ltb 4 sp.log_zone_size

-- The part of read_super after the magic number is known.
unfoldable pub fill_super : ℕ → ℕ → Bool → SuperBlock → Status × SuperBlock
fill_super dev version native sp =
    let (sized, read) = by_version version (convert native sp) in
    let full = record read { isearch = 0; zsearch = 0; version = version; native = native } in
    if not sized
    then (einval, read)
    else if bad_block_size read.block_size
    then (einval, read)
    else if bad_sizes full
    then (einval, full)
    else (ok, record full { dev = dev })

-- `disk` is the super block as dev_io read it, with the in-memory fields that memcpy copies along;
-- `none` is a transfer that did not give MIN_BLOCK_SIZE bytes. The result `none` is the panic on NO_DEV.
unfoldable pub read_super : Option SuperBlock → SuperBlock → Option (Status × SuperBlock)
read_super none sp = if sp.dev == 0 then none else some (einval, sp)
read_super (some disk) sp =
    let copied = record disk { dev = 0 } in
    if sp.dev == 0 then none else elim (version_of disk.magic) [
      | none ↦ some (einval, copied)
      | some (version, native) ↦ some (fill_super sp.dev version native copied)
    ]
