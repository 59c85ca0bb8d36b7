-- ===== src/Fs/Super/Read.antt =====
-- What read_super accepts, and that the byte order of the disk does not matter.
use sdios.Prelude.{
  ℕ, ◌%◌, ◌≤◌, ◌<◌, ◌^◌, ◌≡◌, ◌≢◌, ◌⊎◌, inl, inr, refl, Bool, true, false, Option, none, some,
  arith, Option-cases, ◌∙◌,
}
use sdios.Fs.Words.{conv2, conv4, conv2-conv2, conv4-conv4}
use sdios.Fs.Super.{
  SuperBlock, ok, einval, version_of, convert, by_version, bad_block_size, bad_sizes, fill_super,
  read_super, min_block_size, max_block_size,
}

-- What a super block promises to the rest of the file server.
pub record IsUsable (sp : SuperBlock) : Type 0 where
  pub large : min_block_size ≤ sp.block_size
  pub small : sp.block_size ≤ max_block_size
  pub sectors : sp.block_size % 512 ≡ 0
  pub imap_there : 1 ≤ sp.imap_blocks
  pub zmap_there : 1 ≤ sp.zmap_blocks
  pub inodes_there : 1 ≤ sp.ninodes
  pub zones_there : 1 ≤ sp.zones
  pub zone_size : sp.log_zone_size ≤ 4
  pub direct : sp.ndzones ≡ 7
  pub indirect : 0 < sp.nindirs
  pub per_block : 0 < sp.inodes_per_block
  pub no_search : (sp.isearch ≡ 0) × (sp.zsearch ≡ 0)

good_block_size :
    (size : ℕ)
    → bad_block_size size ≡ false
    → (min_block_size ≤ size) × (size ≤ max_block_size) × (size % 512 ≡ 0)
unfolding bad_block_size
good_block_size size e = ground arith

good_sizes :
    (sp : SuperBlock)
    → bad_sizes sp ≡ false
    → (1 ≤ sp.imap_blocks)
      × (1 ≤ sp.zmap_blocks)
      × (1 ≤ sp.ninodes)
      × (1 ≤ sp.zones)
      × (sp.log_zone_size ≤ 4)
unfolding bad_sizes
good_sizes sp e = ground arith

by_version_numbers :
    (version : ℕ) (sp : SuperBlock)
    → (by_version version sp).0 ≡ true
    → ((by_version version sp).1.ndzones ≡ 7)
      × (0 < (by_version version sp).1.nindirs)
      × (0 < (by_version version sp).1.inodes_per_block)
unfolding by_version
by_version_numbers version sp e = ground arith

fill_super-IsUsable :
    (dev version : ℕ) (native : Bool) (sp sp' : SuperBlock)
    → fill_super dev version native sp ≡ (ok, sp')
    → IsUsable sp' × (sp'.dev ≡ dev) × (sp'.version ≡ version) × (sp'.native ≡ native)
unfolding fill_super
fill_super-IsUsable dev version native sp sp' e =
    let read = (by_version version (convert native sp)).1 in
    let full = record read { isearch = 0; zsearch = 0; version = version; native = native } in
    ground (
      arith,
      good_block_size read.block_size,
      good_sizes full,
      by_version_numbers version (convert native sp),
    )

-- When read_super returns OK, the disk was read and its magic number is a known one, and the super
-- block has that version and byte order, the device that it was read for, a block size from
-- MIN_BLOCK_SIZE to MAX_BLOCK_SIZE that is a multiple of 512, at least one block of each map, one
-- inode and one zone, a zone size of at most 2 ^ 4 blocks, seven direct zones, indirect blocks and
-- inode blocks that are not empty, and both searches at 0.
pub read_super-IsUsable :
    (disk : Option SuperBlock) (sp sp' : SuperBlock)
    → read_super disk sp ≡ some (ok, sp')
    → IsUsable sp'
      × (sp'.dev ≡ sp.dev)
      × ((d : SuperBlock) × (disk ≡ some d) × (version_of d.magic ≡ some (sp'.version, sp'.native)))
unfolding read_super
read_super-IsUsable none sp sp' e = absurd (ground arith)
read_super-IsUsable (some d) sp sp' e = elim (Option-cases (version_of d.magic)) [
  | inl bad ↦ absurd (ground (arith, bad))
  | inr ((version, native), known) ↦
      let filled : fill_super sp.dev version native (record d { dev = 0 }) ≡ (ok, sp') =
        ground (arith, known) in
      let u = fill_super-IsUsable sp.dev version native (record d { dev = 0 }) sp' filled in
      (u.0, u.1, (d, refl, ground (arith, known, u.2, u.3)))
]

fill_super-freed :
    (dev version : ℕ) (native : Bool) (sp sp' : SuperBlock)
    → sp.dev ≡ 0
    → fill_super dev version native sp ≡ (einval, sp')
    → sp'.dev ≡ 0
unfolding fill_super convert by_version
fill_super-freed dev version native sp sp' z e = ground arith

-- When read_super returns EINVAL, either the disk could not be read and the slot is unchanged, or the
-- slot is left free.
pub read_super-einval :
    (disk : Option SuperBlock) (sp sp' : SuperBlock)
    → read_super disk sp ≡ some (einval, sp')
    → ((disk ≡ none) × (sp' ≡ sp)) ⊎ (sp'.dev ≡ 0)
unfolding read_super
read_super-einval none sp sp' e = inl (refl, ground arith)
read_super-einval (some d) sp sp' e = elim (Option-cases (version_of d.magic)) [
  | inl bad ↦ inr (ground (arith, bad))
  | inr ((version, native), known) ↦ inr (
      fill_super-freed sp.dev version native (record d { dev = 0 }) sp' refl
        (ground (arith, known)))
]

-- The super block as a machine of the other byte order writes it.
unfoldable pub foreign : SuperBlock → SuperBlock
foreign sp = record sp {
  ninodes = conv4 false sp.ninodes;
  nzones = conv2 false sp.nzones;
  imap_blocks = conv2 false sp.imap_blocks;
  zmap_blocks = conv2 false sp.zmap_blocks;
  firstdatazone = conv2 false sp.firstdatazone;
  log_zone_size = conv2 false sp.log_zone_size;
  max_size = conv4 false sp.max_size;
  zones = conv4 false sp.zones;
  magic = conv2 false sp.magic;
}

-- The fields that conv4 swaps fit 32 bits.
pub record FitsDisk (sp : SuperBlock) : Type 0 where
  pub ninodes_fit : sp.ninodes < 2 ^ 32
  pub max_size_fit : sp.max_size < 2 ^ 32
  pub zones_fit : sp.zones < 2 ^ 32

conv2_twice : (x : ℕ) → conv2 false (conv2 false x) ≡ conv2 true x
conv2_twice x = conv2-conv2 false x ∙ unfold conv2 in refl

conv4_twice : (x : ℕ) → x < 2 ^ 32 → conv4 false (conv4 false x) ≡ conv4 true x
conv4_twice x h = conv4-conv4 false x h ∙ unfold conv4 in refl

convert-foreign :
    (d : SuperBlock)
    → FitsDisk d
    → convert false (foreign d) ≡ record (convert true d) { magic = conv2 false d.magic }
unfolding convert foreign
convert-foreign d f = rw (
  conv4_twice d.ninodes f.ninodes_fit,
  conv4_twice d.max_size f.max_size_fit,
  conv4_twice d.zones f.zones_fit,
  conv2_twice d.nzones,
  conv2_twice d.imap_blocks,
  conv2_twice d.zmap_blocks,
  conv2_twice d.firstdatazone,
  conv2_twice d.log_zone_size,
)

module _ (version : ℕ) (sp : SuperBlock) (m : ℕ) where
  -- The magic number plays no part in what follows.
  by_version-magic : (by_version version (record sp { magic = m })).0 ≡ (by_version version sp).0
  unfolding by_version
  by_version-magic = ground arith

  by_version-magic_kept :
      (by_version version (record sp { magic = m })).1
      ≡ record ((by_version version sp).1) { magic = m }
  unfolding by_version
  by_version-magic_kept = ground arith

bad_sizes-marks :
    (sp : SuperBlock) (m : ℕ) (b : Bool)
    → bad_sizes (record sp { magic = m; native = b }) ≡ bad_sizes sp
unfolding bad_sizes
bad_sizes-marks sp m b = refl

fill_super-foreign :
    (dev version : ℕ) (d sp' : SuperBlock)
    → FitsDisk d
    → fill_super dev version true d ≡ (ok, sp')
    → fill_super dev version false (foreign d)
      ≡ (ok, record sp' { native = false; magic = conv2 false d.magic })
unfolding fill_super
fill_super-foreign dev version d sp' f e =
    rw
      (
        convert-foreign d f,
        by_version-magic version (convert true d) (conv2 false d.magic),
        by_version-magic_kept version (convert true d) (conv2 false d.magic),
      )
      (ground (
        arith,
        bad_sizes-marks
            (record ((by_version version (convert true d)).1) {
              isearch = 0;
              zsearch = 0;
              version = version;
              native = true;
            })
            (conv2 false d.magic) false,
      ))

version_of-foreign :
    (m v : ℕ)
    → version_of m ≡ some (v, true)
    → m ≢ 0x4d5a
    → version_of (conv2 false m) ≡ some (v, false)
unfolding version_of
version_of-foreign m v e ne = ground arith

-- A V1 or V2 super block that read_super accepts in the byte order of the machine is accepted with
-- the same values when a machine of the other byte order wrote it; only the byte order flag and
-- the magic number of the result differ.
pub read_super-foreign :
    (d sp sp' : SuperBlock)
    → FitsDisk d
    → d.magic ≢ 0x4d5a
    → read_super (some d) sp ≡ some (ok, sp')
    → sp'.native ≡ true
    → read_super (some (foreign d)) sp
      ≡ some (ok, record sp' { native = false; magic = conv2 false d.magic })
unfolding read_super foreign
read_super-foreign d sp sp' f ne e n = elim (Option-cases (version_of d.magic)) [
  | inl bad ↦ absurd (ground (arith, bad))
  | inr ((version, native), known) ↦
      let filled : fill_super sp.dev version native (record d { dev = 0 }) ≡ (ok, sp') =
        ground (arith, known) in
      let u = fill_super-IsUsable sp.dev version native (record d { dev = 0 }) sp' filled in
      let same : native ≡ true = ground (arith, n, u.3) in
      let known' : version_of (conv2 false d.magic) ≡ some (version, false) =
        version_of-foreign d.magic version (ground (arith, known, same)) ne in
      let filled' : fill_super sp.dev version true (record d { dev = 0 }) ≡ (ok, sp') =
        rw same at filled in
      let fits : FitsDisk (record d { dev = 0 }) = record {
        ninodes_fit = f.ninodes_fit;
        max_size_fit = f.max_size_fit;
        zones_fit = f.zones_fit;
      } in
      ground
        (arith, known', fill_super-foreign sp.dev version (record d { dev = 0 }) sp' fits filled')
]
