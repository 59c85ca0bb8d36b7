-- ===== src/Fs/Volume.antt =====
-- The state that inodes live in, and the parts of sdios/src/minix3fs/servers/fs/inode.c that move an
-- inode between memory and disk: rw_inode, update_times and wipe_inode. The blocks of a device are seen
-- through get_block and put_block as what they hold: words of a bit map, entries of an indirect block,
-- or inodes of either layout; the regions of a device for these do not overlap.
pub mod Copies
pub mod Tests
use sdios.Prelude.{
  ℕ, zero, suc, ◌+◌, ◌*◌, ◌/◌, ◌%◌, ◌^◌, Bool, true, false, not, ◌&&◌, ◌||◌, Option, none, some,
  List, ◌==◌, if◌then◌else◌, get_elem?, set, replicate, ◌>>=◌,
}
use sdios.Fs.Super.{SuperBlock, get_super}
use sdios.Fs.Bitmap.{Store}
use sdios.Fs.Inode.{Inode}
use sdios.Fs.Inode.Copy.{
  D1Inode, D2Inode, read_old, write_old, read_new, write_new, inode_block, inode_index,
}

-- `inodes` is the inode table and `supers` the super block table. The others are told apart by device;
-- d1_inode and d2_inode by block and index in the block, and `stale` marks the dirty inode blocks.
pub record Volume : Type 0 where
  pub inodes : List Inode
  pub supers : List SuperBlock
  pub maps : ℕ → Store
  pub entries : ℕ → ℕ → ℕ → ℕ
  pub d1_inode : ℕ → ℕ → ℕ → D1Inode
  pub d2_inode : ℕ → ℕ → ℕ → D2Inode
  pub stale : ℕ → ℕ → Bool

-- The slot of the super block of a device, and the super block; `none` is a panic of get_super.
unfoldable pub super_of : ℕ → Volume → Option (ℕ × SuperBlock)
super_of dev v = do k ← get_super dev v.supers; sp ← get_elem? v.supers k; some (k, sp)

-- `now` is what clock_time answers.
unfoldable pub update_times : SuperBlock → ℕ → Inode → Inode
update_times sp now rip = if sp.rd_only then rip else record rip {
  atime = if rip.update_atime then now else rip.atime;
  ctime = if rip.update_ctime then now else rip.ctime;
  mtime = if rip.update_mtime then now else rip.mtime;
  update_atime = false;
  update_ctime = false;
  update_mtime = false;
}

-- V2_NR_TZONES is 10.
unfoldable pub wipe_inode : Inode → Inode
wipe_inode rip = record rip {
  size = 0;
  update_atime = true;
  update_ctime = true;
  update_mtime = true;
  dirt = true;
  zone = replicate 10 0;
}

abbrev pub has_update : Inode → Bool
has_update rip = rip.update_atime || rip.update_ctime || rip.update_mtime

-- The copy from the disk into an inode whose super block is in slot k.
unfoldable pub read_copy : ℕ → SuperBlock → Inode → Volume → Inode
read_copy k sp rip v =
    let b = inode_block sp rip.num in
    let i = inode_index sp rip.num in
    let held = record rip { sp = some k } in
    record (if sp.version == 1
      then read_old sp.native (v.d1_inode rip.dev b i) held
      else read_new sp.native sp.block_size (v.d2_inode rip.dev b i) held) { dirt = false }

-- rw_inode with READING.
unfoldable pub read_inode : Inode → Volume → Option Inode
unfolding super_of read_copy
read_inode rip v = do (k, sp) ← super_of rip.dev v; some (read_copy k sp rip v)

-- One value of a function of device, block and index is replaced.
unfoldable pub put_at {ℓ} : {A : Type ℓ} → ℕ → ℕ → ℕ → A → (ℕ → ℕ → ℕ → A) → ℕ → ℕ → ℕ → A
put_at dev b i x f dev' b' i' = if dev' == dev && (b' == b && i' == i) then x else f dev' b' i'

-- The inode as it is written, its times brought up to date.
unfoldable pub timed : ℕ → SuperBlock → ℕ → Inode → Inode
unfolding update_times
timed k sp now rip =
    let held = record rip { sp = some k } in
    if has_update held then update_times sp now held else held

-- The copy of an inode onto the disk. On a read-only device the block in memory changes and is not
-- marked.
unfoldable pub write_copy : SuperBlock → Inode → Volume → Volume
unfolding put_at
write_copy sp rip v =
    let b = inode_block sp rip.num in
    let i = inode_index sp rip.num in
    record v {
      d1_inode =
          if sp.version == 1
          then put_at rip.dev b i (write_old sp.native rip) v.d1_inode
          else v.d1_inode;
      d2_inode =
          if sp.version == 1
          then v.d2_inode
          else put_at rip.dev b i (write_new sp.native rip) v.d2_inode;
      stale = if sp.rd_only then v.stale else λ dev' b'.
          if dev' == rip.dev && b' == b then true else v.stale dev' b';
    }

-- rw_inode with WRITING: the inode that is written, and the state behind it.
unfoldable pub write_inode : ℕ → Inode → Volume → Option (Inode × Volume)
unfolding super_of timed write_copy
write_inode now rip v = do
  (k, sp) ← super_of rip.dev v
  let rip' = timed k sp now rip
  some (record rip' { dirt = false }, write_copy sp rip' v)
