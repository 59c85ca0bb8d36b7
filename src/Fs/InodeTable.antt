-- ===== src/Fs/InodeTable.antt =====
-- The inode table of sdios/src/minix3fs/servers/fs/inode.c: get_inode, dup_inode, put_inode,
-- alloc_inode and free_inode. A pointer to an inode is a slot of the table.
pub mod Search
pub mod Get
pub mod Alloc
pub mod Full
pub mod Put
pub mod Release
mod Tests
use sdios.Prelude.{
  ℕ, zero, suc, ◌+◌, ◌-◌, ◌%◌, ◌^◌, Bool, true, false, not, ◌&&◌, ◌||◌, Option, none, some, List,
  [], ◌∷◌, ◌==◌, ltb, if◌then◌else◌, get_elem?, set, ◌>>=◌,
}
use sdios.Fs.Super.{SuperBlock}
use sdios.Fs.Bitmap.{Store, imap, alloc_bit, free_bit}
use sdios.Fs.Inode.{Inode}
use sdios.Fs.Protect.{Process}
use sdios.Fs.Volume.{Volume, super_of, read_inode, write_inode, wipe_inode}
use sdios.Fs.Truncate.{truncate, put_maps}

-- What the loop of get_inode comes to: the slot that holds the inode, or the free slot seen last.
pub data Seen : Type 0 where
  held : ℕ → Seen
  unused : Option ℕ → Seen

-- A slot in use that holds the inode of a device and number.
abbrev pub is_held : ℕ → ℕ → Inode → Bool
is_held dev numb rip = ltb 0 rip.count && (rip.dev == dev && rip.num == numb)

-- The loop from slot i on, with the free slot seen last.
unfoldable pub search_inodes : ℕ → ℕ → List Inode → ℕ → Option ℕ → Seen
search_inodes dev numb [] i xp = unused xp
search_inodes dev numb (rip ∷ table) i xp =
    let rest = search_inodes dev numb table (suc i) (if ltb 0 rip.count then xp else some i) in
    if is_held dev numb rip then held i else rest

abbrev pub put_slot : ℕ → Inode → Volume → Volume
put_slot i rip v = record v { inodes = set v.inodes i rip }

-- A free slot takes the inode, which is read from disk unless the device is NO_DEV.
unfoldable pub load : ℕ → ℕ → ℕ → Inode → Volume → Option Volume
unfolding read_inode
load dev numb i xp v = do
  let rip = record xp { dev = dev; num = numb; count = 1 }
  rip' ← if dev == 0 then some rip else read_inode rip v
  some (
      put_slot i (record rip' { update_atime = false; update_ctime = false; update_mtime = false })
        v)

unfoldable pub dup_inode : Inode → Inode
dup_inode rip = record rip { count = rip.count + 1 }

-- What get_inode does with the slot that it has seen.
unfoldable pub take_seen : ℕ → ℕ → Volume → Seen → Option (Option ℕ × Volume)
unfolding load dup_inode
take_seen dev numb v (held i) = do
  rip ← get_elem? v.inodes i
  some (some i, put_slot i (dup_inode rip) v)
take_seen dev numb v (unused none) = some (none, v)
take_seen dev numb v (unused (some i)) = do
  xp ← get_elem? v.inodes i
  v' ← load dev numb i xp v
  some (some i, v')

-- The slot, or `none` with the error ENFILE. The outer `none` is a panic.
unfoldable pub get_inode : ℕ → ℕ → Volume → Option (Option ℕ × Volume)
unfolding search_inodes take_seen
get_inode dev numb v = take_seen dev numb v (search_inodes dev numb v.inodes 0 none)

unfoldable pub free_inode : ℕ → ℕ → Volume → Option Volume
unfolding super_of free_bit put_maps
free_inode dev inumb v = do
  (k, sp) ← super_of dev v
  if inumb == 0 || ltb sp.ninodes inumb
      then some v
      else free_bit sp imap inumb (v.maps dev) >>= λ s'. some (record v {
        supers =
            if ltb inumb sp.isearch
            then set v.supers k (record sp { isearch = inumb })
            else v.supers;
        maps = put_maps dev s' v.maps;
      })

-- put_inode on the last use of an inode without links.
unfoldable pub erase : Inode → Volume → Option (Inode × Volume)
unfolding truncate free_inode
erase rip v = do
  (rip', v') ← truncate rip v
  v'' ← free_inode rip'.dev rip'.num v'
  some (record rip' { mode = 0; dirt = true }, v'')

-- put_inode on the last use, up to the write: a pipe with links is truncated.
unfoldable pub let_go : Inode → Volume → Option (Inode × Volume)
unfolding erase truncate
let_go rip v =
    if rip.nlinks == 0 then erase rip v else if rip.pipe then truncate rip v else some (rip, v)

unfoldable pub write_back : ℕ → Inode → Volume → Option (Inode × Volume)
unfolding write_inode
write_back now rip v = if rip.dirt then write_inode now rip v else some (rip, v)

-- put_inode on slot i once the count is 0. `now` is what clock_time answers.
unfoldable pub release : ℕ → ℕ → Inode → Volume → Option Volume
unfolding let_go write_back
release now i rip v = do
  (rip', v') ← let_go rip v
  (rip'', v'') ← write_back now (record rip' { pipe = false }) v'
  some (put_slot i rip'' v'')

-- put_inode on a slot that is in use; NIL_INODE, which it ignores, is not a slot. `none` is a panic,
-- or no slot of the table.
unfoldable pub put_inode : ℕ → ℕ → Volume → Option Volume
unfolding release
put_inode now i v = do
  rip ← get_elem? v.inodes i
  let less = record rip { count = rip.count - 1 }
  if rip.count == 1 then release now i less v else some (put_slot i less v)

pub data Allocated : Type 0 where
  slot : ℕ → Allocated
  erofs enfile : Allocated

-- The inode that alloc_inode puts into its slot.
unfoldable pub new_inode : Process → ℕ → ℕ → ℕ → SuperBlock → Inode → Inode
unfolding wipe_inode
new_inode fp dev bits k sp rip = wipe_inode (record rip {
  mode = bits;
  nlinks = 0;
  uid = fp.effuid;
  gid = fp.effgid;
  dev = dev;
  ndzones = sp.ndzones;
  nindirs = sp.nindirs;
  sp = some k;
})

-- What alloc_inode does with the slot that get_inode gives; without one the bit is freed again.
unfoldable pub fill_slot :
    Process → ℕ → ℕ → ℕ → SuperBlock → ℕ → Option ℕ → Volume → Option (Allocated × Volume)
unfolding new_inode put_maps free_bit
fill_slot fp dev bits k sp b none v = do
  s' ← free_bit sp imap b (v.maps dev)
  some (enfile, record v { maps = put_maps dev s' v.maps })
fill_slot fp dev bits k sp b (some i) v = do
  rip ← get_elem? v.inodes i
  some (slot i, put_slot i (new_inode fp dev bits k sp rip) v)

-- alloc_inode with the super block `sp` in slot k, once bit b has been searched for; 0 is NO_BIT.
unfoldable pub take_bit :
    Process → ℕ → ℕ → ℕ → SuperBlock → ℕ → Volume → Option (Allocated × Volume)
unfolding get_inode fill_slot
take_bit fp dev bits k sp b v =
    let sp' = record sp { isearch = b } in
    if b == 0 then some (enfile, v) else do
      (found, v') ← get_inode 0 b (record v { supers = set v.supers k sp' })
      fill_slot fp dev bits k sp' b found v'

unfoldable pub alloc_inode : Process → ℕ → ℕ → Volume → Option (Allocated × Volume)
unfolding super_of alloc_bit put_maps take_bit
alloc_inode fp dev bits v = do
  (k, sp) ← super_of dev v
  if sp.rd_only
      then some (erofs, v)
      else alloc_bit sp imap sp.isearch (v.maps dev) >>= λ (b, s').
          take_bit fp dev bits k sp b (record v { maps = put_maps dev s' v.maps })
