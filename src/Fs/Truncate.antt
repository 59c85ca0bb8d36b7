-- ===== src/Fs/Truncate.antt =====
-- truncate of sdios/src/minix3fs/servers/fs/link.c: the zones of a file are freed.
pub mod Kept
use sdios.Prelude.{
  ℕ, zero, suc, ◌+◌, ◌-◌, ◌*◌, ◌/◌, ◌%◌, ◌^◌, true, ◌||◌, Option, some, ◌==◌, if◌then◌else◌, get_or,
  get_elem?, set, ◌>>=◌,
}
use sdios.Fs.Super.{SuperBlock}
use sdios.Fs.Bitmap.{Store}
use sdios.Fs.Inode.{Inode, type_of, i_char_special, i_block_special}
use sdios.Fs.Zones.{free_zone}
use sdios.Fs.Mapping.{read_map, rd_indir, first_block}
use sdios.Fs.Volume.{Volume, super_of, wipe_inode}

-- The bit maps of one device are replaced.
unfoldable pub put_maps : ℕ → Store → (ℕ → Store) → ℕ → Store
put_maps dev s maps dev' = if dev' == dev then s else maps dev'

-- free_zone on the device, whose super block is in the table. `none` is a panic.
unfoldable pub free_zone_of : ℕ → ℕ → Volume → Option Volume
unfolding super_of free_zone put_maps
free_zone_of dev z v = do
  (k, sp) ← super_of dev v
  (sp', s') ← free_zone sp z (v.maps dev)
  some (record v { supers = set v.supers k sp'; maps = put_maps dev s' v.maps })

-- The super block that i_sp points to.
abbrev pub super_at : Inode → Volume → Option SuperBlock
super_at rip v = rip.sp >>= get_elem? v.supers

-- The zone of the block at a position is freed; a hole is passed over.
unfoldable pub free_at : Inode → ℕ → Volume → Option Volume
unfolding free_zone_of read_map
free_at rip position v = do
  sp ← super_at rip v
  b ← read_map sp (v.entries rip.dev) rip position
  if b == 0 then some v else free_zone_of rip.dev (b / 2 ^ sp.log_zone_size) v

-- `for (position = 0; position < i_size; position += zone_size)`, with n rounds left.
unfoldable pub free_data : Inode → ℕ → ℕ → ℕ → Volume → Option Volume
unfolding free_at
free_data rip zone_size zero position v = some v
free_data rip zone_size (suc n) position v =
    free_at rip position v >>= free_data rip zone_size n (position + zone_size)

-- `for (i = 0; i < nr_indirects; i++)`, on the double indirect block b, with n rounds left.
unfoldable pub free_indirects : Inode → ℕ → ℕ → ℕ → Volume → Option Volume
unfolding free_zone_of rd_indir
free_indirects rip b zero i v = some v
free_indirects rip b (suc n) i v = do
  sp ← super_at rip v
  z1 ← rd_indir sp (v.entries rip.dev b i)
  v' ← free_zone_of rip.dev z1 v
  free_indirects rip b n (suc i) v'

-- The single indirect zone, then those below the double indirect zone, then that one.
unfoldable pub free_tree : SuperBlock → Inode → Volume → Option Volume
unfolding free_indirects free_zone_of first_block
free_tree sp rip v = do
  v' ← free_zone_of rip.dev (get_or rip.zone rip.ndzones 0) v
  let z = get_or rip.zone (rip.ndzones + 1) 0
  if z == 0
      then some v'
      else free_indirects rip (first_block sp z) rip.nindirs 0 v' >>= free_zone_of rip.dev z

-- The bytes of a zone, and the rounds of the loop over the data zones.
abbrev pub zone_bytes : SuperBlock → ℕ
zone_bytes sp = (sp.block_size * 2 ^ sp.log_zone_size) % 2 ^ 32

abbrev pub data_rounds : SuperBlock → ℕ → ℕ
data_rounds sp size = (size + zone_bytes sp - 1) / zone_bytes sp

-- A pipe has the size PIPE_SIZE, V1_NR_DZONES blocks.
abbrev pub sized : SuperBlock → Inode → Inode
sized sp rip = if rip.pipe then record rip { size = 7 * sp.block_size } else rip

-- truncate on a file that is not special, with the super block that i_sp points to.
unfoldable pub truncate_file : SuperBlock → Inode → Volume → Option (Inode × Volume)
unfolding free_data free_tree
truncate_file sp rip_in v = do
  let rip = sized sp rip_in
  v' ← free_data rip (zone_bytes sp) (data_rounds sp rip.size) 0 v
  if rip.pipe
      then some (wipe_inode rip, v')
      else free_tree sp rip v' >>= λ v''. some (record rip { dirt = true }, v'')

-- `none` is a panic. The zone numbers stay in an inode that is no pipe.
unfoldable pub truncate : Inode → Volume → Option (Inode × Volume)
unfolding truncate_file
truncate rip v =
    if type_of rip.mode == i_char_special || type_of rip.mode == i_block_special
    then some (rip, v)
    else super_at rip v >>= λ sp. truncate_file sp rip v
