-- ===== src/Fs/Mapping.antt =====
-- From file positions to blocks: read_map and rd_indir of sdios/src/minix3fs/servers/fs/read.c, and
-- write_map and wr_indir of write.c there. `entries b i` is entry i of block b as it stands on disk,
-- and the super block is the slot of the inode's device, which i_sp points to.
pub mod Entries
pub mod RoundTrip
pub mod Position
mod Tests
use sdios.Prelude.{
  ℕ, ◌+◌, ◌-◌, ◌*◌, ◌/◌, ◌%◌, ◌^◌, Bool, true, false, not, Option, none, some, ◌==◌, ltb, leb, ◌&&◌,
  ◌||◌, if◌then◌else◌, get_or, set,
}
use sdios.Fs.Words.{conv2, conv4}
use sdios.Fs.Super.{SuperBlock}
use sdios.Fs.Bitmap.{Store}
use sdios.Fs.Inode.{Inode}
use sdios.Fs.Zones.{alloc_zone}

-- The part of the file system that mapping a position may change.
pub record Device : Type 0 where
  pub sp : SuperBlock
  pub maps : Store
  pub entries : ℕ → ℕ → ℕ

pub data Status : Type 0 where
  ok efbig enospc : Status

-- The first block of a zone, as a 32-bit block number.
unfoldable pub first_block : SuperBlock → ℕ → ℕ
first_block sp z = (z * 2 ^ sp.log_zone_size) % 2 ^ 32

-- `none` is the panic on a zone number outside the device.
unfoldable pub rd_indir : SuperBlock → ℕ → Option ℕ
rd_indir sp entry =
    let zone = if sp.version == 1 then conv2 sp.native entry else conv4 sp.native entry in
    if not (zone == 0) && (ltb zone sp.firstdatazone || leb sp.zones zone) then none else some zone

unfoldable pub wr_indir : SuperBlock → ℕ → ℕ
wr_indir sp zone = if sp.version == 1 then conv2 sp.native zone else conv4 sp.native zone

-- Block `boff` of a zone; 0 is NO_BLOCK.
unfoldable pub block_in : SuperBlock → ℕ → ℕ → ℕ
unfolding first_block
block_in sp boff z = if z == 0 then 0 else (first_block sp z + boff) % 2 ^ 32

-- The end of read_map: entry `ex` of the single indirect zone z.
unfoldable pub read_single : SuperBlock → (ℕ → ℕ → ℕ) → ℕ → ℕ → ℕ → Option ℕ
unfolding first_block rd_indir block_in
read_single sp entries z ex boff =
    if z == 0 then some 0 else elim (rd_indir sp (entries (first_block sp z) ex)) [
      | none ↦ none
      | some z' ↦ some (block_in sp boff z')
    ]

-- Entry i of the double indirect zone z, and entry `ex` of the zone that stands there.
unfoldable pub read_double : SuperBlock → (ℕ → ℕ → ℕ) → ℕ → ℕ → ℕ → ℕ → Option ℕ
unfolding read_single first_block rd_indir
read_double sp entries z i ex boff = elim (rd_indir sp (entries (first_block sp z) i)) [
  | none ↦ none
  | some z1 ↦ read_single sp entries z1 ex boff
]

-- The zone of a position within the file, and the block within the zone.
abbrev pub zone_at : SuperBlock → ℕ → ℕ
zone_at sp position = (position / sp.block_size) / 2 ^ sp.log_zone_size

abbrev pub boff_at : SuperBlock → ℕ → ℕ
boff_at sp position = position / sp.block_size - zone_at sp position * 2 ^ sp.log_zone_size

unfoldable pub read_map : SuperBlock → (ℕ → ℕ → ℕ) → Inode → ℕ → Option ℕ
unfolding read_single read_double block_in
read_map sp entries rip position =
    let zone = zone_at sp position in
    let boff = boff_at sp position in
    let excess = zone - rip.ndzones - rip.nindirs in
    let z = get_or rip.zone (rip.ndzones + 1) 0 in
    if ltb zone rip.ndzones
    then some (block_in sp boff (get_or rip.zone zone 0))
    else if ltb (zone - rip.ndzones) rip.nindirs
    then read_single sp entries (get_or rip.zone rip.ndzones 0) (zone - rip.ndzones) boff
    else if z == 0
    then some 0
    else read_double sp entries z (excess / rip.nindirs) (excess % rip.nindirs) boff

-- zero_block on a block that has just been allocated.
unfoldable pub zero_if : Bool → ℕ → (ℕ → ℕ → ℕ) → ℕ → ℕ → ℕ
zero_if new b entries c i = if new && c == b then 0 else entries c i

unfoldable pub put_entry : ℕ → ℕ → ℕ → (ℕ → ℕ → ℕ) → ℕ → ℕ → ℕ
put_entry b i v entries c j = if c == b && j == i then v else entries c j

-- The end of write_map: entry `ex` of the single indirect zone z1, which may be new.
unfoldable pub write_single : Bool → ℕ → ℕ → ℕ → Device → Device
unfolding zero_if put_entry wr_indir first_block
write_single new z1 ex new_zone dv =
    let b = first_block dv.sp z1 in
    record dv { entries = put_entry b ex (wr_indir dv.sp new_zone) (zero_if new b dv.entries) }

-- The single indirect zone in the inode, allocated when there is none.
unfoldable pub write_in_single : ℕ → ℕ → Inode → Device → Option (Status × Inode × Device)
unfolding write_single
write_in_single ex new_zone rip dv =
    let z1 = get_or rip.zone rip.ndzones 0 in
    if not (z1 == 0)
    then some (ok, rip, write_single false z1 ex new_zone dv)
    else elim (alloc_zone dv.sp (get_or rip.zone 0 0) dv.maps) [
      | none ↦ none
      | some (n, sp', maps') ↦
          let dv' = record dv { sp = sp'; maps = maps' } in
          let rip' = record rip { zone = set rip.zone rip.ndzones n } in
          if n == 0
          then some (enospc, rip', dv')
          else some (ok, rip', write_single true n ex new_zone dv')
    ]

-- Below the double indirect zone z, which may be new. `excess` counts from its first position.
unfoldable pub write_in_double :
    Bool → ℕ → ℕ → ℕ → Inode → Device → Option (Status × Inode × Device)
unfolding write_single zero_if put_entry rd_indir wr_indir first_block
write_in_double new_dbl z excess new_zone rip dv =
    let ind_ex = excess / rip.nindirs in
    let ex = excess % rip.nindirs in
    let b = first_block dv.sp z in
    let cleared = record dv { entries = zero_if new_dbl b dv.entries } in
    if leb rip.nindirs ind_ex
    then some (efbig, rip, dv)
    else elim (rd_indir dv.sp (cleared.entries b ind_ex)) [
      | none ↦ none
      | some z1 ↦
          if not (z1 == 0)
          then some (ok, rip, write_single false z1 ex new_zone cleared)
          else elim (alloc_zone dv.sp (get_or rip.zone 0 0) dv.maps) [
            | none ↦ none
            | some (n, sp', maps') ↦
                let dv' : Device = record {
                  sp = sp';
                  maps = maps';
                  entries = put_entry b ind_ex (wr_indir sp' n) cleared.entries;
                } in
                if n == 0
                then some (enospc, rip, dv')
                else some (ok, rip, write_single true n ex new_zone dv')
          ]
    ]

-- `none` is a panic.
unfoldable pub write_map : ℕ → ℕ → Inode → Device → Option (Status × Inode × Device)
unfolding write_in_single write_in_double
write_map position new_zone rip_in dv =
    let rip = record rip_in { dirt = true } in
    let zone = zone_at dv.sp position in
    let excess = zone - rip.ndzones - rip.nindirs in
    let z = get_or rip.zone (rip.ndzones + 1) 0 in
    if ltb zone rip.ndzones
    then some (ok, record rip { zone = set rip.zone zone new_zone }, dv)
    else if ltb (zone - rip.ndzones) rip.nindirs
    then write_in_single (zone - rip.ndzones) new_zone rip dv
    else if not (z == 0)
    then write_in_double false z excess new_zone rip dv
    else elim (alloc_zone dv.sp (get_or rip.zone 0 0) dv.maps) [
      | none ↦ none
      | some (n, sp', maps') ↦
          if n == 0
          then some (enospc, rip, record dv { sp = sp'; maps = maps' })
          else write_in_double true n excess new_zone
              (record rip { zone = set rip.zone (rip.ndzones + 1) n })
              (record dv { sp = sp'; maps = maps' })
    ]
