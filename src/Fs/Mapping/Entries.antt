-- ===== src/Fs/Mapping/Entries.antt =====
-- Entries of indirect blocks: what is written is read back, and other entries stay.
use sdios.Prelude.{
  ℕ, zero, suc, ◌*◌, ◌^◌, ◌≤◌, ◌<◌, ◌≡◌, ◌≢◌, refl, Bool, some, ◌==◌, if◌then◌else◌, arith, sym, ap,
  ◌∙◌, ℕ_discrete,
}
use native.Mathlib.Nat.{mod-eq_of_lt}
use sdios.Fs.Words.{conv2, conv4, conv2-conv2, conv4-conv4}
use sdios.Fs.Super.{SuperBlock}
use sdios.Fs.Zones.Alloc.{HasZones}
use sdios.Fs.Mapping.{
  Device, first_block, rd_indir, wr_indir, block_in, read_single, read_double, zero_if, put_entry,
  write_single,
}

-- Zone numbers have room in an entry, and the blocks of every zone in a 32-bit block number.
pub record ZonesFit (sp : SuperBlock) : Type 0 where
  pub zones : HasZones sp
  pub short : sp.version ≡ 1 → sp.zones ≤ 2 ^ 16
  pub blocks : sp.zones * 2 ^ sp.log_zone_size ≤ 2 ^ 32

-- A data zone of the device.
abbrev pub IsZone : SuperBlock → ℕ → Type 0
IsZone sp z = (sp.firstdatazone ≤ z) × (z < sp.zones)

stored :
    (sp : SuperBlock) (z : ℕ)
    → ZonesFit sp
    → z < sp.zones
    → (if sp.version == 1 then conv2 sp.native (wr_indir sp z) else conv4 sp.native (wr_indir sp z))
      ≡ z
unfolding wr_indir
stored sp z f l = elim (ℕ_discrete sp.version 1) [
  | yes v1 ↦
      let back = conv2-conv2 sp.native z ∙ mod-eq_of_lt (omega (arith, f.short v1, l)) in
      ground (arith, v1, back)
  | no v2 ↦
      let back = conv4-conv4 sp.native z (omega (arith, f.zones.fits, l)) in
      ground (arith, v2, back)
]

-- A zone number that wr_indir stores is what rd_indir reads.
pub rd_indir-wr_indir :
    (sp : SuperBlock) (z : ℕ) → ZonesFit sp → IsZone sp z → rd_indir sp (wr_indir sp z) ≡ some z
unfolding rd_indir
rd_indir-wr_indir sp z f l = rw (stored sp z f l.1) (ground (arith, l.0, l.1))

-- What rd_indir reads is no zone or a data zone.
pub rd_indir-IsZone :
    (sp : SuperBlock) (entry z : ℕ) → rd_indir sp entry ≡ some z → z ≢ 0 → IsZone sp z
unfolding rd_indir
rd_indir-IsZone sp entry z e ne = ground arith

mul_cancel : (a b k : ℕ) → 0 < k → a * k ≡ b * k → a ≡ b
mul_cancel a b k h e = grind arith

mul_below : (a n k m : ℕ) → 0 < k → a < n → n * k ≤ m → a * k < m
mul_below a n k m p h l = grind arith

pow_pos : (k : ℕ) → 0 < 2 ^ k
pow_pos zero = omega arith
pow_pos (suc k) = omega (arith, pow_pos k)

-- Different zones have different first blocks.
pub first_block_ne :
    (sp : SuperBlock) (a b : ℕ)
    → ZonesFit sp
    → a < sp.zones
    → b < sp.zones
    → a ≢ b
    → first_block sp a ≢ first_block sp b
unfolding first_block
first_block_ne sp a b f la lb ne e =
    let k = 2 ^ sp.log_zone_size in
    let p = pow_pos sp.log_zone_size in
    ne (
      mul_cancel a b k p (
        sym (mod-eq_of_lt (mul_below a sp.zones k (2 ^ 32) p la f.blocks))
        ∙ e
        ∙ mod-eq_of_lt (mul_below b sp.zones k (2 ^ 32) p lb f.blocks)))

-- After write_single, read_single finds the zone that was entered.
pub read_single-write_single :
    (new : Bool) (z1 ex new_zone boff : ℕ) (dv : Device)
    → ZonesFit dv.sp
    → z1 ≢ 0
    → IsZone dv.sp new_zone
    → read_single dv.sp (write_single new z1 ex new_zone dv).entries z1 ex boff
      ≡ some (block_in dv.sp boff new_zone)
unfolding read_single write_single put_entry
read_single-write_single new z1 ex new_zone boff dv f ne l =
    ground (arith, rd_indir-wr_indir dv.sp new_zone f l)

-- write_single keeps the blocks of other zones.
pub write_single_elsewhere :
    (new : Bool) (z1 ex new_zone : ℕ) (dv : Device) (c i : ℕ)
    → c ≢ first_block dv.sp z1
    → (write_single new z1 ex new_zone dv).entries c i ≡ dv.entries c i
unfolding write_single put_entry zero_if
write_single_elsewhere new z1 ex new_zone dv c i ne = ground arith

read_double_through :
    (sp : SuperBlock) (entries : ℕ → ℕ → ℕ) (z z1 i ex boff : ℕ)
    → rd_indir sp (entries (first_block sp z) i) ≡ some z1
    → read_double sp entries z i ex boff ≡ read_single sp entries z1 ex boff
unfolding read_double
read_double_through sp entries z z1 i ex boff e = rw (e, read_double) refl

-- write_single keeps what the entries of another zone's block lead to.
pub read_double-write_single :
    (new : Bool) (z z1 i ex new_zone boff : ℕ) (dv : Device)
    → ZonesFit dv.sp
    → z < dv.sp.zones
    → IsZone dv.sp z1
    → z1 ≢ 0
    → z ≢ z1
    → IsZone dv.sp new_zone
    → rd_indir dv.sp (dv.entries (first_block dv.sp z) i) ≡ some z1
    → read_double dv.sp (write_single new z1 ex new_zone dv).entries z i ex boff
      ≡ some (block_in dv.sp boff new_zone)
read_double-write_single new z z1 i ex new_zone boff dv f l l1 ne1 ne k e =
    read_double_through dv.sp _ z z1 i ex boff (
      ap (rd_indir dv.sp) (
        write_single_elsewhere new z1 ex new_zone dv (first_block dv.sp z) i
          (first_block_ne dv.sp z z1 f l l1.1 ne))
      ∙ e)
    ∙ read_single-write_single new z1 ex new_zone boff dv f ne1 k
