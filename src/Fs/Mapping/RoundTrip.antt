-- ===== src/Fs/Mapping/RoundTrip.antt =====
-- read_map after write_map: the position that was entered is found.
use sdios.Prelude.{
  ℕ, ◌/◌, ◌%◌, ◌<◌, ◌≡◌, ◌≢◌, refl, Bool, true, false, some, get_or, get_or-set_self, set, length,
  arith, sym, subst, ap, ◌∙◌, Option-cases, inl, inr, ℕ_discrete,
}
use sdios.Fs.Words.{conv2, conv4}
use sdios.Fs.Super.{SuperBlock}
use sdios.Fs.Inode.{Inode}
use sdios.Fs.Bitmap.{Store, zmap, map_bits, bit_blocks, start_block}
use sdios.Fs.Bitmap.Alloc.{IsMap}
use sdios.Fs.Zones.{alloc_zone}
use sdios.Fs.Zones.Alloc.{zone_bit, alloc_zone-found}
use sdios.Fs.Mapping.{
  Device, ok, first_block, rd_indir, wr_indir, block_in, read_single, read_double, zero_if,
  put_entry, write_single, write_in_single, write_in_double,
}
use sdios.Fs.Mapping.Entries.{
  ZonesFit, IsZone, rd_indir-wr_indir, rd_indir-IsZone, read_single-write_single,
  read_double-write_single,
}

-- Only the start of the next search differs.
abbrev pub Searched : SuperBlock → SuperBlock → Type 0
Searched sp' sp = (c : ℕ) × (sp' ≡ record sp { zsearch = c })

pub searched-ZonesFit : (sp sp' : SuperBlock) → Searched sp' sp → ZonesFit sp → ZonesFit sp'
searched-ZonesFit sp sp' (c, e) f = subst ZonesFit (sym e) (record {
  zones = record { first = f.zones.first; inside = f.zones.inside; fits = f.zones.fits };
  short = f.short;
  blocks = f.blocks;
})

pub searched-IsZone : (sp sp' : SuperBlock) (z : ℕ) → Searched sp' sp → IsZone sp z → IsZone sp' z
searched-IsZone sp sp' z (c, e) l = subst (λ (q : SuperBlock). IsZone q z) (sym e) l

pub searched-IsMap :
    (sp sp' : SuperBlock) (s : Store) → Searched sp' sp → IsMap sp zmap s → IsMap sp' zmap s
unfolding bit_blocks start_block map_bits
searched-IsMap sp sp' s (c, e) v =
    subst (λ (q : SuperBlock). IsMap q zmap s) (sym e)
      (record {
        words_fit = v.words_fit;
        whole = v.whole;
        bits_fit = v.bits_fit;
        not_empty = v.not_empty;
        block_size = v.block_size;
      })

write_single-Searched :
    (new : Bool) (z1 ex new_zone : ℕ) (dv : Device) (sp : SuperBlock)
    → Searched dv.sp sp
    → Searched (write_single new z1 ex new_zone dv).sp sp
unfolding write_single
write_single-Searched new z1 ex new_zone dv sp s = s

-- What the inode's single indirect zone leads to afterwards, with the counts of zones unchanged.
abbrev pub SingleFound :
    (ex new_zone boff : ℕ) (rip : Inode) (dv : Device) → Inode × Device → Type 0
SingleFound ex new_zone boff rip dv (rip', dv') =
    Searched dv'.sp dv.sp
    × (rip'.ndzones ≡ rip.ndzones)
    × (rip'.nindirs ≡ rip.nindirs)
    × (read_single dv'.sp dv'.entries (get_or rip'.zone rip.ndzones 0) ex boff
        ≡ some (block_in dv'.sp boff new_zone))

-- In the single indirect block, which is new or not.
pub write_in_single-found :
    (ex new_zone boff : ℕ) (rip rip' : Inode) (dv dv' : Device)
    → ZonesFit dv.sp
    → IsMap dv.sp zmap dv.maps
    → IsZone dv.sp new_zone
    → rip.ndzones < length rip.zone
    → write_in_single ex new_zone rip dv ≡ some (ok, rip', dv')
    → SingleFound ex new_zone boff rip dv (rip', dv')
unfolding write_in_single
write_in_single-found ex new_zone boff rip rip' dv dv' f v k len e =
    let z1 = get_or rip.zone rip.ndzones 0 in
    elim (ℕ_discrete z1 0) [
      | no there ↦
          let now : ◌≡◌ {A = Inode × Device} (rip, write_single false z1 ex new_zone dv)
              (rip', dv') =
            ground (arith, there) in
          subst (SingleFound ex new_zone boff rip dv) now (
            write_single-Searched false z1 ex new_zone dv dv.sp (dv.sp.zsearch, refl),
            refl,
            refl,
            read_single-write_single false z1 ex new_zone boff dv f there k,
          )
      | yes missing ↦ elim (Option-cases (alloc_zone dv.sp (get_or rip.zone 0 0) dv.maps)) [
        | inl panic ↦ absurd (ground (arith, missing, panic))
        | inr ((n, sp', maps'), got) ↦ elim (ℕ_discrete n 0) [
          | yes full ↦ absurd (ground (arith, missing, got, full))
          | no found ↦
              let (low, high, clear, set_bits, kept, after) =
                alloc_zone-found dv.sp _ dv.maps n sp' maps' v f.zones got found in
              let dv1 : Device = record dv { sp = sp'; maps = maps' } in
              let now : ◌≡◌ {A = Inode × Device}
                  (
                    record rip { zone = set rip.zone rip.ndzones n },
                    write_single true n ex new_zone dv1,
                  )
                  (rip', dv') =
                ground (arith, missing, got, found) in
              subst (SingleFound ex new_zone boff rip dv) now (
                write_single-Searched true n ex new_zone dv1 dv.sp after,
                refl,
                refl,
                ap
                      (λ (z : ℕ).
                        read_single sp' (write_single true n ex new_zone dv1).entries z ex boff)
                      (get_or-set_self rip.zone n 0 len)
                    ∙ read_single-write_single true n ex new_zone boff dv1
                        (searched-ZonesFit dv.sp sp' after f) found
                        (searched-IsZone dv.sp sp' new_zone after k),
              )
        ]
      ]
    ]

-- No entry of the block of zone z leads back to z.
abbrev pub Apart : ℕ → Device → Type 0
Apart z dv = (i z1 : ℕ) → rd_indir dv.sp (dv.entries (first_block dv.sp z) i) ≡ some z1 → z ≢ z1

abbrev pub cleared : Bool → ℕ → Device → Device
cleared new z dv = record dv { entries = zero_if new (first_block dv.sp z) dv.entries }

no_zone : (sp : SuperBlock) (z1 : ℕ) → rd_indir sp 0 ≡ some z1 → z1 ≡ 0
unfolding rd_indir conv2 conv4
no_zone sp z1 e = ground arith

pub cleared-Apart :
    (new : Bool) (z : ℕ) (dv : Device)
    → z ≢ 0
    → (new ≡ false → Apart z dv)
    → Apart z (cleared new z dv)
unfolding zero_if
cleared-Apart true z dv ne a i z1 e =
    let zero_read : rd_indir dv.sp 0 ≡ some z1 = ap (rd_indir dv.sp) (ground arith) ∙ e in
    λ same. ne (same ∙ no_zone dv.sp z1 zero_read)
cleared-Apart false z dv ne a i z1 e = a refl i z1 e

put_entry_self : (b i v : ℕ) (entries : ℕ → ℕ → ℕ) → put_entry b i v entries b i ≡ v
unfolding put_entry
put_entry_self b i v entries = ground arith

first_block-Searched :
    (sp sp' : SuperBlock) (z : ℕ) → Searched sp' sp → first_block sp' z ≡ first_block sp z
unfolding first_block
first_block-Searched sp sp' z (c, e) = ap (λ (q : SuperBlock). first_block q z) e

-- What zone z leads to afterwards.
abbrev pub DoubleFound :
    (z excess new_zone boff : ℕ) (rip : Inode) (dv : Device) → Inode × Device → Type 0
DoubleFound z excess new_zone boff rip dv (rip', dv') =
    Searched dv'.sp dv.sp
    × (rip' ≡ rip)
    × (read_double dv'.sp dv'.entries z (excess / rip.nindirs) (excess % rip.nindirs) boff
        ≡ some (block_in dv'.sp boff new_zone))

-- A single indirect zone n that has just been allocated below zone z.
module _ (z i ex near new_zone boff n : ℕ) (dv : Device) (sp' : SuperBlock) (maps' : Store)
    (f : ZonesFit dv.sp) (v : IsMap dv.sp zmap dv.maps) (k : IsZone dv.sp new_zone)
    (l : IsZone dv.sp z) (taken : zone_bit dv.sp dv.maps z ≡ 1)
    (got : alloc_zone dv.sp near dv.maps ≡ some (n, sp', maps')) (found : n ≢ 0) where
  abbrev extended : Device
  extended = record {
    sp = sp';
    maps = maps';
    entries = put_entry (first_block dv.sp z) i (wr_indir sp' n) dv.entries;
  }

  extended-Searched : Searched sp' dv.sp
  extended-Searched =
      let (low, high, clear, bits, kept, after) =
        alloc_zone-found dv.sp near dv.maps n sp' maps' v f.zones got found in
      after

  extended-read :
      read_double sp' (write_single true n ex new_zone extended).entries z i ex boff
      ≡ some (block_in sp' boff new_zone)
  extended-read =
      let (low, high, clear, bits, kept, after) =
        alloc_zone-found dv.sp near dv.maps n sp' maps' v f.zones got found in
      let f' = searched-ZonesFit dv.sp sp' after f in
      let l' = searched-IsZone dv.sp sp' z after l in
      let n' : IsZone sp' n = searched-IsZone dv.sp sp' n after (low, high) in
      let fresh : z ≢ n = λ same.
        absurd (omega (arith, clear, subst (λ (q : ℕ). zone_bit dv.sp dv.maps q ≡ 1) same taken)) in
      let entry : extended.entries (first_block sp' z) i ≡ wr_indir sp' n =
        ap (λ (b : ℕ). extended.entries b i) (first_block-Searched dv.sp sp' z after)
        ∙ put_entry_self (first_block dv.sp z) i (wr_indir sp' n) dv.entries in
      read_double-write_single true z n i ex new_zone boff extended f' l'.1 n' found fresh
        (searched-IsZone dv.sp sp' new_zone after k)
        (ap (rd_indir sp') entry ∙ rd_indir-wr_indir sp' n f' n')

-- Below a double indirect zone, which is new or not.
pub write_in_double-found :
    (new_dbl : Bool) (z excess new_zone boff : ℕ) (rip rip' : Inode) (dv dv' : Device)
    → ZonesFit dv.sp
    → IsMap dv.sp zmap dv.maps
    → IsZone dv.sp new_zone
    → IsZone dv.sp z
    → zone_bit dv.sp dv.maps z ≡ 1
    → Apart z (cleared new_dbl z dv)
    → write_in_double new_dbl z excess new_zone rip dv ≡ some (ok, rip', dv')
    → DoubleFound z excess new_zone boff rip dv (rip', dv')
unfolding write_in_double
write_in_double-found new_dbl z excess new_zone boff rip rip' dv dv' f v k l taken a e =
    let i = excess / rip.nindirs in
    let ex = excess % rip.nindirs in
    let dc = cleared new_dbl z dv in
    elim (Option-cases (rd_indir dv.sp (dc.entries (first_block dv.sp z) i))) [
      | inl panic ↦ absurd (ground (arith, panic))
      | inr (z1, read) ↦ elim (ℕ_discrete z1 0) [
        | no there ↦
            let now : ◌≡◌ {A = Inode × Device} (rip, write_single false z1 ex new_zone dc)
                (rip', dv') =
              ground (arith, read, there) in
            subst (DoubleFound z excess new_zone boff rip dv) now (
              write_single-Searched false z1 ex new_zone dc dv.sp (dv.sp.zsearch, refl),
              refl,
              read_double-write_single false z z1 i ex new_zone boff dc f l.1
                  (rd_indir-IsZone dv.sp _ z1 read there) there (a i z1 read) k read,
            )
        | yes missing ↦ elim (Option-cases (alloc_zone dv.sp (get_or rip.zone 0 0) dv.maps)) [
          | inl panic ↦ absurd (ground (arith, read, missing, panic))
          | inr ((n, sp', maps'), got) ↦ elim (ℕ_discrete n 0) [
            | yes full ↦ absurd (ground (arith, read, missing, got, full))
            | no found ↦
                let near = get_or rip.zone 0 0 in
                let grown =
                  extended z i ex near new_zone boff n dc sp' maps' f v k l taken got found in
                let now : ◌≡◌ {A = Inode × Device} (rip, write_single true n ex new_zone grown)
                    (rip', dv') =
                  ground (arith, read, missing, got, found) in
                subst (DoubleFound z excess new_zone boff rip dv) now (
                  write_single-Searched true n ex new_zone grown dv.sp (
                      extended-Searched z i ex near new_zone boff n dc sp' maps' f v k l taken got
                        found),
                  refl,
                  extended-read z i ex near new_zone boff n dc sp' maps' f v k l taken got found,
                )
          ]
        ]
      ]
    ]
