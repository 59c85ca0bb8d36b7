-- ===== src/Fs/Mapping/Position.antt =====
-- read_map finds at a position the zone that write_map has entered there.
use sdios.Prelude.{
  ℕ, ◌+◌, ◌-◌, ◌/◌, ◌%◌, ◌≤◌, ◌<◌, ◌≡◌, ◌≢◌, refl, true, false, some, get_or, get_or-set_self, set,
  length, arith, sym, subst, ap, ap₂, ◌∙◌, dec_lt, Option-cases, inl, inr, ℕ_discrete,
}
use sdios.Fs.Super.{SuperBlock}
use sdios.Fs.Inode.{Inode}
use sdios.Fs.Bitmap.{zmap, Store, start_block}
use sdios.Fs.Bitmap.Alloc.{IsMap, map_bit}
use sdios.Fs.Zones.{alloc_zone}
use sdios.Fs.Zones.Alloc.{zone_bit, alloc_zone-found}
use sdios.Fs.Mapping.{
  Device, ok, block_in, read_single, read_double, read_map, write_in_double, write_map, zone_at,
  boff_at, first_block,
}
use sdios.Fs.Mapping.Entries.{ZonesFit, IsZone}
use sdios.Fs.Mapping.RoundTrip.{
  Searched, Apart, cleared-Apart, SingleFound, write_in_single-found, write_in_double-found,
  searched-ZonesFit, searched-IsZone, searched-IsMap,
}

-- The zone map is well-formed, the inode has places for both indirect zones, and its double indirect
-- zone, when it has one, is a zone in use that none of its own entries leads back to.
pub record CanMap (rip : Inode) (dv : Device) : Type 0 where
  pub fit : ZonesFit dv.sp
  pub zone_map : IsMap dv.sp zmap dv.maps
  pub places : rip.ndzones + 1 < length rip.zone
  pub double :
      get_or rip.zone (rip.ndzones + 1) 0 ≢ 0
      → IsZone dv.sp (get_or rip.zone (rip.ndzones + 1) 0)
        × (zone_bit dv.sp dv.maps (get_or rip.zone (rip.ndzones + 1) 0) ≡ 1)
        × Apart (get_or rip.zone (rip.ndzones + 1) 0) dv

module _ (sp : SuperBlock) (entries : ℕ → ℕ → ℕ) (rip : Inode) (p : ℕ) where
  read_map-direct :
      zone_at sp p < rip.ndzones
      → read_map sp entries rip p
        ≡ some (block_in sp (boff_at sp p) (get_or rip.zone (zone_at sp p) 0))
  unfolding read_map
  read_map-direct h = ground arith

  read_map-single :
      (nd ni : ℕ)
      → rip.ndzones ≡ nd
      → rip.nindirs ≡ ni
      → nd ≤ zone_at sp p
      → zone_at sp p - nd < ni
      → read_map sp entries rip p
        ≡ read_single sp entries (get_or rip.zone nd 0) (zone_at sp p - nd) (boff_at sp p)
  unfolding read_map
  read_map-single nd ni a b h k = ground arith

  read_map-double :
      (z : ℕ)
      → rip.ndzones ≤ zone_at sp p
      → rip.nindirs ≤ zone_at sp p - rip.ndzones
      → get_or rip.zone (rip.ndzones + 1) 0 ≡ z
      → z ≢ 0
      → read_map sp entries rip p
        ≡ read_double sp entries z
            ((zone_at sp p - rip.ndzones - rip.nindirs) / rip.nindirs)
            ((zone_at sp p - rip.ndzones - rip.nindirs) % rip.nindirs)
            (boff_at sp p)
  unfolding read_map
  read_map-double z h k e ne = ground arith

block_in-Searched :
    (sp sp' : SuperBlock) (b z : ℕ) → Searched sp' sp → block_in sp' b z ≡ block_in sp b z
unfolding block_in first_block
block_in-Searched sp sp' b z (c, e) = ap (λ (q : SuperBlock). block_in q b z) e

zone_at-Searched : (sp sp' : SuperBlock) (p : ℕ) → Searched sp' sp → zone_at sp' p ≡ zone_at sp p
zone_at-Searched sp sp' p (c, e) = ap (λ (q : SuperBlock). zone_at q p) e

boff_at-Searched : (sp sp' : SuperBlock) (p : ℕ) → Searched sp' sp → boff_at sp' p ≡ boff_at sp p
boff_at-Searched sp sp' p (c, e) = ap (λ (q : SuperBlock). boff_at q p) e

searched-zone_bit :
    (sp sp' : SuperBlock) (s : Store) (z : ℕ)
    → Searched sp' sp
    → zone_bit sp s z ≡ 1
    → zone_bit sp' s z ≡ 1
unfolding map_bit start_block
searched-zone_bit sp sp' s z (c, e) t = subst (λ (q : SuperBlock). zone_bit q s z ≡ 1) (sym e) t

searched-trans : (a b c : SuperBlock) → Searched a b → Searched b c → Searched a c
searched-trans a b c (m, e) (n, f) = (m, e ∙ ap (λ (q : SuperBlock). record q { zsearch = m }) f)

-- The three places where write_map enters a zone, read by read_map.
module _ (p new_zone : ℕ) (rip rip' : Inode) (dv dv' : Device) (k : IsZone dv.sp new_zone) where
  abbrev Found : Type 0
  Found = read_map dv'.sp dv'.entries rip' p ≡ some (block_in dv.sp (boff_at dv.sp p) new_zone)

  abbrev excess : ℕ
  excess = zone_at dv.sp p - rip.ndzones - rip.nindirs

  found_single :
      rip.ndzones ≤ zone_at dv.sp p
      → zone_at dv.sp p - rip.ndzones < rip.nindirs
      → SingleFound (zone_at dv.sp p - rip.ndzones) new_zone (boff_at dv.sp p) rip dv (rip', dv')
      → Found
  found_single h l (s, nd, ni, found) =
      let at = zone_at-Searched dv.sp dv'.sp p s in
      read_map-single dv'.sp dv'.entries rip' p rip.ndzones rip.nindirs nd ni
        (subst (λ (q : ℕ). rip.ndzones ≤ q) (sym at) h)
        (subst (λ (q : ℕ). q - rip.ndzones < rip.nindirs) (sym at) l)
      ∙ ap₂
          (λ (zone boff : ℕ).
            read_single dv'.sp dv'.entries (get_or rip'.zone rip.ndzones 0) (zone - rip.ndzones)
              boff)
          at (boff_at-Searched dv.sp dv'.sp p s)
      ∙ found
      ∙ ap some (block_in-Searched dv.sp dv'.sp (boff_at dv.sp p) new_zone s)

  found_double :
      (z : ℕ)
      → z ≢ 0
      → rip.ndzones ≤ zone_at dv.sp p
      → rip.nindirs ≤ zone_at dv.sp p - rip.ndzones
      → get_or rip.zone (rip.ndzones + 1) 0 ≡ z
      → Searched dv'.sp dv.sp
      → rip' ≡ rip
      → read_double dv'.sp dv'.entries z
          (excess / rip.nindirs)
          (excess % rip.nindirs)
          (boff_at dv.sp p)
        ≡ some (block_in dv'.sp (boff_at dv.sp p) new_zone)
      → Found
  found_double z ne h l is s same found =
      let at = zone_at-Searched dv.sp dv'.sp p s in
      ap (λ (q : Inode). read_map dv'.sp dv'.entries q p) same
      ∙ read_map-double dv'.sp dv'.entries rip p z (subst (λ (q : ℕ). rip.ndzones ≤ q) (sym at) h)
          (subst (λ (q : ℕ). rip.nindirs ≤ q - rip.ndzones) (sym at) l) is ne
      ∙ ap₂
          (λ (zone boff : ℕ).
            read_double dv'.sp dv'.entries z ((zone - rip.ndzones - rip.nindirs) / rip.nindirs)
              ((zone - rip.ndzones - rip.nindirs) % rip.nindirs) boff)
          at (boff_at-Searched dv.sp dv'.sp p s)
      ∙ found
      ∙ ap some (block_in-Searched dv.sp dv'.sp (boff_at dv.sp p) new_zone s)

-- With a double indirect zone n that write_map has just allocated.
found_new_double :
    (p new_zone n : ℕ) (rip rip' : Inode) (dv dv' : Device) (sp' : SuperBlock) (maps' : Store)
    → CanMap rip dv
    → IsZone dv.sp new_zone
    → rip.ndzones ≤ zone_at dv.sp p
    → rip.nindirs ≤ zone_at dv.sp p - rip.ndzones
    → alloc_zone dv.sp (get_or rip.zone 0 0) dv.maps ≡ some (n, sp', maps')
    → n ≢ 0
    → write_in_double true n
        (zone_at dv.sp p - rip.ndzones - rip.nindirs)
        new_zone
        (record rip { zone = set rip.zone (rip.ndzones + 1) n })
        (record dv { sp = sp'; maps = maps' })
      ≡ some (ok, rip', dv')
    → read_map dv'.sp dv'.entries rip' p ≡ some (block_in dv.sp (boff_at dv.sp p) new_zone)
found_new_double p new_zone n rip rip' dv dv' sp' maps' c k h l got ne w =
    let (low, high, clear, bits, kept, after) =
      alloc_zone-found dv.sp (get_or rip.zone 0 0) dv.maps n sp' maps' c.zone_map c.fit.zones got
        ne in
    let rip1 : Inode = record rip { zone = set rip.zone (rip.ndzones + 1) n } in
    let dv1 : Device = record dv { sp = sp'; maps = maps' } in
    let set_bit : zone_bit dv.sp maps' n ≡ 1 = ground (arith, bits n low) in
    let (s, same, found) =
      write_in_double-found true n (zone_at dv.sp p - rip.ndzones - rip.nindirs) new_zone
        (boff_at dv.sp p) rip1 rip' dv1 dv' (searched-ZonesFit dv.sp sp' after c.fit)
        (searched-IsMap dv.sp sp' maps' after kept) (searched-IsZone dv.sp sp' new_zone after k)
        (searched-IsZone dv.sp sp' n after (low, high))
        (searched-zone_bit dv.sp sp' maps' n after set_bit)
        (cleared-Apart true n dv1 ne (λ impossible. absurd (ground arith))) w in
    found_double p new_zone rip1 rip' dv dv' k n ne h l (get_or-set_self rip.zone n 0 c.places)
      (searched-trans dv'.sp sp' dv.sp s after) same found

-- When write_map enters a zone at a position and returns OK, read_map then finds at that position the
-- block of the zone at the position's offset, whether the position is in the inode, below the
-- single indirect block or below the double indirect block, and whether these blocks were there
-- or had to be allocated.
pub read_map-write_map :
    (p new_zone : ℕ) (rip rip' : Inode) (dv dv' : Device)
    → CanMap rip dv
    → IsZone dv.sp new_zone
    → write_map p new_zone rip dv ≡ some (ok, rip', dv')
    → read_map dv'.sp dv'.entries rip' p ≡ some (block_in dv.sp (boff_at dv.sp p) new_zone)
unfolding write_map
read_map-write_map p new_zone rip rip' dv dv' c k e =
    let rip1 : Inode = record rip { dirt = true } in
    let zone = zone_at dv.sp p in
    let z = get_or rip.zone (rip.ndzones + 1) 0 in
    elim (dec_lt zone rip.ndzones) [
      | yes direct ↦
          let now : ◌≡◌ {A = Inode × Device} (record rip1 { zone = set rip.zone zone new_zone }, dv)
              (rip', dv') =
            ground (arith, direct) in
          subst
            (λ ((q, d) : Inode × Device).
              read_map d.sp d.entries q p ≡ some (block_in dv.sp (boff_at dv.sp p) new_zone))
            now
            (read_map-direct dv.sp dv.entries (record rip1 { zone = set rip.zone zone new_zone }) p
                direct
              ∙ ap (λ (n : ℕ). some (block_in dv.sp (boff_at dv.sp p) n))
                  (get_or-set_self rip.zone new_zone 0 (omega (arith, c.places, direct))))
      | no below ↦ elim (dec_lt (zone - rip.ndzones) rip.nindirs) [
        | yes single ↦ found_single p new_zone rip1 rip' dv dv' k (omega (arith, below)) single (
            write_in_single-found (zone - rip.ndzones) new_zone (boff_at dv.sp p) rip1 rip' dv dv'
              c.fit c.zone_map k (omega (arith, c.places)) (ground (arith, below, single)))
        | no double ↦ elim (ℕ_discrete z 0) [
          | no there ↦
              let (used, taken, apart) = c.double there in
              let (s, same, found) =
                write_in_double-found false z (zone - rip.ndzones - rip.nindirs) new_zone
                  (boff_at dv.sp p) rip1 rip' dv dv' c.fit c.zone_map k used taken
                  (cleared-Apart false z dv there (λ _. apart))
                  (ground (arith, below, double, there)) in
              found_double p new_zone rip1 rip' dv dv' k z there (omega (arith, below))
                (omega (arith, double)) refl s same found
          | yes missing ↦ elim (Option-cases (alloc_zone dv.sp (get_or rip.zone 0 0) dv.maps)) [
            | inl panic ↦ absurd (ground (arith, below, double, missing, panic))
            | inr ((n, sp', maps'), got) ↦ elim (ℕ_discrete n 0) [
              | yes full ↦ absurd (ground (arith, below, double, missing, got, full))
              | no found ↦
                  found_new_double p new_zone n rip1 rip' dv dv' sp' maps'
                    (record {
                      fit = c.fit;
                      zone_map = c.zone_map;
                      places = c.places;
                      double = c.double;
                    })
                    k (omega (arith, below)) (omega (arith, double)) got found
                    (ground (arith, below, double, missing, got, found))
            ]
          ]
        ]
      ]
    ]
