-- ===== src/Fs/Zones/Alloc.antt =====
-- What alloc_zone and free_zone do to the zones that are in use.
use sdios.Prelude.{
  ℕ, ◌+◌, ◌-◌, ◌%◌, ◌^◌, ◌≤◌, ◌<◌, ◌≡◌, ◌≢◌, refl, false, some, ◌==◌, ltb, if◌then◌else◌, arith,
  Option-cases, inl, inr, ℕ_discrete, sym, subst, ap, ◌∙◌, ◌⊎◌,
}
use sdios.Fs.Super.{SuperBlock}
use sdios.Fs.Bitmap.{Store, zmap, alloc_bit, free_bit, map_bits, start_block}
use sdios.Fs.Bitmap.Alloc.{IsMap, map_bit, alloc_bit-found, alloc_bit-full, alloc_bit-IsMap}
use sdios.Fs.Bitmap.Free.{free_bit-alloc_bit}
use sdios.Fs.Zones.{alloc_zone, free_zone, zone_origin}

-- There is a first data zone, within the device, and zone numbers fit 32 bits.
pub record HasZones (sp : SuperBlock) : Type 0 where
  pub first : 1 ≤ sp.firstdatazone
  pub inside : sp.firstdatazone ≤ sp.zones
  pub fits : sp.zones < 2 ^ 32

-- Whether zone z is in use: its bit in the zone map.
abbrev pub zone_bit : SuperBlock → Store → ℕ → ℕ
zone_bit sp s z = map_bit sp zmap s (z + 1 - sp.firstdatazone)

-- The super block that alloc_zone leaves.
abbrev searched : SuperBlock → ℕ → ℕ → SuperBlock
searched sp z b = if z == sp.firstdatazone then record sp { zsearch = b } else sp

map_bits-zmap : (sp : SuperBlock) → HasZones sp → map_bits sp zmap ≡ sp.zones + 1 - sp.firstdatazone
unfolding map_bits
map_bits-zmap sp h = omega (arith, h.first, h.inside, h.fits)

-- alloc_zone is a call of alloc_bit.
alloc_zone-cases :
    (sp : SuperBlock) (z : ℕ) (s : Store) (n : ℕ) (sp' : SuperBlock) (s' : Store)
    → alloc_zone sp z s ≡ some (n, sp', s')
    → (b : ℕ) × (alloc_bit sp zmap (zone_origin sp z) s ≡ some (b, s'))
      × (((b ≡ 0) × (n ≡ 0) × (sp' ≡ sp))
          ⊎ ((b ≢ 0) × (n ≡ (sp.firstdatazone + b - 1) % 2 ^ 32) × (sp' ≡ searched sp z b)))
unfolding alloc_zone
alloc_zone-cases sp z s n sp' s' e = elim (Option-cases (alloc_bit sp zmap (zone_origin sp z) s)) [
  | inl panic ↦ absurd (ground (arith, panic))
  | inr ((b, t), got) ↦ elim (ℕ_discrete b 0) [
    | yes full ↦ (
      b,
      ground (arith, got, full),
      inl (full, ground (arith, got, full), ground (arith, got, full)),
    )
    | no found ↦ (
      b,
      ground (arith, got, found),
      inr (found, ground (arith, got, found), ground (arith, got, found)),
    )
  ]
]

same_test :
    (sp : SuperBlock) (b n m : ℕ)
    → n + 1 - sp.firstdatazone ≡ b
    → 1 ≤ sp.firstdatazone
    → sp.firstdatazone ≤ m
    → 0 < b
    → (m + 1 - sp.firstdatazone == b) ≡ (m == n)
same_test sp b n m e f l p = ground arith

searched_only :
    (sp : SuperBlock) (z b : ℕ) → (c : ℕ) × (searched sp z b ≡ record sp { zsearch = c })
searched_only sp z b = elim (ℕ_discrete z sp.firstdatazone) [
  | yes first ↦ (b, ground (arith, first))
  | no other ↦ (sp.zsearch, ground (arith, other))
]

-- On a well-formed zone map, when alloc_zone returns a zone, it is a data zone of the device that was
-- not in use; afterwards it is in use, every other data zone is as it was, the map is well-formed and
-- nothing of the super block but the start of the next search has changed.
pub alloc_zone-found :
    (sp : SuperBlock) (z : ℕ) (s : Store) (n : ℕ) (sp' : SuperBlock) (s' : Store)
    → IsMap sp zmap s
    → HasZones sp
    → alloc_zone sp z s ≡ some (n, sp', s')
    → n ≢ 0
    → (sp.firstdatazone ≤ n)
      × (n < sp.zones)
      × (zone_bit sp s n ≡ 0)
      × ((m : ℕ)
          → sp.firstdatazone ≤ m
          → zone_bit sp s' m ≡ (if m == n then 1 else zone_bit sp s m))
      × IsMap sp zmap s'
      × ((c : ℕ) × (sp' ≡ record sp { zsearch = c }))
alloc_zone-found sp z s n sp' s' v h e ne =
    let (b, got, ends) = alloc_zone-cases sp z s n sp' s' e in
    elim ends [
      | inl (z0, n0, same) ↦ absurd (ne n0)
      | inr (nz, is, now) ↦
          let found = alloc_bit-found sp zmap (zone_origin sp z) s b s' v got nz in
          let below : b < sp.zones + 1 - sp.firstdatazone =
            subst (λ (k : ℕ). b < k) (map_bits-zmap sp h) found.0 in
          let plain : n ≡ sp.firstdatazone + b - 1 =
            omega (arith, is, below, nz, h.first, h.inside, h.fits) in
          let bit : n + 1 - sp.firstdatazone ≡ b = omega (arith, plain, nz, h.first) in
          (
            omega (arith, plain, nz, h.first),
            omega (arith, plain, below, nz, h.first, h.inside),
            rw bit found.1,
            (λ m l.
                rw
                  (
                    found.2 (m + 1 - sp.firstdatazone),
                    same_test sp b n m bit h.first l (omega (arith, nz)),
                  )
                  refl),
            alloc_bit-IsMap sp zmap (zone_origin sp z) s b s' v got,
            rw now (searched_only sp z b),
          )
    ]

-- On a well-formed zone map whose bit 0 is set, alloc_zone returns NO_ZONE only when every data zone
-- of the device is in use, and then it changes nothing.
pub alloc_zone-full :
    (sp : SuperBlock) (z : ℕ) (s : Store) (sp' : SuperBlock) (s' : Store)
    → IsMap sp zmap s
    → HasZones sp
    → map_bit sp zmap s 0 ≡ 1
    → alloc_zone sp z s ≡ some (0, sp', s')
    → (sp' ≡ sp) × (s' ≡ s) × ((m : ℕ) → sp.firstdatazone ≤ m → m < sp.zones → zone_bit sp s m ≡ 1)
alloc_zone-full sp z s sp' s' v h one e =
    let (b, got, ends) = alloc_zone-cases sp z s 0 sp' s' e in
    elim ends [
      | inl (z0, n0, same) ↦
          let full =
            alloc_bit-full sp zmap (zone_origin sp z) s s' v one
              (got ∙ ap (λ (k : ℕ). some (k, s')) z0) in
          (
            same,
            full.0,
            λ m l k. full.1 (m + 1 - sp.firstdatazone) (omega (arith, l, k, map_bits-zmap sp h)),
          )
      | inr (nz, is, now) ↦
          let found = alloc_bit-found sp zmap (zone_origin sp z) s b s' v got nz in
          absurd (omega (arith, is, found.0, nz, map_bits-zmap sp h, h.first, h.inside, h.fits))
    ]

abbrev freed : SuperBlock → ℕ → SuperBlock
freed sp b = if ltb b sp.zsearch then record sp { zsearch = b } else sp

freed_search : (sp : SuperBlock) (b : ℕ) → (freed sp b).zsearch ≤ b
freed_search sp b = ground arith

free_zone-freed :
    (sp : SuperBlock) (n b : ℕ) (s s' : Store)
    → sp.firstdatazone ≤ n
    → n < sp.zones
    → n + 1 - sp.firstdatazone ≡ b
    → free_bit sp zmap b s ≡ some s'
    → free_zone sp n s ≡ some (freed sp b, s')
unfolding free_zone
free_zone-freed sp n b s s' low high bit e = ground arith

free_zone-searched :
    (sp : SuperBlock) (z n b : ℕ) (s s' : Store)
    → sp.firstdatazone ≤ n
    → n < sp.zones
    → n + 1 - sp.firstdatazone ≡ b
    → free_bit sp zmap b s ≡ some s'
    → free_zone (searched sp z b) n s ≡ some (freed (searched sp z b) b, s')
unfolding free_bit start_block
free_zone-searched sp z n b s s' low high bit e = elim (ℕ_discrete z sp.firstdatazone) [
  | yes first ↦
      let now : searched sp z b ≡ record sp { zsearch = b } = ground (arith, first) in
      subst (λ (q : SuperBlock). free_zone q n s ≡ some (freed q b, s')) (sym now)
        (free_zone-freed (record sp { zsearch = b }) n b s s' low high bit e)
  | no other ↦
      let now : searched sp z b ≡ sp = ground (arith, other) in
      subst (λ (q : SuperBlock). free_zone q n s ≡ some (freed q b, s')) (sym now)
        (free_zone-freed sp n b s s' low high bit e)
]

-- On a well-formed zone map of a writable file system, freeing the zone that alloc_zone has just
-- returned succeeds, gives every data zone the state that it had before, and leaves the next search
-- no later than that zone.
pub free_zone-alloc_zone :
    (sp : SuperBlock) (z : ℕ) (s : Store) (n : ℕ) (sp' : SuperBlock) (s' : Store)
    → IsMap sp zmap s
    → HasZones sp
    → sp.rd_only ≡ false
    → alloc_zone sp z s ≡ some (n, sp', s')
    → n ≢ 0
    → (sp'' : SuperBlock) × (s'' : Store) × (free_zone sp' n s' ≡ some (sp'', s''))
      × ((m : ℕ) → zone_bit sp s'' m ≡ zone_bit sp s m)
      × (sp''.zsearch ≤ n + 1 - sp.firstdatazone)
free_zone-alloc_zone sp z s n sp' s' v h w e ne =
    let (b, got, ends) = alloc_zone-cases sp z s n sp' s' e in
    let zone = alloc_zone-found sp z s n sp' s' v h e ne in
    elim ends [
      | inl (z0, n0, same) ↦ absurd (ne n0)
      | inr (nz, is, now) ↦
          let found = alloc_bit-found sp zmap (zone_origin sp z) s b s' v got nz in
          let bit : n + 1 - sp.firstdatazone ≡ b =
            omega (arith, is, found.0, nz, map_bits-zmap sp h, h.first, h.inside, h.fits) in
          let (s'', freed_bit, back) =
            free_bit-alloc_bit sp zmap (zone_origin sp z) s b s' v w got nz in
          (
            freed sp' b,
            s'',
            subst (λ (q : SuperBlock). free_zone q n s' ≡ some (freed q b, s'')) (sym now)
                (free_zone-searched sp z n b s' s'' zone.0 zone.1 bit freed_bit),
            (λ m. back (m + 1 - sp.firstdatazone)),
            subst (λ (k : ℕ). (freed sp' b).zsearch ≤ k) (sym bit) (freed_search sp' b),
          )
    ]
