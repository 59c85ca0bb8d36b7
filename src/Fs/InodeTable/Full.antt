-- ===== src/Fs/InodeTable/Full.antt =====
-- What alloc_inode leaves when it fails.
use sdios.Prelude.{
  ℕ, ◌<◌, ◌≡◌, ◌≢◌, ◌⊎◌, inl, inr, refl, false, Option, none, some, List, get_elem?, >>=-some,
  arith, ap, sym, subst, ◌∙◌, ℕ_discrete, ==_yes, ==_no,
}
use mathlib.Core.Option.{some-injective}
use sdios.Fs.Super.{SuperBlock}
use sdios.Fs.Inode.{Inode}
use sdios.Fs.Bitmap.{Store, imap, alloc_bit, free_bit, map_bits, start_block}
use sdios.Fs.Bitmap.Alloc.{IsMap, map_bit, alloc_bit-full}
use sdios.Fs.Bitmap.Free.{free_bit-alloc_bit}
use sdios.Fs.Protect.{Process}
use sdios.Fs.Volume.{Volume, super_of}
use sdios.Fs.Truncate.{put_maps}
use sdios.Fs.InodeTable.{
  put_slot, get_inode, load, alloc_inode, Allocated, slot, enfile, take_bit, fill_slot, new_inode,
}
use sdios.Fs.InodeTable.Search.{get_inode_cases}
use sdios.Fs.InodeTable.Alloc.Parts.{alloc_inode_parts, with_bit, put_maps_self}

-- Every slot of the table is in use.
abbrev pub IsFull : List Inode → Type 0
IsFull table = (d : ℕ) (rip : Inode) → get_elem? table d ≡ some rip → 0 < rip.count

get_inode-IsFull :
    (dev numb : ℕ) (v v' : Volume)
    → get_inode dev numb v ≡ some (none, v')
    → (v ≡ v') × IsFull v.inodes
get_inode-IsFull dev numb v v' e = elim (get_inode_cases dev numb v) [
  | inl (k, rip, at, (hit, out)) ↦ absurd (ground (arith, out, e))
  | inr (none_held, inl (full, out)) ↦
      let pair = some-injective {A = Option ℕ × Volume} (none, v) (none, v') (sym out ∙ e) in
      (ap (λ (p : Option ℕ × Volume). p.1) pair, full)
  | inr (none_held, inr (k, xp, at, (free, out))) ↦
      let (w, is, q) = >>=-some (load dev numb k xp v) (λ w. some (some k, w)) (sym out ∙ e) in
      absurd (ground (arith, q))
]

fill_slot-enfile :
    (fp : Process) (dev bits k b : ℕ) (sp : SuperBlock) (w v' : Volume) (found : Option ℕ)
    → fill_slot fp dev bits k sp b found w ≡ some (enfile, v')
    → (found ≡ none)
      × ((s : Store) × (free_bit sp imap b (w.maps dev) ≡ some s)
          × (record w { maps = put_maps dev s w.maps } ≡ v'))
unfolding fill_slot
fill_slot-enfile fp dev bits k b sp w v' none e =
    let (s, is, out) =
      >>=-some (free_bit sp imap b (w.maps dev))
        (λ s. some (enfile, record w { maps = put_maps dev s w.maps })) e in
    (
      refl,
      (
        s,
        is,
        ap (λ (p : Allocated × Volume). p.1)
            (some-injective {A = Allocated × Volume}
              (enfile, record w { maps = put_maps dev s w.maps }) (enfile, v') out),
      ),
    )
fill_slot-enfile fp dev bits k b sp w v' (some j) e =
    let (rip, at, out) =
      >>=-some (get_elem? w.inodes j)
        (λ rip. some (slot j, put_slot j (new_inode fp dev bits k sp rip) w)) e in
    absurd (ground (arith, out))

-- Where the next search starts does not matter to free_bit.
free_bit_isearch :
    (sp : SuperBlock) (b c : ℕ) (s : Store)
    → free_bit sp imap c s ≡ free_bit (record sp { isearch = b }) imap c s
unfolding free_bit start_block
free_bit_isearch sp b c s = refl

-- What an alloc_inode that fails leaves: the table and the inode map as they were, one of them full.
abbrev pub IsKept : ℕ → SuperBlock → Volume → Volume → Type 0
IsKept dev sp v v' =
    (v'.inodes ≡ v.inodes)
    × ((c : ℕ) → map_bit sp imap (v'.maps dev) c ≡ map_bit sp imap (v.maps dev) c)
    × (((c : ℕ) → c < map_bits sp imap → map_bit sp imap (v.maps dev) c ≡ 1) ⊎ IsFull v.inodes)

module _ (fp : Process) (dev bits k : ℕ) (sp : SuperBlock) (v : Volume)
    (m : IsMap sp imap (v.maps dev)) where
  no_bit :
      (s' : Store)
      → map_bit sp imap (v.maps dev) 0 ≡ 1
      → alloc_bit sp imap sp.isearch (v.maps dev) ≡ some (0, s')
      → IsKept dev sp v (record v { maps = put_maps dev s' v.maps })
  no_bit s' zero_set e =
      let (same, all) = alloc_bit-full sp imap sp.isearch (v.maps dev) s' m zero_set e in
      (
        refl,
        λ c. ap (λ (s : Store). map_bit sp imap s c) (put_maps_self dev s' v.maps ∙ same),
        inl all,
      )

  no_slot :
      (b : ℕ) (s' : Store) (v' : Volume)
      → sp.rd_only ≡ false
      → b ≢ 0
      → alloc_bit sp imap sp.isearch (v.maps dev) ≡ some (b, s')
      → take_bit fp dev bits k sp b (record v { maps = put_maps dev s' v.maps }) ≡ some (enfile, v')
      → IsKept dev sp v v'
  unfolding take_bit
  no_slot b s' v' writable some_bit e t =
      let sp' = record sp { isearch = b } in
      let fill : Option ℕ × Volume → Option (Allocated × Volume) =
        λ q. fill_slot fp dev bits k sp' b q.0 q.1 in
      let start = with_bit dev k sp b s' v in
      let (q, is, out) = >>=-some (get_inode 0 b start) fill (rw (==_no b 0 some_bit) at t) in
      let (absent, (s, freed, done)) = fill_slot-enfile fp dev bits k b sp' q.1 v' q.0 out in
      let (same, full) =
        get_inode-IsFull 0 b start q.1 (is ∙ ap (λ (o : Option ℕ). some (o, q.1)) absent) in
      let (s'', freed', back) =
        free_bit-alloc_bit sp imap sp.isearch (v.maps dev) b s' m writable e some_bit in
      let bits_then : q.1.maps dev ≡ s' =
        ap (λ (x : Volume). x.maps dev) (sym same) ∙ put_maps_self dev s' v.maps in
      let same_s : s'' ≡ s = some-injective _ _ (
        sym freed'
        ∙ free_bit_isearch sp b b s'
        ∙ ap (free_bit sp' imap b) (sym bits_then)
        ∙ freed) in
      let bits_now : v'.maps dev ≡ s'' =
        ap (λ (x : Volume). x.maps dev) (sym done) ∙ put_maps_self dev s q.1.maps ∙ sym same_s in
      (
        ap (λ (x : Volume). x.inodes) (sym done) ∙ ap (λ (x : Volume). x.inodes) (sym same),
        λ c. ap (λ (x : Store). map_bit sp imap x c) bits_now ∙ back c,
        inr full,
      )

-- On a writable device with a well-formed inode map whose bit 0 is set, an alloc_inode that fails with
-- ENFILE leaves the inode table and every bit of the inode map as they were, also when it has
-- taken a bit before it found the table full; and either every bit of the map is set or every slot of
-- the table is in use.
pub alloc_inode-enfile :
    (fp : Process) (dev bits k : ℕ) (sp : SuperBlock) (v v' : Volume)
    → super_of dev v ≡ some (k, sp)
    → sp.rd_only ≡ false
    → IsMap sp imap (v.maps dev)
    → map_bit sp imap (v.maps dev) 0 ≡ 1
    → alloc_inode fp dev bits v ≡ some (enfile, v')
    → IsKept dev sp v v'
unfolding take_bit
alloc_inode-enfile fp dev bits k sp v v' es writable m zero_set e =
    let (b, s', allocated, rest) =
      alloc_inode_parts fp dev bits k enfile sp v v' es (λ q. ground (arith, q)) e in
    elim (ℕ_discrete b 0) [
      | yes z ↦
          subst (IsKept dev sp v)
            (ap (λ (p : Allocated × Volume). p.1)
              (some-injective {A = Allocated × Volume}
                (enfile, record v { maps = put_maps dev s' v.maps }) (enfile, v')
                (rw (==_yes b 0 z) at rest)))
            (no_bit fp dev bits k sp v m s' zero_set (allocated ∙ ap (λ (n : ℕ). some (n, s')) z))
      | no some_bit ↦ no_slot fp dev bits k sp v m b s' v' writable some_bit allocated rest
    ]
