-- ===== src/Fs/InodeTable/Alloc.antt =====
-- What alloc_inode gives, on the inode table and the inode map together.
pub mod Parts
pub mod ZoneMap
use sdios.Prelude.{
  ℕ, ◌<◌, ◌≡◌, ◌≢◌, inl, inr, refl, Bool, true, false, Option, none, some, List, ◌==◌,
  if◌then◌else◌, get_elem?, set, get_elem?-set_ne, ◌>>=◌, >>=-some, arith, ap, ap₂, sym, subst, ◌∙◌,
  Bool-cases, ==_yes, ==_no,
}
use mathlib.Core.Option.{some-injective}
use sdios.Fs.Super.{SuperBlock}
use sdios.Fs.Inode.{Inode}
use sdios.Fs.Bitmap.{Store, imap, zmap, alloc_bit, free_bit, map_bits}
use sdios.Fs.Bitmap.Alloc.{IsMap, map_bit, alloc_bit-found}
use sdios.Fs.Protect.{Process}
use sdios.Fs.Volume.{Volume, super_of, wipe_inode}
use sdios.Fs.Truncate.{put_maps}
use sdios.Fs.InodeTable.{
  is_held, put_slot, get_inode, load, alloc_inode, Allocated, slot, erofs, enfile, take_bit,
  fill_slot, new_inode,
}
use sdios.Fs.InodeTable.Search.{NotHeld, SlotWith, get_inode_cases}
use sdios.Fs.InodeTable.Alloc.Parts.{
  else_of, alloc_inode_parts, with_bit, take_bit_parts, put_maps_self,
}
use sdios.Fs.InodeTable.Alloc.ZoneMap.{zone_bit_kept}
use sdios.Fs.InodeTable.Get.{
  Unique, set-Unique, IsLoaded, load-IsLoaded, get_inode-Unique, get_elem?-set_at,
}

-- Every inode of the device that is in use has its bit set.
abbrev pub Marked : ℕ → SuperBlock → Volume → Type 0
Marked dev sp v =
    (j : ℕ) (b : Inode)
    → get_elem? v.inodes j ≡ some b
    → 0 < b.count
    → b.dev ≡ dev
    → map_bit sp imap (v.maps dev) b.num ≡ 1

-- No slot in use is without a device.
abbrev pub HaveDevice : List Inode → Type 0
HaveDevice table = (j : ℕ) (b : Inode) → get_elem? table j ≡ some b → 0 < b.count → b.dev ≢ 0

-- Slot i was free and holds a new inode without links, whose bit was clear and is set now. In the super
-- block, slot k, the search starts at that bit next time; the rest of the state is as it was.
pub record IsAllocated (fp : Process) (dev bits k : ℕ) (sp : SuperBlock) (i : ℕ) (v v' : Volume)
    (rip : Inode) : Type 0 where
  pub there : get_elem? v'.inodes i ≡ some rip
  pub unused : SlotWith v.inodes (λ j old. (j ≡ i) × (old.count ≡ 0))
  pub count : rip.count ≡ 1
  pub dev_of : rip.dev ≡ dev
  pub mode : rip.mode ≡ bits
  pub nlinks : rip.nlinks ≡ 0
  pub owner : rip.uid ≡ fp.effuid
  pub size : rip.size ≡ 0
  pub below : rip.num < map_bits sp imap
  pub was_clear : map_bit sp imap (v.maps dev) rip.num ≡ 0
  pub taken :
      (c : ℕ)
      → map_bit sp imap (v'.maps dev) c
        ≡ (if c == rip.num then 1 else map_bit sp imap (v.maps dev) c)
  pub others : (j : ℕ) → j ≢ i → get_elem? v'.inodes j ≡ get_elem? v.inodes j
  pub unique : Unique v'.inodes
  pub searched : v'.supers ≡ set v.supers k (record sp { isearch = rip.num })
  pub zone_map : (c : ℕ) → map_bit sp zmap (v'.maps dev) c ≡ map_bit sp zmap (v.maps dev) c
  pub other_maps : (d : ℕ) → d ≢ dev → v'.maps d ≡ v.maps d
  pub disk :
      (v'.entries ≡ v.entries)
      × (v'.d1_inode ≡ v.d1_inode)
      × (v'.d2_inode ≡ v.d2_inode)
      × (v'.stale ≡ v.stale)

put_maps_other :
    (dev d : ℕ) (s : Store) (maps : ℕ → Store) → d ≢ dev → put_maps dev s maps d ≡ maps d
unfolding put_maps
put_maps_other dev d s maps ne = rw (==_no d dev ne) refl

pub not_without_device : (numb : ℕ) (table : List Inode) → HaveDevice table → NotHeld 0 numb table
not_without_device numb table h j b e = elim (Bool-cases (is_held 0 numb b)) [
  | inl hit ↦ absurd (ground (arith, h j b e, hit))
  | inr miss ↦ miss
]

-- get_inode of an inode that no slot holds gives a free slot.
get_inode-new :
    (dev numb i : ℕ) (v v' : Volume)
    → NotHeld dev numb v.inodes
    → get_inode dev numb v ≡ some (some i, v')
    → (old : Inode) × (rip : Inode) × (get_elem? v.inodes i ≡ some old)
      × (old.count ≡ 0)
      × (put_slot i rip v ≡ v')
      × IsLoaded dev numb rip
get_inode-new dev numb i v v' absent e = elim (get_inode_cases dev numb v) [
  | inl (k, rip, at, (hit, out)) ↦ absurd (ground (arith, absent k rip at, hit))
  | inr (none_held, inl (full, out)) ↦ absurd (ground (arith, out, e))
  | inr (none_held, inr (k, xp, at, (free, out))) ↦
      let (w, is, q) = >>=-some (load dev numb k xp v) (λ w. some (some k, w)) (sym out ∙ e) in
      let pair = some-injective {A = Option ℕ × Volume} (some k, w) (some i, v') q in
      let same : k ≡ i = some-injective _ _ (ap (λ (p : Option ℕ × Volume). p.0) pair) in
      let same_v : w ≡ v' = ap (λ (p : Option ℕ × Volume). p.1) pair in
      let (rip, put, new) = load-IsLoaded dev numb k xp v w is in
      (
        xp,
        rip,
        ap (get_elem? v.inodes) (sym same) ∙ at,
        free,
        ap (λ (j : ℕ). put_slot j rip v) (sym same) ∙ put ∙ same_v,
        new,
      )
]

-- The new inode is put into the slot that get_inode has loaded.
module _ (fp : Process) (dev bits k i b : ℕ) (sp : SuperBlock) (s' : Store) (v : Volume)
    (old first : Inode) (unused : get_elem? v.inodes i ≡ some old) (free : old.count ≡ 0)
    (loaded_as : IsLoaded 0 b first)
    (found : (b < map_bits sp imap)
      × (map_bit sp imap (v.maps dev) b ≡ 0)
      × ((c : ℕ) → map_bit sp imap s' c ≡ (if c == b then 1 else map_bit sp imap (v.maps dev) c)))
    (marked : Marked dev sp v) (u : Unique (set v.inodes i first))
    (m : IsMap sp imap (v.maps dev)) where
  abbrev new : Inode
  new = new_inode fp dev bits k (record sp { isearch = b }) first

  new_parts : (new.dev ≡ dev) × (new.num ≡ b) × (new.count ≡ 1)
  unfolding new_inode wipe_inode
  new_parts = (refl, loaded_as.1, loaded_as.2)

  new-Unique : Unique (set (set v.inodes i first) i new)
  new-Unique = set-Unique (set v.inodes i first) i new u (λ j b' ne e _ ub ed en.
      fresh j b' (sym (get_elem?-set_ne v.inodes first (λ q. ne (sym q))) ∙ e) ub
        (sym ed ∙ new_parts.0) (sym new_parts.1 ∙ en))
    where
      fresh :
          (j : ℕ) (b' : Inode)
          → get_elem? v.inodes j ≡ some b'
          → 0 < b'.count
          → b'.dev ≡ dev
          → b ≢ b'.num
      fresh j b' e ub ed en =
          ground (arith, marked j b' e ub ed, found.1, ap (map_bit sp imap (v.maps dev)) en)

  new-IsAllocated :
      IsAllocated fp dev bits k sp i v
        (put_slot i new (put_slot i first (with_bit dev k sp b s' v)))
        new
  unfolding new_inode wipe_inode
  new-IsAllocated = record {
    there =
        get_elem?-set_at (set v.inodes i first) i new first
          (get_elem?-set_at v.inodes i first old unused);
    unused = (i, old, unused, (refl, free));
    count = loaded_as.2;
    dev_of = refl;
    mode = refl;
    nlinks = refl;
    owner = refl;
    size = refl;
    below = subst (λ (n : ℕ). n < map_bits sp imap) (sym loaded_as.1) found.0;
    was_clear = ap (map_bit sp imap (v.maps dev)) loaded_as.1 ∙ found.1;
    taken = λ c.
        ap (λ (s : Store). map_bit sp imap s c) (put_maps_self dev s' v.maps)
        ∙ found.2 c
        ∙ ap (λ (n : ℕ). if c == n then 1 else map_bit sp imap (v.maps dev) c) (sym loaded_as.1);
    others = λ j ne.
        get_elem?-set_ne (set v.inodes i first) new (λ q. ne (sym q))
        ∙ get_elem?-set_ne v.inodes first (λ q. ne (sym q));
    unique = new-Unique;
    searched = ap (λ (n : ℕ). set v.supers k (record sp { isearch = n })) (sym loaded_as.1);
    zone_map = λ c.
        ap (λ (s : Store). map_bit sp zmap s c) (put_maps_self dev s' v.maps)
        ∙ zone_bit_kept sp (v.maps dev) s' b m found.0 found.2 c;
    other_maps = λ d ne. put_maps_other dev d s' v.maps ne;
    disk = (refl, refl, refl, refl);
  }

-- When no two slots in use hold the same inode, every slot in use has a device and every inode of this
-- device that is in use has its bit set in a well-formed inode map, a slot that alloc_inode returns was
-- free. It holds a new inode of the mode asked for, without links, of size 0 and with one user, whose
-- bit was clear and is now set, and s_isearch of the super block is the number of that bit. No other
-- slot of the table, no other bit of the inode map, no bit of the zone map, no map of another device, no
-- other super block and no inode or indirect block on disk has changed, and again no two slots in use
-- hold the same inode.
pub alloc_inode-IsAllocated :
    (fp : Process) (dev bits k i : ℕ) (sp : SuperBlock) (v v' : Volume)
    → super_of dev v ≡ some (k, sp)
    → IsMap sp imap (v.maps dev)
    → Unique v.inodes
    → HaveDevice v.inodes
    → Marked dev sp v
    → alloc_inode fp dev bits v ≡ some (slot i, v')
    → (rip : Inode) × IsAllocated fp dev bits k sp i v v' rip
alloc_inode-IsAllocated fp dev bits k i sp v v' es m u have marked e =
    let (b, s', allocated, rest) =
      alloc_inode_parts fp dev bits k (slot i) sp v v' es (λ q. ground (arith, q)) e in
    let (some_bit, (w, rip, gotten, at, put)) = take_bit_parts fp dev bits k i b sp s' v v' rest in
    let start = with_bit dev k sp b s' v in
    let (old, first, unused, free, put', (d, n, c)) =
      get_inode-new 0 b i start w (not_without_device b v.inodes have) gotten in
    let found = alloc_bit-found sp imap sp.isearch (v.maps dev) b s' m allocated some_bit in
    let (uw, holds, kept) = get_inode-Unique 0 b i start w u gotten in
    let same : first ≡ rip = some-injective _ _ (
      sym (get_elem?-set_at v.inodes i first old unused)
      ∙ ap (λ (x : Volume). get_elem? x.inodes i) put'
      ∙ at) in
    let out : put_slot i (new_inode fp dev bits k (record sp { isearch = b }) first)
          (put_slot i first start)
        ≡ v' =
      ap₂
        (λ (r : Inode) (x : Volume).
          put_slot i (new_inode fp dev bits k (record sp { isearch = b }) r) x)
        same put'
      ∙ put in
    let uf : Unique (set v.inodes i first) =
      subst (λ (x : Volume). Unique x.inodes) (sym put') uw in
    (
      new fp dev bits k i b sp s' v old first unused free (d, n, c) found marked uf m,
      subst
          (λ (x : Volume).
            IsAllocated fp dev bits k sp i v x
              (new_inode fp dev bits k (record sp { isearch = b }) first))
          out
          (new-IsAllocated fp dev bits k i b sp s' v old first unused free (d, n, c) found marked uf
            m),
    )
