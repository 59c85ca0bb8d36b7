-- ===== src/Fs/InodeTable/Alloc/Parts.antt =====
-- The steps of an alloc_inode that succeeds or finds the table full.
use sdios.Prelude.{
  ℕ, ◌≡◌, ◌≢◌, refl, Bool, true, false, Option, none, some, ◌==◌, if◌then◌else◌, get_elem?, set,
  ◌>>=◌, >>=-some, arith, ap, sym, ◌∙◌, ==_yes,
}
use mathlib.Core.Option.{some-injective}
use sdios.Fs.Super.{SuperBlock}
use sdios.Fs.Inode.{Inode}
use sdios.Fs.Bitmap.{Store, imap, alloc_bit, free_bit}
use sdios.Fs.Protect.{Process}
use sdios.Fs.Volume.{Volume, super_of}
use sdios.Fs.Truncate.{put_maps}
use sdios.Fs.InodeTable.{
  put_slot, get_inode, alloc_inode, Allocated, slot, erofs, enfile, take_bit, fill_slot, new_inode,
}

pub else_of {ℓ} :
    {A : Type ℓ} (c : Bool) (a b out : A) → (if c then a else b) ≡ out → a ≢ out → b ≡ out
else_of true a b out e ne = absurd (ne e)
else_of false a b out e ne = e

-- The parts of an alloc_inode that does not return EROFS.
pub alloc_inode_parts :
    (fp : Process) (dev bits k : ℕ) (r : Allocated) (sp : SuperBlock) (v v' : Volume)
    → super_of dev v ≡ some (k, sp)
    → ◌≢◌ {A = Option (Allocated × Volume)} (some (erofs, v)) (some (r, v'))
    → alloc_inode fp dev bits v ≡ some (r, v')
    → (b : ℕ) × (s' : Store) × (alloc_bit sp imap sp.isearch (v.maps dev) ≡ some (b, s'))
      × (take_bit fp dev bits k sp b (record v { maps = put_maps dev s' v.maps }) ≡ some (r, v'))
unfolding alloc_inode
alloc_inode_parts fp dev bits k r sp v v' es ne e =
    let take : ℕ → SuperBlock → ℕ × Store → Option (Allocated × Volume) =
      λ k' q p. take_bit fp dev bits k' q p.0 (record v { maps = put_maps dev p.1 v.maps }) in
    let rest : ℕ → SuperBlock → Option (Allocated × Volume) =
      λ k' q. alloc_bit q imap q.isearch (v.maps dev) >>= take k' q in
    let chosen =
      sym (
        ap
          (λ (o : Option (ℕ × SuperBlock)).
            o >>= λ p. if p.1.rd_only then some (erofs, v) else rest p.0 p.1)
          es)
      ∙ e in
    let (p, is, out) =
      >>=-some (alloc_bit sp imap sp.isearch (v.maps dev)) (take k sp)
        (else_of sp.rd_only (some (erofs, v)) (rest k sp) (some (r, v')) chosen ne) in
    (p.0, p.1, is, out)

-- The state in which alloc_inode asks for a slot.
abbrev pub with_bit : ℕ → ℕ → SuperBlock → ℕ → Store → Volume → Volume
with_bit dev k sp b s' v = record v {
  maps = put_maps dev s' v.maps;
  supers = set v.supers k (record sp { isearch = b });
}

fill_slot_parts :
    (fp : Process) (dev bits k i b : ℕ) (sp : SuperBlock) (w v' : Volume) (found : Option ℕ)
    → fill_slot fp dev bits k sp b found w ≡ some (slot i, v')
    → (rip : Inode) × (found ≡ some i)
      × (get_elem? w.inodes i ≡ some rip)
      × (put_slot i (new_inode fp dev bits k sp rip) w ≡ v')
unfolding fill_slot
fill_slot_parts fp dev bits k i b sp w v' none e =
    let (s', is, out) =
      >>=-some (free_bit sp imap b (w.maps dev))
        (λ s'. some (enfile, record w { maps = put_maps dev s' w.maps })) e in
    absurd (ground (arith, out))
fill_slot_parts fp dev bits k i b sp w v' (some j) e =
    let (rip, at, out) =
      >>=-some (get_elem? w.inodes j)
        (λ rip. some (slot j, put_slot j (new_inode fp dev bits k sp rip) w)) e in
    let pair =
      some-injective {A = Allocated × Volume}
        (slot j, put_slot j (new_inode fp dev bits k sp rip) w) (slot i, v') out in
    let same : j ≡ i = ground (arith, ap (λ (p : Allocated × Volume). p.0) pair) in
    (
      rip,
      ap some same,
      ap (get_elem? w.inodes) (sym same) ∙ at,
      ap (λ (n : ℕ). put_slot n (new_inode fp dev bits k sp rip) w) (sym same)
          ∙ ap (λ (p : Allocated × Volume). p.1) pair,
    )

pub take_bit_parts :
    (fp : Process) (dev bits k i b : ℕ) (sp : SuperBlock) (s' : Store) (v v' : Volume)
    → take_bit fp dev bits k sp b (record v { maps = put_maps dev s' v.maps }) ≡ some (slot i, v')
    → (b ≢ 0)
      × ((w : Volume) × (rip : Inode) × (get_inode 0 b (with_bit dev k sp b s' v)
            ≡ some (some i, w))
          × (get_elem? w.inodes i ≡ some rip)
          × (put_slot i (new_inode fp dev bits k (record sp { isearch = b }) rip) w ≡ v'))
unfolding take_bit
take_bit_parts fp dev bits k i b sp s' v v' e =
    let sp' = record sp { isearch = b } in
    let fill : Option ℕ × Volume → Option (Allocated × Volume) =
      λ q. fill_slot fp dev bits k sp' b q.0 q.1 in
    let full : Option (Allocated × Volume) =
      some (enfile, record v { maps = put_maps dev s' v.maps }) in
    let rest = get_inode 0 b (with_bit dev k sp b s' v) >>= fill in
    let (q, is, out) =
      >>=-some (get_inode 0 b (with_bit dev k sp b s' v)) fill
        (else_of (b == 0) full rest (some (slot i, v')) e (λ r. ground (arith, r))) in
    let (rip, found, at, put) = fill_slot_parts fp dev bits k i b sp' q.1 v' q.0 out in
    (λ z. full_not z e, (q.1, rip, is ∙ ap (λ (o : Option ℕ). some (o, q.1)) found, at, put))
  where
    full_not :
        b ≡ 0
        → (if b == 0
            then some (enfile, record v { maps = put_maps dev s' v.maps })
            else get_inode 0 b (with_bit dev k sp b s' v) >>= λ q.
                fill_slot fp dev bits k (record sp { isearch = b }) b q.0 q.1)
          ≢ some (slot i, v')
    full_not z h = ground (arith, rw (==_yes b 0 z) at h)

pub put_maps_self : (dev : ℕ) (s : Store) (maps : ℕ → Store) → put_maps dev s maps dev ≡ s
unfolding put_maps
put_maps_self dev s maps = rw (==_yes dev dev refl) refl
