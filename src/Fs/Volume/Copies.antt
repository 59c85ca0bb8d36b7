-- ===== src/Fs/Volume/Copies.antt =====
-- An inode that rw_inode writes is the one that it reads back, and it disturbs no other inode.
pub mod Place
use sdios.Prelude.{
  ℕ, ◌/◌, ◌^◌, ◌≤◌, ◌<◌, ◌≡◌, ◌≢◌, inl, inr, refl, Bool, true, false, Option, none, some, ◌==◌,
  if◌then◌else◌, ◌>>=◌, ap, sym, subst, ◌∙◌, Bool-cases, ℕ_discrete, ==_yes, ==_no,
}
use sdios.Fs.Super.{SuperBlock}
use sdios.Fs.Inode.{Inode}
use sdios.Fs.Inode.Copy.{write_old, write_new, inode_block, inode_index}
use sdios.Fs.Inode.RoundTrip.{FitsNew, read_new-write_new, per_block_of, inode_place}
use sdios.Fs.Volume.Copies.Place.{put_at_self, read_copy-write_copy_other, IsNumbered}
use sdios.Fs.Volume.{
  Volume, super_of, read_inode, read_copy, write_inode, write_copy, timed, update_times, put_at,
  has_update,
}
use mathlib.Core.Option.{some-injective}

either_lt : (c : Bool) (a b n : ℕ) → a < n → b < n → (if c then a else b) < n
either_lt true a b n la lb = la
either_lt false a b n la lb = lb

timed-FitsNew :
    (k : ℕ) (sp : SuperBlock) (now : ℕ) (rip : Inode)
    → FitsNew rip
    → now < 2 ^ 32
    → FitsNew (timed k sp now rip)
unfolding timed update_times
timed-FitsNew k sp now rip f l = elim (Bool-cases (has_update rip)) [
  | inl some_time ↦ elim (Bool-cases sp.rd_only) [
    | inl only ↦
        rw (some_time, only) (fits rip.atime rip.ctime rip.mtime _ _ _ f.atime f.ctime f.mtime)
    | inr writable ↦
        rw (some_time, writable)
          (fits _ _ _ false false false
            (either_lt rip.update_atime now rip.atime (2 ^ 32) l f.atime)
            (either_lt rip.update_ctime now rip.ctime (2 ^ 32) l f.ctime)
            (either_lt rip.update_mtime now rip.mtime (2 ^ 32) l f.mtime))
  ]
  | inr no_time ↦ rw no_time (fits rip.atime rip.ctime rip.mtime _ _ _ f.atime f.ctime f.mtime)
]
  where
    fits :
        (a c m : ℕ) (x y z : Bool)
        → a < 2 ^ 32
        → c < 2 ^ 32
        → m < 2 ^ 32
        → FitsNew (record rip {
          atime = a;
          ctime = c;
          mtime = m;
          sp = some k;
          update_atime = x;
          update_ctime = y;
          update_mtime = z;
        })
    fits a c m x y z la lc lm = record {
      mode = f.mode;
      uid = f.uid;
      nlinks = f.nlinks;
      gid = f.gid;
      size = f.size;
      atime = la;
      ctime = lc;
      mtime = lm;
      zones = f.zones;
      ten = f.ten;
    }

-- What is not a time or a mark stays as it is.
timed_kept :
    (k : ℕ) (sp : SuperBlock) (now : ℕ) (rip : Inode)
    → ((timed k sp now rip).dev ≡ rip.dev)
      × ((timed k sp now rip).num ≡ rip.num)
      × ((timed k sp now rip).sp ≡ some k)
      × ((timed k sp now rip).ndzones ≡ rip.ndzones)
      × ((timed k sp now rip).nindirs ≡ rip.nindirs)
unfolding timed update_times
timed_kept k sp now rip = elim (Bool-cases (has_update rip)) [
  | inl some_time ↦ elim (Bool-cases sp.rd_only) [
    | inl only ↦ rw (some_time, only) (refl, refl, refl, refl, refl)
    | inr writable ↦ rw (some_time, writable) (refl, refl, refl, refl, refl)
  ]
  | inr no_time ↦ rw no_time (refl, refl, refl, refl, refl)
]

-- The disk copy is the inode that was written.
read_copy-write_copy :
    (k : ℕ) (sp : SuperBlock) (rip : Inode) (v : Volume)
    → sp.version ≢ 1
    → FitsNew rip
    → rip.sp ≡ some k
    → rip.ndzones ≡ 7
    → rip.nindirs ≡ sp.block_size / 4
    → read_copy k sp (record rip { dirt = false }) (write_copy sp rip v)
      ≡ record rip { dirt = false }
unfolding read_copy write_copy write_new
read_copy-write_copy k sp rip v new f s nd ni =
    let kept = record rip { sp = some k; dirt = false } in
    let fits : FitsNew kept = record {
      mode = f.mode;
      uid = f.uid;
      nlinks = f.nlinks;
      gid = f.gid;
      size = f.size;
      atime = f.atime;
      ctime = f.ctime;
      mtime = f.mtime;
      zones = f.zones;
      ten = f.ten;
    } in
    rw
      (
        ==_no sp.version 1 new,
        put_at_self rip.dev (inode_block sp rip.num) (inode_index sp rip.num)
            (write_new sp.native rip) v.d2_inode,
      )
      (ap (λ (r : Inode). record r { dirt = false })
          (read_new-write_new sp.native sp.block_size kept fits)
        ∙ rw (s, nd, ni) refl)

super_of-write_copy :
    (dev : ℕ) (sp : SuperBlock) (rip : Inode) (v : Volume)
    → super_of dev (write_copy sp rip v) ≡ super_of dev v
unfolding super_of write_copy
super_of-write_copy dev sp rip v = refl

-- Two inodes of one super block or of two devices have different places on disk.
places :
    (sp sp' : SuperBlock) (rip other : Inode) (v : Volume) (k k' : ℕ)
    → super_of rip.dev v ≡ some (k, sp)
    → super_of other.dev v ≡ some (k', sp')
    → IsNumbered sp
    → 1 ≤ rip.num
    → 1 ≤ other.num
    → (other.dev ≡ rip.dev → other.num ≢ rip.num)
    → other.dev ≡ rip.dev
    → inode_block sp' other.num ≡ inode_block sp rip.num
    → inode_index sp' other.num ≢ inode_index sp rip.num
places sp sp' rip other v k k' e e' (pos, per) h h' apart dev =
    let pair =
      some-injective {A = ℕ × SuperBlock} (k', sp') (k, sp)
        (sym e' ∙ ap (λ (d : ℕ). super_of d v) dev ∙ e) in
    let same : sp' ≡ sp = ap (λ (p : ℕ × SuperBlock). p.1) pair in
    subst
      (λ (q : SuperBlock).
        inode_block q other.num ≡ inode_block sp rip.num
        → inode_index q other.num ≢ inode_index sp rip.num)
      (sym same) (inode_place sp other.num rip.num pos per h' h (apart dev)).0

read_inode_at :
    (rip : Inode) (v : Volume) (p : Option (ℕ × SuperBlock))
    → super_of rip.dev v ≡ p
    → read_inode rip v ≡ (p >>= λ q. some (read_copy q.0 q.1 rip v))
unfolding read_inode
read_inode_at rip v p e =
    ap (λ (o : Option (ℕ × SuperBlock)). o >>= λ q. some (read_copy q.0 q.1 rip v)) e

-- Another inode is read as before.
read_inode-write_copy_other :
    (sp : SuperBlock) (t other : Inode) (v : Volume)
    → ((k' : ℕ) (sp' : SuperBlock)
        → super_of other.dev v ≡ some (k', sp')
        → other.dev ≡ t.dev
        → inode_block sp' other.num ≡ inode_block sp t.num
        → inode_index sp' other.num ≢ inode_index sp t.num)
    → read_inode other (write_copy sp t v) ≡ read_inode other v
read_inode-write_copy_other sp t other v apart = go (super_of other.dev v) refl
  where
    go :
        (p : Option (ℕ × SuperBlock))
        → super_of other.dev v ≡ p
        → read_inode other (write_copy sp t v) ≡ read_inode other v
    go none q =
        read_inode_at other (write_copy sp t v) none (super_of-write_copy other.dev sp t v ∙ q)
        ∙ sym (read_inode_at other v none q)
    go (some (k', sp')) q =
        read_inode_at other (write_copy sp t v) (some (k', sp'))
          (super_of-write_copy other.dev sp t v ∙ q)
        ∙ ap some (read_copy-write_copy_other k' sp sp' t other v (apart k' sp' q))
        ∙ sym (read_inode_at other v (some (k', sp')) q)

-- With the super block of a V2 or V3 device in the table, an inode whose fields fit the disk and a clock
-- that fits, rw_inode writes the inode with its times brought up to date. What it leaves in the table
-- is what it reads back afterwards, and every inode of another number or device is read as before.
pub write_inode_lem :
    (now k : ℕ) (sp : SuperBlock) (rip : Inode) (v : Volume)
    → super_of rip.dev v ≡ some (k, sp)
    → IsNumbered sp
    → sp.version ≢ 1
    → FitsNew rip
    → now < 2 ^ 32
    → rip.ndzones ≡ 7
    → rip.nindirs ≡ sp.block_size / 4
    → 1 ≤ rip.num
    → let rip' = record (timed k sp now rip) { dirt = false } in
      (v' : Volume) × (write_inode now rip v ≡ some (rip', v'))
      × (read_inode rip' v' ≡ some rip')
      × ((other : Inode)
          → 1 ≤ other.num
          → (other.dev ≡ rip.dev → other.num ≢ rip.num)
          → read_inode other v' ≡ read_inode other v)
unfolding write_inode
write_inode_lem now k sp rip v e numbered new f l nd ni h =
    let (dev, num, s, nd', ni') = timed_kept k sp now rip in
    let t = timed k sp now rip in
    (
      write_copy sp t v,
      ap
          (λ (o : Option (ℕ × SuperBlock)). o >>= λ p. some (
            record (timed p.0 p.1 now rip) { dirt = false },
            write_copy p.1 (timed p.0 p.1 now rip) v,
          ))
          e,
      read_inode_at (record t { dirt = false }) (write_copy sp t v) (some (k, sp))
            (super_of-write_copy t.dev sp t v ∙ ap (λ (d : ℕ). super_of d v) dev ∙ e)
          ∙ ap some (
              read_copy-write_copy k sp t v new (timed-FitsNew k sp now rip f l) s (nd' ∙ nd)
                (ni' ∙ ni)),
      λ other h' apart. read_inode-write_copy_other sp t other v (λ k' sp' q.
          places sp sp' t other v k k' (ap (λ (d : ℕ). super_of d v) dev ∙ e) q numbered
            (subst (λ (n : ℕ). 1 ≤ n) (sym num) h) h' (λ d n. apart (d ∙ dev) (n ∙ num))),
    )
