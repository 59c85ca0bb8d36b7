-- ===== src/Fs/Volume/Copies/Place.antt =====
-- A write to one place of the disk inodes.
use sdios.Prelude.{ℕ, ◌<◌, ◌≡◌, ◌≢◌, inl, inr, refl, ◌==◌, Bool-cases, ℕ_discrete, ==_yes, ==_no}
use sdios.Fs.Super.{SuperBlock}
use sdios.Fs.Inode.{Inode}
use sdios.Fs.Inode.Copy.{write_old, write_new, inode_block, inode_index}
use sdios.Fs.Inode.RoundTrip.{per_block_of}
use sdios.Fs.Volume.{Volume, read_copy, write_copy, put_at}

pub put_at_self {ℓ} :
    {A : Type ℓ} (dev b i : ℕ) (x : A) (f : ℕ → ℕ → ℕ → A) → put_at dev b i x f dev b i ≡ x
unfolding put_at
put_at_self dev b i x f = rw (==_yes dev dev refl, ==_yes b b refl, ==_yes i i refl) refl

put_at_other {ℓ} :
    {A : Type ℓ} (dev b i dev' b' i' : ℕ) (x : A) (f : ℕ → ℕ → ℕ → A)
    → (dev' ≡ dev → b' ≡ b → i' ≢ i)
    → put_at dev b i x f dev' b' i' ≡ f dev' b' i'
unfolding put_at
put_at_other dev b i dev' b' i' x f ne = elim (ℕ_discrete dev' dev) [
  | no d ↦ rw (==_no dev' dev d) refl
  | yes d ↦ elim (ℕ_discrete b' b) [
    | no e ↦ rw (==_yes dev' dev d, ==_no b' b e) refl
    | yes e ↦ rw (==_yes dev' dev d, ==_yes b' b e, ==_no i' i (ne d e)) refl
  ]
]

-- Numbers per block as read_super sets them.
abbrev pub IsNumbered : SuperBlock → Type 0
IsNumbered sp = (0 < sp.inodes_per_block) × (sp.inodes_per_block ≡ per_block_of sp)

-- The write leaves the disk copy of another inode of the same super block, and of another device.
pub read_copy-write_copy_other :
    (k' : ℕ) (sp sp' : SuperBlock) (rip other : Inode) (v : Volume)
    → (other.dev ≡ rip.dev
        → inode_block sp' other.num ≡ inode_block sp rip.num
        → inode_index sp' other.num ≢ inode_index sp rip.num)
    → read_copy k' sp' other (write_copy sp rip v) ≡ read_copy k' sp' other v
unfolding read_copy write_copy
read_copy-write_copy_other k' sp sp' rip other v apart =
    let b = inode_block sp rip.num in
    let i = inode_index sp rip.num in
    let b' = inode_block sp' other.num in
    let i' = inode_index sp' other.num in
    elim (Bool-cases (sp.version == 1)) [
      | inl old ↦
          rw
            (
              old,
              put_at_other rip.dev b i other.dev b' i' (write_old sp.native rip) v.d1_inode apart,
            )
            refl
      | inr new ↦
          rw
            (
              new,
              put_at_other rip.dev b i other.dev b' i' (write_new sp.native rip) v.d2_inode apart,
            )
            refl
    ]
