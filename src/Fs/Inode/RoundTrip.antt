-- ===== src/Fs/Inode/RoundTrip.antt =====
-- An inode that is written to disk and read back, and where on disk inodes are.
use sdios.Prelude.{
  ℕ, zero, suc, ◌+◌, ◌*◌, ◌-◌, ◌/◌, ◌%◌, ◌≤◌, ◌<◌, ◌^◌, ◌≡◌, ◌≢◌, refl, Bool, List, [], ◌∷◌, map,
  take, length, take-append-drop, arith, ap, ap₂, sym, subst, Bool-cases, inl, inr, ◌==◌,
  if◌then◌else◌, ◌∙◌,
}
use native.Mathlib.Nat.{mod-eq_of_lt, mod-lt}
use sdios.Fs.Bitmap.Alloc.{div_mod_lem}
use sdios.Fs.Words.{conv2, conv4, conv2-conv2, conv4-conv4}
use sdios.Fs.Super.{SuperBlock, v1_inode_size, v2_inode_size, static_block_size}
use sdios.Fs.Inode.{Inode}
use sdios.Fs.Inode.Copy.{
  read_old, write_old, read_new, write_new, inode_block, inode_index, wide_gid,
}

-- Each number is below the bound.
abbrev pub AllBelow : ℕ → List ℕ → Type 0
AllBelow n [] = Unit {0}
AllBelow n (x ∷ xs) = (x < n) × AllBelow n xs

conv4s_kept :
    (norm : Bool) (n : ℕ) (zs : List ℕ)
    → AllBelow (2 ^ 32) zs
    → map (conv4 norm) (take n (map (conv4 norm) (take n zs))) ≡ take n zs
conv4s_kept norm zero zs a = refl
conv4s_kept norm (suc n) [] a = refl
conv4s_kept norm (suc n) (z ∷ zs) a = ap₂ ◌∷◌ (conv4-conv4 norm z a.0) (conv4s_kept norm n zs a.1)

conv2s_kept :
    (norm : Bool) (n : ℕ) (zs : List ℕ)
    → AllBelow (2 ^ 16) (take n zs)
    → map (conv2 norm) (take n (map (conv2 norm) (take n zs))) ≡ take n zs
conv2s_kept norm zero zs a = refl
conv2s_kept norm (suc n) [] a = refl
conv2s_kept norm (suc n) (z ∷ zs) a =
    ap₂ ◌∷◌ (conv2-conv2 norm z ∙ mod-eq_of_lt a.0) (conv2s_kept norm n zs a.1)

take_whole : (n : ℕ) (zs : List ℕ) → length zs ≤ n → take n zs ≡ zs
take_whole zero [] h = refl
take_whole zero (z ∷ zs) h = absurd (omega arith)
take_whole (suc n) [] h = refl
take_whole (suc n) (z ∷ zs) h = ap (λ (t : List ℕ). z ∷ t) (take_whole n zs (omega arith))

narrow : (gid : ℕ) → gid < 2 ^ 8 → wide_gid gid % 2 ^ 16 % 2 ^ 8 ≡ gid
narrow gid h = ground arith

-- The fields of an inode fit their places in a V2 disk inode.
pub record FitsNew (rip : Inode) : Type 0 where
  pub mode : rip.mode < 2 ^ 16
  pub uid : rip.uid < 2 ^ 16
  pub nlinks : rip.nlinks < 2 ^ 16
  pub gid : rip.gid < 2 ^ 8
  pub size : rip.size < 2 ^ 32
  pub atime : rip.atime < 2 ^ 32
  pub ctime : rip.ctime < 2 ^ 32
  pub mtime : rip.mtime < 2 ^ 32
  pub zones : AllBelow (2 ^ 32) rip.zone
  pub ten : length rip.zone ≡ 10

-- An inode whose fields fit a V2 disk inode is read back as it was written, in either byte order;
-- the numbers of direct and indirect zones come from the disk.
pub read_new-write_new :
    (norm : Bool) (block_size : ℕ) (rip : Inode)
    → FitsNew rip
    → read_new norm block_size (write_new norm rip) rip
      ≡ record rip { ndzones = 7; nindirs = block_size / 4 }
unfolding read_new write_new
read_new-write_new norm block_size rip f = rw (
  conv2-conv2 norm rip.mode,
  mod-eq_of_lt f.mode,
  conv2-conv2 norm rip.uid,
  mod-eq_of_lt f.uid,
  conv2-conv2 norm rip.nlinks,
  mod-eq_of_lt f.nlinks,
  conv2-conv2 norm (wide_gid rip.gid),
  narrow rip.gid f.gid,
  conv4-conv4 norm rip.size f.size,
  conv4-conv4 norm rip.atime f.atime,
  conv4-conv4 norm rip.ctime f.ctime,
  conv4-conv4 norm rip.mtime f.mtime,
  conv4s_kept norm 10 rip.zone f.zones,
  take_whole 10 rip.zone (omega (arith, f.ten)),
)

-- The fields of an inode fit their places in a V1 disk inode.
pub record FitsOld (rip : Inode) : Type 0 where
  pub mode : rip.mode < 2 ^ 16
  pub uid : rip.uid < 2 ^ 16
  pub nlinks : rip.nlinks < 2 ^ 8
  pub gid : rip.gid < 2 ^ 8
  pub size : rip.size < 2 ^ 32
  pub mtime : rip.mtime < 2 ^ 32
  pub zones : AllBelow (2 ^ 16) (take 9 rip.zone)

-- An inode whose fields fit a V1 disk inode is read back as it was written, in either byte order,
-- apart from the access and change times, which become the modification time, and the numbers of
-- direct and indirect zones, which are 7 and 512.
pub read_old-write_old :
    (norm : Bool) (rip : Inode)
    → FitsOld rip
    → read_old norm (write_old norm rip) rip
      ≡ record rip { atime = rip.mtime; ctime = rip.mtime; ndzones = 7; nindirs = 512 }
unfolding read_old write_old
read_old-write_old norm rip f = rw (
  conv2-conv2 norm rip.mode,
  mod-eq_of_lt f.mode,
  conv2-conv2 norm rip.uid,
  mod-eq_of_lt f.uid,
  mod-eq_of_lt f.nlinks,
  mod-eq_of_lt f.gid,
  conv4-conv4 norm rip.size f.size,
  conv4-conv4 norm rip.mtime f.mtime,
  conv2s_kept norm 9 rip.zone f.zones,
  take-append-drop 9 rip.zone,
)

-- The inodes per block that read_super sets.
abbrev pub per_block_of : SuperBlock → ℕ
per_block_of sp =
    if sp.version == 1 then static_block_size / v1_inode_size else sp.block_size / v2_inode_size

inode_index_lem : (sp : SuperBlock) (a : ℕ) → inode_index sp a ≡ (a - 1) % per_block_of sp
unfolding inode_index
inode_index_lem sp a = elim (Bool-cases (sp.version == 1)) [
  | inl v ↦ rw (v) refl
  | inr v ↦ rw (v) refl
]

same_quotient :
    (p a b : ℕ) → 1 ≤ a → 1 ≤ b → (a - 1) / p ≡ (b - 1) / p → (a - 1) % p ≡ (b - 1) % p → a ≡ b
same_quotient p a b ha hb q r =
    let e : a - 1 ≡ b - 1 =
      div_mod_lem (a - 1) p ∙ ap₂ (λ (x y : ℕ). x * p + y) q r ∙ sym (div_mod_lem (b - 1) p) in
    omega (arith, e)

-- With the inodes per block that read_super sets, two different inodes never share a place on disk,
-- the block of an inode lies behind the boot block, the super block and both maps, and its index is
-- within the block.
pub inode_place :
    (sp : SuperBlock) (a b : ℕ)
    → 0 < sp.inodes_per_block
    → sp.inodes_per_block ≡ per_block_of sp
    → 1 ≤ a
    → 1 ≤ b
    → a ≢ b
    → (inode_block sp a ≡ inode_block sp b → inode_index sp a ≢ inode_index sp b)
      × (2 + sp.imap_blocks + sp.zmap_blocks ≤ inode_block sp a)
      × (inode_index sp a < sp.inodes_per_block)
unfolding inode_block
inode_place sp a b pos e ha hb ne =
    let p = sp.inodes_per_block in
    let place : (c : ℕ) → inode_index sp c ≡ (c - 1) % p =
      λ (c : ℕ). inode_index_lem sp c ∙ ap (λ (q : ℕ). (c - 1) % q) (sym e) in
    (
      λ blocks indices.
          ne
            (same_quotient p a b ha hb (omega (arith, blocks)) (sym (place a) ∙ indices ∙ place b)),
      omega arith,
      subst (λ (i : ℕ). i < p) (sym (place a)) (mod-lt (a - 1) pos),
    )
