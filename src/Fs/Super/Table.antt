-- ===== src/Fs/Super/Table.antt =====
-- The search of the super block table by device.
use sdios.Prelude.{
  ℕ, suc, ◌≡◌, ◌≢◌, refl, true, none, some, List, [], ◌∷◌, arith, ◌==◌, get_elem?, ◌⊎◌, inl, inr,
  ℕ_discrete,
}
use sdios.Fs.Super.{
  SuperBlock, find_super, get_super, mounted, get_block_size, block_size_of, min_block_size,
}

module _ (root dev : ℕ) where
  -- The three searches of a table for one device find the same slot, or none.
  abbrev pub Searched : List SuperBlock → Type 0
  Searched table =
      ((find_super dev table ≡ none)
        × (block_size_of dev table ≡ min_block_size)
        × (mounted root dev table ≡ (dev == root)))
      ⊎ ((i : ℕ) × (sp : SuperBlock) × (find_super dev table ≡ some i)
          × (get_elem? table i ≡ some sp)
          × (sp.dev ≡ dev)
          × (block_size_of dev table ≡ sp.block_size)
          × (mounted root dev table ≡ true))

  searched : (table : List SuperBlock) → Searched table
  unfolding find_super block_size_of mounted
  searched [] = inl (refl, refl, refl)
  searched (sp ∷ table) = elim (ℕ_discrete sp.dev dev) [
    | yes here ↦
        inr (0, sp, ground (arith, here), refl, here, ground (arith, here), ground (arith, here))
    | no there ↦ go there (searched table)
  ]
    where
      go : sp.dev ≢ dev → Searched table → Searched (sp ∷ table)
      go ne (inl (a, b, c)) = inl (ground (arith, a), ground (arith, b), ground (arith, c))
      go ne (inr (i, q, a, b, c, d, e)) =
          inr (suc i, q, ground (arith, a), b, c, ground (arith, d), ground (arith, e))

-- For a device other than NO_DEV, either get_super panics, the block size is MIN_BLOCK_SIZE and only
-- the root device counts as mounted, or get_super finds a slot of the device, the block size is that
-- of the slot, and the device counts as mounted.
pub super_searches :
    (root dev : ℕ) (table : List SuperBlock)
    → dev ≢ 0
    → ((get_super dev table ≡ none)
        × (get_block_size dev table ≡ some min_block_size)
        × (mounted root dev table ≡ (dev == root)))
      ⊎ ((i : ℕ) × (sp : SuperBlock) × (get_super dev table ≡ some i)
          × (get_elem? table i ≡ some sp)
          × (sp.dev ≡ dev)
          × (get_block_size dev table ≡ some sp.block_size)
          × (mounted root dev table ≡ true))
unfolding get_super get_block_size
super_searches root dev table ne = elim (searched root dev table) [
  | inl (a, b, c) ↦ inl (ground (arith, a), ground (arith, b), c)
  | inr (i, sp, a, b, c, d, e) ↦ inr (i, sp, ground (arith, a), b, c, ground (arith, d), e)
]
