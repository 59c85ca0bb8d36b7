-- ===== src/Fs/Bitmap.antt =====
-- The allocation bit maps of a device: alloc_bit and free_bit of
-- sdios/src/minix3fs/servers/fs/super.c. The buffer cache is seen through get_block and put_block:
-- a store gives the words of each block of the device, and the blocks that are marked dirty.
pub mod Scan
pub mod Search
pub mod Alloc
pub mod Free
pub mod Tests
use sdios.Prelude.{
  ℕ, zero, suc, ◌+◌, ◌-◌, ◌*◌, ◌/◌, ◌%◌, ◌^◌, ◌≡◌, Bool, true, false, Option, none, some, List, [],
  ◌∷◌, ◌==◌, leb, if◌then◌else◌, get_or, set,
}
use sdios.Fs.Words.{conv2}
use sdios.Fs.Bits.{bit_of, set_bit, clear_bit, lowest_clear}
use sdios.Fs.Super.{SuperBlock}

pub data Map : Type 0 where
  imap zmap : Map

pub record Store : Type 0 where
  pub words : ℕ → List ℕ
  pub dirty : ℕ → Bool

-- The words of one block are replaced and the block is marked dirty.
unfoldable pub write_block : Store → ℕ → List ℕ → Store
write_block s nr ws = record {
  words = λ i. if i == nr then ws else s.words i;
  dirty = λ i. if i == nr then true else s.dirty i;
}

-- FS_BITS_PER_BLOCK: sixteen bits for each two bytes
abbrev pub bits_per_block : SuperBlock → ℕ
bits_per_block sp = (sp.block_size / 2) * 16

-- START_BLOCK is 2.
unfoldable pub start_block : SuperBlock → Map → ℕ
start_block sp imap = 2
start_block sp zmap = 2 + sp.imap_blocks

-- zones - (firstdatazone - 1), on 32 bits.
unfoldable pub map_bits : SuperBlock → Map → ℕ
map_bits sp imap = (sp.ninodes + 1) % 2 ^ 32
map_bits sp zmap = (sp.zones + 1 + (2 ^ 32 - sp.firstdatazone)) % 2 ^ 32

unfoldable pub bit_blocks : SuperBlock → Map → ℕ
bit_blocks sp imap = sp.imap_blocks
bit_blocks sp zmap = sp.zmap_blocks

-- The loop over the words of one block, from the word that holds bit `n`: the bit that it
-- allocates, and the words that it leaves behind.
unfoldable pub scan_words : Bool → ℕ → ℕ → List ℕ → Option ℕ × List ℕ
scan_words native limit n [] = (none, [])
scan_words native limit n (w ∷ ws) =
    let rest = scan_words native limit (n + 16) ws in
    let k = conv2 native w in
    let i = lowest_clear 16 k in
    if w == 65535
    then (rest.0, w ∷ rest.1)
    else if leb limit (n + i)
    then (none, w ∷ ws)
    else (some (n + i), conv2 native (set_bit k i) ∷ ws)

-- `wptr = &bp->b_bitmap[word]`: the words before it are passed over.
unfoldable pub scan_from : Bool → ℕ → ℕ → ℕ → List ℕ → Option ℕ × List ℕ
unfolding scan_words
scan_from native limit n zero ws = scan_words native limit n ws
scan_from native limit n (suc word) [] = (none, [])
scan_from native limit n (suc word) (w ∷ ws) =
    let rest = scan_from native limit (n + 16) word ws in (rest.0, w ∷ rest.1)

-- `if (++block >= bit_blocks) block = 0;`
abbrev pub next_block : ℕ → ℕ → ℕ
next_block blocks block = if leb blocks (block + 1) then 0 else block + 1

-- The do-while over the blocks with `bcount` rounds left; 0 is NO_BIT.
unfoldable pub search_blocks :
    (native : Bool) (start limit blocks per_block : ℕ) → ℕ → ℕ → ℕ → Store → ℕ × Store
unfolding scan_from
search_blocks native start limit blocks per_block zero block word s = (0, s)
search_blocks native start limit blocks per_block (suc bcount) block word s =
    let found = scan_from native limit (block * per_block) word (s.words (start + block)) in
    let rest =
      search_blocks native start limit blocks per_block bcount (next_block blocks block) 0 s in
    elim found.0 [ some b ↦ (b, write_block s (start + block) found.1) | none ↦ rest ]

-- `none` is the panic on a file system that is mounted read-only.
unfoldable pub alloc_bit : SuperBlock → Map → ℕ → Store → Option (ℕ × Store)
unfolding search_blocks start_block map_bits bit_blocks
alloc_bit sp map origin s =
    let limit = map_bits sp map in
    let from = if leb limit origin then 0 else origin in
    let per_block = bits_per_block sp in
    if sp.rd_only
    then none
    else some (
        search_blocks sp.native (start_block sp map) limit (bit_blocks sp map) per_block
          (bit_blocks sp map + 1) (from / per_block) ((from % per_block) / 16) s)

-- `none` is a panic: a read-only file system, or a bit that is clear already.
unfoldable pub free_bit : SuperBlock → Map → ℕ → Store → Option Store
unfolding start_block write_block
free_bit sp map bit_returned s =
    let per_block = bits_per_block sp in
    let nr = start_block sp map + bit_returned / per_block in
    let word = (bit_returned % per_block) / 16 in
    let k = conv2 sp.native (get_or (s.words nr) word 0) in
    if sp.rd_only
    then none
    else if bit_of k (bit_returned % 16) == 0
    then none
    else some (
        write_block s nr
          (set (s.words nr) word (conv2 sp.native (clear_bit k (bit_returned % 16)))))
