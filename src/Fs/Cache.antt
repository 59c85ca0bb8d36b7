-- ===== src/Fs/Cache.antt =====
-- The buffer cache of sdios/src/minix3fs/servers/fs/cache.c and buf.h. A pointer to a buffer is the number
-- of its slot in buf, and `none` is NIL_BUF. What lies behind dev_io is a driver: it says which transfers
-- succeed, and a block that is not transferred leaves buffer and disk as they are.
pub mod Chain
pub mod Links
pub mod Lru
pub mod Hash
pub mod Unlink
pub mod Invariant
pub mod Take
pub mod Link
pub mod Rw
pub mod Put
pub mod Flush
pub mod Coherent
pub mod Written
pub mod Flushed
pub mod Rehash
pub mod Rename
pub mod Evict
pub mod Acquire
pub mod ReadAs
pub mod Reads
pub mod Pool
pub mod Writes
pub mod Invalidate
pub mod Tests
pub mod Content
pub mod Sort
pub mod Scatter
pub mod Get
use sdios.Prelude.{
  ℕ, zero, suc, ◌+◌, ◌-◌, Bool, true, false, not, ◌||◌, ◌&&◌, Option, none, some, List, [], ◌==◌,
  if◌then◌else◌,
}

-- contents is b_data. count is a char of the source: it is not modelled past 127.
pub record Buf : Type 0 where
  pub contents : List ℕ
  pub next : Option ℕ
  pub prev : Option ℕ
  pub hash : Option ℕ
  pub blocknr : ℕ
  pub dev : ℕ
  pub dirt : Bool
  pub count : ℕ

-- size is NR_BUFS and buckets is NR_BUF_HASH, a power of two. rdwt_err is the negated error code.
pub record Cache : Type 0 where
  pub size : ℕ
  pub buckets : ℕ
  pub bufs : ℕ → Buf
  pub buf_hash : ℕ → Option ℕ
  pub front : Option ℕ
  pub rear : Option ℕ
  pub bufs_in_use : ℕ
  pub rdwt_err : ℕ
  pub disk : ℕ → ℕ → List ℕ

-- The answer of dev_io on one block: the size asked for, another size, or a negated error code.
pub data Answer : Type 0 where
  full : Answer
  short : Answer
  error : ℕ → Answer

-- transfer answers for a block, with `true` for writing. vector answers for a run of blocks, from its
-- first block and its length: how many of them, from the first on, are transferred, and whether all is OK.
pub record Driver : Type 0 where
  pub transfer : Bool → ℕ → ℕ → Answer
  pub vector : Bool → ℕ → ℕ → ℕ → ℕ × Bool

pub data Search : Type 0 where
  normal : Search
  no_read : Search
  prefetch : Search

abbrev pub no_dev : ℕ
no_dev = 0

abbrev pub dev_ram : ℕ
dev_ram = 256

abbrev pub end_of_file : ℕ
end_of_file = 104

abbrev pub at {ℓ} : {A : Type ℓ} → ℕ → A → (ℕ → A) → ℕ → A
at i v f j = if j == i then v else f j

-- A write through a pointer.
abbrev pub modify : ℕ → (Buf → Buf) → Cache → Cache
modify i f c = record c { bufs = at i (f (c.bufs i)) c.bufs }

abbrev pub modify_at : Option ℕ → (Buf → Buf) → Cache → Cache
modify_at none f c = c
modify_at (some i) f c = modify i f c

-- `prev_ptr->b_next = next_ptr`, or front; `next_ptr->b_prev = prev_ptr`, or rear.
unfoldable pub set_next : Option ℕ → Option ℕ → Cache → Cache
set_next none q c = record c { front = q }
set_next (some i) q c = modify i (λ b. record b { next = q }) c

unfoldable pub set_prev : Option ℕ → Option ℕ → Cache → Cache
set_prev none q c = record c { rear = q }
set_prev (some i) q c = modify i (λ b. record b { prev = q }) c

unfoldable pub rm_lru : ℕ → Cache → Cache
unfolding set_next set_prev
rm_lru i c =
    let next_ptr = (c.bufs i).next in
    let prev_ptr = (c.bufs i).prev in
    set_prev next_ptr prev_ptr
      (set_next prev_ptr next_ptr (record c { bufs_in_use = suc c.bufs_in_use }))

-- The two ways that put_block links a buffer into the chain.
unfoldable pub put_front : ℕ → Cache → Cache
unfolding set_prev
put_front i c =
    let c' = modify i (λ b. record b { prev = none; next = c.front }) c in
    record (set_prev c.front (some i) c') { front = some i }

unfoldable pub put_rear : ℕ → Cache → Cache
unfolding set_next
put_rear i c =
    let c' = modify i (λ b. record b { prev = c.rear; next = none }) c in
    record (set_next c.rear (some i) c') { rear = some i }

-- What a block of the disk holds after a write.
abbrev pub put_disk : ℕ → ℕ → List ℕ → (ℕ → ℕ → List ℕ) → ℕ → ℕ → List ℕ
put_disk dev block contents disk dev' block' =
    if dev' == dev && block' == block then contents else disk dev' block'

unfoldable pub fail_block : Bool → ℕ → ℕ → Cache → Cache
fail_block true r i c = modify i (λ b. record b { dev = no_dev; dirt = false }) c
fail_block false r i c = record (modify i (λ b. record b { dev = no_dev; dirt = false }) c) {
  rdwt_err = r;
}

-- rw_block once the device has answered, writing or reading.
unfoldable pub end_block : Bool → Answer → ℕ → Cache → Cache
unfolding fail_block
end_block true full i c = record (modify i (λ b. record b { dirt = false }) c) {
  disk = put_disk (c.bufs i).dev (c.bufs i).blocknr (c.bufs i).contents c.disk;
}
end_block false full i c =
    modify i (λ b. record b { contents = c.disk b.dev b.blocknr; dirt = false }) c
end_block writing short i c = fail_block writing end_of_file i c
end_block writing (error r) i c = fail_block writing r i c

-- Blocks are read and written whole, so the block size drops out, and with it the position, which the
-- source computes in 32 bits: the device is one that such a position reaches. No caller here names NO_DEV,
-- on which get_block_size panics.
unfoldable pub rw_block : Driver → Bool → ℕ → Cache → Cache
unfolding end_block
rw_block io writing i c =
    if (c.bufs i).dev == no_dev
    then modify i (λ b. record b { dirt = false }) c
    else end_block writing (io.transfer writing (c.bufs i).dev (c.bufs i).blocknr) i c

-- The last user of a buffer has left it. one_shot and write_immed are the bits of block_type.
unfoldable pub free_buf : Driver → Bool → Bool → ℕ → Cache → Cache
unfolding put_front put_rear rw_block
free_buf io one_shot write_immed i c =
    let linked = (if (c.bufs i).dev == dev_ram || one_shot then put_front i c else put_rear i c) in
    if write_immed && (c.bufs i).dirt && not ((c.bufs i).dev == no_dev)
    then rw_block io true i linked
    else linked

-- The caller is a user of the buffer, whose count is then above zero.
unfoldable pub put_block : Driver → Bool → Bool → Option ℕ → Cache → Cache
unfolding free_buf
put_block io one_shot write_immed none c = c
put_block io one_shot write_immed (some i) c =
    let c' = modify i (λ b. record b { count = b.count - 1 }) c in
    if (c.bufs i).count == 1
    then free_buf io one_shot write_immed i (record c' { bufs_in_use = c.bufs_in_use - 1 })
    else c'

-- `for (bp = &buf[0]; bp < &buf[NR_BUFS]; bp++)`, on the first n slots.
unfoldable pub invalidate_below : ℕ → ℕ → Cache → Cache
invalidate_below zero device c = c
invalidate_below (suc n) device c =
    let c' = invalidate_below n device c in
    if (c'.bufs n).dev == device then modify n (λ b. record b { dev = no_dev }) c' else c'

unfoldable pub invalidate : ℕ → Cache → Cache
unfolding invalidate_below
invalidate device c = invalidate_below c.size device c

-- buf_pool of main.c, on the buffers of a program that starts: all of them are on the first hash chain.
abbrev pub pool_buf : ℕ → ℕ → Buf
pool_buf n i = record {
  contents = [];
  next = if suc i == n then none else some (suc i);
  prev = if i == 0 then none else some (i - 1);
  hash = if suc i == n then none else some (suc i);
  blocknr = 0;
  dev = no_dev;
  dirt = false;
  count = 0;
}

unfoldable pub buf_pool : ℕ → ℕ → (ℕ → ℕ → List ℕ) → Cache
buf_pool n buckets disk = record {
  size = n;
  buckets = buckets;
  bufs = pool_buf n;
  buf_hash = at 0 (some 0) (λ b. none);
  front = some 0;
  rear = some (n - 1);
  bufs_in_use = 0;
  rdwt_err = 0;
  disk = disk;
}
