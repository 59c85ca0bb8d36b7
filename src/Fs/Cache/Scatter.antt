-- ===== src/Fs/Cache/Scatter.antt =====
-- rw_scattered and flushall of sdios/src/minix3fs/servers/fs/cache.c.
use sdios.Prelude.{
  ℕ, zero, suc, ◌+◌, Bool, true, false, not, ◌&&◌, List, [], ◌∷◌, ◌++◌, ◌==◌, ltb, if◌then◌else◌,
  min, length, take, drop, get_or, some,
}
use sdios.Fs.Cache.{Cache, Driver, no_dev, modify, put_disk, put_block}
use sdios.Fs.Cache.Sort.{shell_sort}

-- The length of the run that starts the queue: consecutive blocks, NR_IOREQS of them at most.
unfoldable pub run_length : Cache → ℕ → ℕ → List ℕ → ℕ
run_length c first j [] = j
run_length c first j (x ∷ xs) =
    let rest = run_length c first (suc j) xs in
    if ltb j (min c.size 64) && (c.bufs x).blocknr == first + j then rest else j

-- What dev_io does to the blocks of the run that it transfers.
unfoldable pub transfer_all : Bool → ℕ → List ℕ → Cache → Cache
transfer_all writing dev [] c = c
transfer_all true dev (x ∷ xs) c =
    transfer_all true dev xs
      (record c { disk = put_disk dev (c.bufs x).blocknr (c.bufs x).contents c.disk })
transfer_all false dev (x ∷ xs) c =
    transfer_all false dev xs (modify x (λ b. record b { contents = c.disk dev b.blocknr }) c)

-- A buffer of the run that was transferred.
unfoldable pub harvest_one : Driver → Bool → ℕ → ℕ → Cache → Cache
unfolding put_block
harvest_one io true dev x c = modify x (λ b. record b { dirt = false }) c
harvest_one io false dev x c =
    put_block io false false (some x) (modify x (λ b. record b { dev = dev }) c)

unfoldable pub harvest : Driver → Bool → ℕ → List ℕ → Cache → Cache
unfolding harvest_one
harvest io writing dev [] c = c
harvest io writing dev (x ∷ xs) c = harvest io writing dev xs (harvest_one io writing dev x c)

-- The first buffer that was not transferred is invalidated if it is the first of the run and r is not OK.
unfoldable pub refuse : Bool → ℕ → List ℕ → Cache → Cache
refuse true zero (x ∷ xs) c = modify x (λ b. record b { dev = no_dev }) c
refuse failed n xs c = c

-- The buffers that a read leaves over.
unfoldable pub release_all : Driver → List ℕ → Cache → Cache
unfolding put_block
release_all io [] c = c
release_all io (x ∷ xs) c = release_all io xs (put_block io false false (some x) c)

-- One run: how many buffers of the queue it takes off, and the cache after it.
unfoldable pub do_run : Driver → Bool → ℕ → List ℕ → Cache → ℕ × Cache
unfolding run_length transfer_all harvest refuse
do_run io writing dev q c =
    let first = (c.bufs (get_or q 0 0)).blocknr in
    let j = run_length c first 0 q in
    let answer = io.vector writing dev first j in
    let n = min answer.0 j in
    let done = take n q in
    (n, refuse (not answer.1) n q (harvest io writing dev done (transfer_all writing dev done c)))

-- `while (bufqsize > 0)`, at most as often as there are buffers.
unfoldable pub rw_loop : ℕ → Driver → Bool → ℕ → List ℕ → Cache → Cache
unfolding do_run release_all
rw_loop zero io writing dev q c = c
rw_loop (suc fuel) io writing dev [] c = c
rw_loop (suc fuel) io false dev q c =
    let (n, c') = do_run io false dev q c in release_all io (drop n q) c'
rw_loop (suc fuel) io true dev q c =
    let (n, c') = do_run io true dev q c in
    let rest = rw_loop fuel io true dev (drop n q) c' in if n == 0 then c' else rest

unfoldable pub rw_scattered : Driver → Bool → ℕ → List ℕ → Cache → Cache
unfolding rw_loop shell_sort
rw_scattered io writing dev q c =
    rw_loop (length q) io writing dev (shell_sort (λ x. (c.bufs x).blocknr) q) c

-- The slots below n of the dirty buffers of a device, in order.
unfoldable pub dirty_below : ℕ → ℕ → Cache → List ℕ
dirty_below zero dev c = []
dirty_below (suc n) dev c =
    let rest = dirty_below n dev c in
    if (c.bufs n).dirt && (c.bufs n).dev == dev then rest ++ n ∷ [] else rest

unfoldable pub flushall : Driver → ℕ → Cache → Cache
unfolding dirty_below rw_scattered
flushall io dev c = rw_scattered io true dev (dirty_below c.size dev c) c
