-- ===== src/Fs/Cache/Get.antt =====
-- get_block of sdios/src/minix3fs/servers/fs/cache.c.
use sdios.Prelude.{ℕ, zero, suc, ◌%◌, false, ◌&&◌, Option, none, some, ◌==◌, if◌then◌else◌, ◌>>=◌}
use sdios.Fs.Cache.{
  Cache, Driver, Search, normal, no_read, prefetch, no_dev, at, modify, rm_lru, rw_block,
}
use sdios.Fs.Cache.Scatter.{flushall}

abbrev pub bucket : Cache → ℕ → ℕ
bucket c block = block % c.buckets

-- `while (bp != NIL_BUF)` on a hash chain; a chain is no longer than the pool.
unfoldable pub search_hash : ℕ → ℕ → ℕ → Cache → Option ℕ → Option ℕ
search_hash zero dev block c p = none
search_hash (suc fuel) dev block c none = none
search_hash (suc fuel) dev block c (some i) =
    let rest = search_hash fuel dev block c (c.bufs i).hash in
    if (c.bufs i).blocknr == block && (c.bufs i).dev == dev then some i else rest

unfoldable pub take_found : ℕ → Cache → Cache
unfolding rm_lru
take_found i c =
    modify i (λ b. record b { count = suc b.count })
      (if (c.bufs i).count == 0 then rm_lru i c else c)

-- `while (prev_ptr->b_hash != NIL_BUF)`, from the buffer p with what its b_hash is.
unfoldable pub unlink_after : ℕ → ℕ → Option ℕ → ℕ → Cache → Cache
unlink_after zero p next i c = c
unlink_after (suc fuel) p none i c = c
unlink_after (suc fuel) p (some q) i c =
    let rest = unlink_after fuel q (c.bufs q).hash i c in
    if q == i then modify p (λ b. record b { hash = (c.bufs i).hash }) c else rest

abbrev pub set_head : ℕ → Option ℕ → Cache → Cache
set_head b p c = record c { buf_hash = at b p c.buf_hash }

-- The chain whose first buffer is given. `none` is a read through NIL_BUF.
unfoldable pub unlink_from : Option ℕ → ℕ → Cache → Option Cache
unfolding unlink_after
unlink_from none i c = none
unlink_from (some p) i c =
    if p == i
    then some (set_head (bucket c (c.bufs i).blocknr) (c.bufs i).hash c)
    else some (unlink_after c.size p (c.bufs p).hash i c)

unfoldable pub unlink_hash : ℕ → Cache → Option Cache
unfolding unlink_from
unlink_hash i c = unlink_from (c.buf_hash (bucket c (c.bufs i).blocknr)) i c

-- The victim and the other dirty blocks of its device are written.
unfoldable pub clean_victim : Driver → ℕ → Cache → Cache
unfolding flushall
clean_victim io i c =
    let b = c.bufs i in
    let flushed = flushall io b.dev c in
    if b.dev == no_dev then c else if b.dirt then flushed else c

unfoldable pub name_buf : ℕ → ℕ → ℕ → Cache → Cache
name_buf dev block i c = set_head (bucket c block) (some i) (
    modify i
      (λ b. record b {
        dev = dev;
        blocknr = block;
        count = suc b.count;
        hash = c.buf_hash (bucket c block);
      })
      c)

unfoldable pub fetch : Driver → Search → ℕ → Cache → Cache
unfolding rw_block
fetch io prefetch i c = modify i (λ b. record b { dev = no_dev }) c
fetch io normal i c = rw_block io false i c
fetch io no_read i c = c

-- The least recently used buffer is taken. `none` is the panic when all buffers are in use.
unfoldable pub take_front : Driver → ℕ → ℕ → Search → Option ℕ → Cache → Option (ℕ × Cache)
unfolding rm_lru unlink_hash clean_victim name_buf fetch
take_front io dev block only_search none c = none
take_front io dev block only_search (some i) c = do
  unlinked ← unlink_hash i (rm_lru i c)
  let named = name_buf dev block i (clean_victim io i unlinked)
  some (i, if dev == no_dev then named else fetch io only_search i named)

unfoldable pub lookup : ℕ → ℕ → Cache → Option ℕ
unfolding search_hash
lookup dev block c =
    if dev == no_dev then none else search_hash c.size dev block c (c.buf_hash (bucket c block))

unfoldable pub found_or_front : Driver → ℕ → ℕ → Search → Cache → Option ℕ → Option (ℕ × Cache)
unfolding take_found take_front
found_or_front io dev block only_search c (some i) = some (i, take_found i c)
found_or_front io dev block only_search c none = take_front io dev block only_search c.front c

unfoldable pub get_block : Driver → ℕ → ℕ → Search → Cache → Option (ℕ × Cache)
unfolding lookup found_or_front
get_block io dev block only_search c =
    found_or_front io dev block only_search c (lookup dev block c)
