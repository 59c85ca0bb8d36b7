-- ===== src/Fs/Cache/Tests.antt =====
-- Small buffer caches, and the theorems on the cache on them.
use sdios.Prelude.{
  ◌||◌, ◌++◌, ℕ, suc, ◌-◌, length, ◌≡◌, ◌≢◌, refl, sym, ap, subst, true, false, Option, none, some,
  List, [], ◌∷◌, arith, ◌>>=◌, remove, ℕ_discrete, ==_yes, ◌∙◌, ◌<◌, if◌then◌else◌, ◌==◌,
}
use sdios.Fs.Cache.{
  Buf, Cache, Driver, dev_ram, full, normal, modify, buf_pool, rm_lru, put_block, free_buf,
  put_front, put_rear, set_next, set_prev, rw_block, end_block, invalidate,
}
use sdios.Fs.Cache.Links.{at-other}
use sdios.Fs.Cache.Sort.{shell_sort, narrow, widen, sort_gap, sink}
use sdios.Fs.Cache.Sort.Order.{IsSorted, shell_sort_lem}
use sdios.Fs.Cache.Sort.Count.{Rearranged}
use sdios.Fs.Cache.Scatter.{
  flushall, rw_scattered, rw_loop, do_run, run_length, transfer_all, harvest, harvest_one, refuse,
  dirty_below,
}
use sdios.Fs.Cache.Get.{
  lookup, search_hash, get_block, found_or_front, take_found, take_front, unlink_hash, unlink_from,
  unlink_after, clean_victim, name_buf, fetch,
}
use sdios.Fs.Cache.Lru.{Free, rm_lru_lem}
use sdios.Fs.Cache.Invariant.{IsValid, LruValid}
use sdios.Fs.Cache.Rw.{DataOnly-IsValid, modify-DataOnly}
use sdios.Fs.Cache.Put.{put_block-IsValid, put_block-LruValid}
use sdios.Fs.Cache.Content.{content, cached, lookup-cached}
use sdios.Fs.Cache.Coherent.{Coherent, SameContent}
use sdios.Fs.Cache.Flushed.{Flushed, flushall_lem}
use sdios.Fs.Cache.Acquire.{Acquired, get_block-Acquired, get_block_panic}
use sdios.Fs.Cache.ReadAs.{Works}
use sdios.Fs.Cache.Reads.{Returned, get_block-Returned}
use sdios.Fs.Cache.Writes.{put_block-Kept}
use sdios.Fs.Cache.Invalidate.{invalidate_lem}
use sdios.Fs.Cache.Pool.{buf_pool-IsValid, buf_pool-Coherent}

abbrev disk : ℕ → ℕ → List ℕ
disk dev block = dev ∷ block ∷ []

abbrev io : Driver
io = record { transfer = λ writing dev block. full; vector = λ writing dev first n. (n, true) }

io-Works : Works io
io-Works = record { reads = λ dev block. refl; writes = λ dev first n h. h }

abbrev pool : ℕ → Cache
pool n = buf_pool n 4 disk

abbrev from : Cache → Option (ℕ × Cache) → Cache
from c none = c
from c (some p) = p.1

-- Block 5 of device 1 is read into a cache of two buffers.
abbrev loaded : Cache
loaded = from (pool 2) (get_block io 1 5 normal (pool 2))

abbrev store : ℕ → Cache → Cache
store i c = modify i (λ b. record b { contents = 7 ∷ []; dirt = true }) c

-- It is written to.
abbrev dirtied : Cache
dirtied = store 0 loaded

-- It is given back, and two other blocks of its hash chain are read.
abbrev two_reads : Option (ℕ × Cache)
two_reads = do
  p ← get_block io 1 9 normal (put_block io false false (some 0) dirtied)
  get_block io 1 13 normal p.1

abbrev summary : Option (ℕ × Cache) → List (List ℕ)
summary none = []
summary (some (i, c)) = (i ∷ []) ∷ c.disk 1 5 ∷ c.disk 1 9 ∷ (c.bufs i).contents ∷ []

-- The second of them takes the buffer of block 5, which is written to the disk first.
evicted : summary two_reads ≡ (0 ∷ []) ∷ (7 ∷ []) ∷ (1 ∷ 9 ∷ []) ∷ (1 ∷ 13 ∷ []) ∷ []
unfolding get_block lookup search_hash found_or_front take_found take_front rm_lru set_next set_prev
    unlink_hash unlink_from unlink_after clean_victim flushall rw_scattered rw_loop do_run
    run_length transfer_all harvest harvest_one refuse dirty_below shell_sort narrow widen sort_gap
    sink name_buf fetch rw_block end_block put_block free_buf put_front put_rear buf_pool
evicted = refl

abbrev first_disk : ℕ
first_disk = 1

one_named : first_disk ≢ 0
one_named e = ground (arith, e)

pool-IsValid : (n : ℕ) → IsValid (pool (suc n))
pool-IsValid n = buf_pool-IsValid (suc n) 4 disk (omega arith) (omega arith)

free_buffer : (dev block n : ℕ) → lookup dev block (pool n) ≡ none → (pool n).front ≢ none
unfolding buf_pool
free_buffer dev block n miss e = ground (arith, e)

loaded-IsValid : IsValid loaded
loaded-IsValid =
    let (i, c, eq, valid, held) =
      get_block-Acquired io 1 5 normal (pool 2) (pool-IsValid 1) (free_buffer 1 5 2) in
    subst IsValid (sym (ap (from (pool 2)) eq)) valid

loaded-Coherent : Coherent loaded
loaded-Coherent =
    let (i, c, eq, name, contents, same, co) =
      get_block-Returned io 1 5 (pool 2) io-Works (pool-IsValid 1) (buf_pool-Coherent 2 4 disk)
        one_named (free_buffer 1 5 2) in
    subst Coherent (sym (ap (from (pool 2)) eq)) co

store-Coherent : (i : ℕ) (c : Cache) → Coherent c → Coherent (store i c)
store-Coherent i c co j l ne clean =
    let r : Buf = record (c.bufs i) { contents = 7 ∷ []; dirt = true } in
    elim (ℕ_discrete j i) [
      | yes e ↦
          let flag : ((store i c).bufs j).dirt ≡ true = rw (==_yes j i e) refl in
          absurd (ground (arith, flag, clean))
      | no other ↦
          let eq = at-other i r c.bufs j other in
          subst (λ (b : Buf). b.contents ≡ c.disk b.dev b.blocknr) (sym eq)
            (co j l (λ z. ne (ap (λ (b : Buf). b.dev) eq ∙ z))
              (sym (ap (λ (b : Buf). b.dirt) eq) ∙ clean))
    ]

dirtied-IsValid : IsValid dirtied
dirtied-IsValid =
    DataOnly-IsValid loaded dirtied
      (modify-DataOnly 0 (7 ∷ []) (loaded.bufs 0).dev true loaded (λ ne. refl)) loaded-IsValid

dirtied-Coherent : Coherent dirtied
dirtied-Coherent = store-Coherent 0 loaded loaded-Coherent

in_range : 0 < dirtied.size
unfolding get_block lookup search_hash found_or_front take_found take_front rm_lru set_next set_prev
    unlink_hash unlink_from unlink_after clean_victim name_buf fetch rw_block end_block buf_pool
in_range = omega arith

in_use : 0 < (dirtied.bufs 0).count
unfolding get_block lookup search_hash found_or_front take_found take_front rm_lru set_next set_prev
    unlink_hash unlink_from unlink_after clean_victim name_buf fetch rw_block end_block buf_pool
in_use = omega arith

-- One buffer, which is in use.
abbrev busy : Cache
busy = from (pool 1) (get_block io 1 5 normal (pool 1))

busy-IsValid : IsValid busy
busy-IsValid =
    let (i, c, eq, valid, held) =
      get_block-Acquired io 1 5 normal (pool 1) (pool-IsValid 0) (free_buffer 1 5 1) in
    subst IsValid (sym (ap (from (pool 1)) eq)) valid

all_in_use : get_block io 1 9 normal busy ≡ none
unfolding get_block lookup search_hash found_or_front take_found take_front rm_lru set_next set_prev
    unlink_hash unlink_from unlink_after clean_victim name_buf fetch rw_block end_block buf_pool
all_in_use = refl

hit : lookup 1 5 dirtied ≡ some 0
unfolding get_block lookup search_hash found_or_front take_found take_front rm_lru set_next set_prev
    unlink_hash unlink_from unlink_after clean_victim name_buf fetch rw_block end_block buf_pool
hit = refl

five_found : lookup 1 5 dirtied ≡ none → dirtied.front ≢ none
five_found miss = absurd (ground (arith, sym hit ∙ miss))

get_block-Returned_example :
    Returned io 1 5
      (pool 2)
      io-Works
      (pool-IsValid 1)
      (buf_pool-Coherent 2 4 disk)
      one_named
      (get_block io 1 5 normal (pool 2))
get_block-Returned_example =
    get_block-Returned io 1 5 (pool 2) io-Works (pool-IsValid 1) (buf_pool-Coherent 2 4 disk)
      one_named (free_buffer 1 5 2)

get_block-Acquired_example :
    Acquired io 1 5 normal dirtied dirtied-IsValid (get_block io 1 5 normal dirtied)
get_block-Acquired_example = get_block-Acquired io 1 5 normal dirtied dirtied-IsValid five_found

get_block_panic_example : (lookup 1 9 busy ≡ none) × (busy.bufs_in_use ≡ busy.size)
get_block_panic_example = get_block_panic io 1 9 normal busy busy-IsValid all_in_use

rm_lru_lem_example : Free (rm_lru 1 (pool 2)) (remove 1 (pool-IsValid 1).lru)
unfolding get_block lookup search_hash found_or_front take_found take_front rm_lru set_next set_prev
    unlink_hash unlink_from unlink_after clean_victim name_buf fetch rw_block end_block buf_pool
rm_lru_lem_example =
    rm_lru_lem (pool 2) (pool-IsValid 1).lru 1 (pool-IsValid 1).lru_valid.free
      ((pool-IsValid 1).lru_valid.counts 1)

put_block-IsValid_example : IsValid (put_block io false true (some 0) dirtied)
put_block-IsValid_example =
    put_block-IsValid io false true 0 dirtied dirtied-IsValid in_range in_use

put_block-Kept_example :
    let c' = put_block io false true (some 0) dirtied in SameContent dirtied c' × Coherent c'
put_block-Kept_example =
    put_block-Kept io false true 0 dirtied (λ dev block. refl) dirtied-IsValid dirtied-Coherent
      in_range

flushall_lem_example :
    let c' = flushall io 1 dirtied in
    IsValid c' × Flushed 1 dirtied c' × SameContent dirtied c' × Coherent c'
flushall_lem_example =
    flushall_lem io 1 dirtied io-Works.writes one_named in_range dirtied-IsValid dirtied-Coherent

invalidate_lem_example :
    let c' = invalidate 1 dirtied in
    IsValid c'
    × ((dev block : ℕ)
        → dev ≢ 0
        → content dev block c'
          ≡ (if dev == 1 then dirtied.disk dev block else content dev block dirtied))
invalidate_lem_example = invalidate_lem 1 dirtied dirtied-IsValid one_named

lookup-cached_example : lookup 1 5 dirtied ≡ cached dirtied.size 1 5 dirtied
lookup-cached_example = lookup-cached 1 5 dirtied dirtied-IsValid one_named

buf_pool-IsValid_example : IsValid (buf_pool 3 4 disk)
buf_pool-IsValid_example = buf_pool-IsValid 3 4 disk (omega arith) (omega arith)

abbrev numbers : ℕ → ℕ
numbers i = 20 - i

abbrev queue : List ℕ
queue = 3 ∷ 8 ∷ 1 ∷ 6 ∷ 2 ∷ []

sorted_queue : shell_sort numbers queue ≡ 8 ∷ 6 ∷ 3 ∷ 2 ∷ 1 ∷ []
unfolding shell_sort narrow widen sort_gap sink
sorted_queue = refl

shell_sort_lem_example :
    Rearranged queue (shell_sort numbers queue)
    × IsSorted numbers (length queue) (shell_sort numbers queue)
shell_sort_lem_example = shell_sort_lem numbers queue

one_user : (dirtied.bufs 0).count ≡ 1
unfolding get_block lookup search_hash found_or_front take_found take_front rm_lru set_next set_prev
    unlink_hash unlink_from unlink_after clean_victim name_buf fetch rw_block end_block buf_pool
one_user = refl

put_block-LruValid_example :
    let xs = dirtied-IsValid.lru in
    LruValid
      (put_block io true false (some 0) dirtied)
      (if (dirtied.bufs 0).dev == dev_ram || true then 0 ∷ xs else xs ++ 0 ∷ [])
put_block-LruValid_example =
    put_block-LruValid io true false 0 dirtied dirtied-IsValid.lru dirtied-IsValid.lru_valid
      in_range one_user
