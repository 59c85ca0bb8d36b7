-- ===== src/Fs/Cache/Flushed.antt =====
-- flushall on a well-formed cache.
use sdios.Prelude.{
  ℕ, zero, suc, ◌<◌, ◌≡◌, ◌≢◌, refl, sym, ap, subst, Bool, true, false, not, ◌&&◌, List, [], ◌∷◌,
  ◌==◌, if◌then◌else◌, min, take, drop, get_or, Bool-cases, inl, inr, lt→ltb,
}
use sdios.Fs.Cache.{Cache, Driver, no_dev, modify, put_disk}
use sdios.Fs.Cache.Scatter.{
  run_length, transfer_all, harvest_one, harvest, refuse, do_run, rw_loop, rw_scattered, flushall,
}
use sdios.Fs.Cache.Invariant.{IsValid, Unique}
use sdios.Fs.Cache.Rw.{DataOnly, DataOnly-refl, DataOnly-trans, DataOnly-IsValid, modify-DataOnly}
use sdios.Fs.Cache.Flush.{Progress, wrote, flush_queue, flush_queue-has, flushall-wrote}
use sdios.Fs.Cache.Coherent.{Coherent, SameContent}
use sdios.Fs.Cache.Written.{wrote-SameContent, wrote-Coherent}

transfer_all-DataOnly : (dev : ℕ) (q : List ℕ) (c : Cache) → DataOnly c (transfer_all true dev q c)
unfolding transfer_all
transfer_all-DataOnly dev [] c = DataOnly-refl c
transfer_all-DataOnly dev (x ∷ xs) c =
    let c1 = record c { disk = put_disk dev (c.bufs x).blocknr (c.bufs x).contents c.disk } in
    DataOnly-trans c c1 (transfer_all true dev xs c1)
      (record { bufs = λ j. refl; dev = λ j ne. refl; others = refl })
      (transfer_all-DataOnly dev xs c1)

harvest-DataOnly :
    (io : Driver) (dev : ℕ) (q : List ℕ) (c : Cache) → DataOnly c (harvest io true dev q c)
unfolding harvest harvest_one
harvest-DataOnly io dev [] c = DataOnly-refl c
harvest-DataOnly io dev (x ∷ xs) c =
    let c1 = modify x (λ b. record b { dirt = false }) c in
    DataOnly-trans c c1 (harvest io true dev xs c1)
      (modify-DataOnly x (c.bufs x).contents (c.bufs x).dev false c (λ ne. refl))
      (harvest-DataOnly io dev xs c1)

refuse-DataOnly :
    (failed : Bool) (n : ℕ) (q : List ℕ) (c : Cache) → DataOnly c (refuse failed n q c)
unfolding refuse
refuse-DataOnly true zero [] c = DataOnly-refl c
refuse-DataOnly true zero (x ∷ xs) c =
    modify-DataOnly x (c.bufs x).contents no_dev (c.bufs x).dirt c (λ ne. absurd (ne refl))
refuse-DataOnly true (suc n) q c = DataOnly-refl c
refuse-DataOnly false n q c = DataOnly-refl c

do_run-DataOnly :
    (io : Driver) (dev : ℕ) (q : List ℕ) (c : Cache) → DataOnly c (do_run io true dev q c).1
unfolding do_run
do_run-DataOnly io dev q c =
    let first = (c.bufs (get_or q 0 0)).blocknr in
    let j = run_length c first 0 q in
    let answer = io.vector true dev first j in
    let n = min answer.0 j in
    let c1 = transfer_all true dev (take n q) c in
    let c2 = harvest io true dev (take n q) c1 in
    DataOnly-trans c c2 (refuse (not answer.1) n q c2)
      (DataOnly-trans c c1 c2 (transfer_all-DataOnly dev (take n q) c)
        (harvest-DataOnly io dev (take n q) c1))
      (refuse-DataOnly (not answer.1) n q c2)

rw_loop-DataOnly :
    (fuel : ℕ) (io : Driver) (dev : ℕ) (q : List ℕ) (c : Cache)
    → DataOnly c (rw_loop fuel io true dev q c)
unfolding rw_loop
rw_loop-DataOnly zero io dev q c = DataOnly-refl c
rw_loop-DataOnly (suc fuel) io dev [] c = DataOnly-refl c
rw_loop-DataOnly (suc fuel) io dev (x ∷ xs) c =
    let r = do_run io true dev (x ∷ xs) c in
    let rest = rw_loop fuel io true dev (drop r.0 (x ∷ xs)) r.1 in
    let first = do_run-DataOnly io dev (x ∷ xs) c in
    elim (Bool-cases (r.0 == 0)) [
      | inl e ↦ subst (DataOnly c) (sym (ap (λ t. if t then r.1 else rest) e)) first
      | inr e ↦
          subst (DataOnly c) (sym (ap (λ t. if t then r.1 else rest) e))
            (DataOnly-trans c r.1 rest first (rw_loop-DataOnly fuel io dev (drop r.0 (x ∷ xs)) r.1))
    ]

-- Whatever the device answers.
pub flushall-DataOnly : (io : Driver) (dev : ℕ) (c : Cache) → DataOnly c (flushall io dev c)
unfolding flushall rw_scattered
flushall-DataOnly io dev c = rw_loop-DataOnly _ io dev (flush_queue dev c) c

-- The buffers of the device are clean; the others are as they were.
abbrev pub Flushed : ℕ → Cache → Cache → Type 0
Flushed dev c c' =
    (j : ℕ)
    → j < c.size
    → ((c'.bufs j).dev ≡ (c.bufs j).dev)
      × ((c'.bufs j).contents ≡ (c.bufs j).contents)
      × ((c'.bufs j).dirt ≡ ((c.bufs j).dirt && not ((c.bufs j).dev == dev)))

wrote-Flushed : (dev : ℕ) (c : Cache) → Flushed dev c (wrote dev (flush_queue dev c) c)
wrote-Flushed dev c j l = (
  refl,
  refl,
  rw (flush_queue-has dev c j, lt→ltb j c.size l) (flag (c.bufs j).dirt ((c.bufs j).dev == dev)),
)
  where
    flag : (a b : Bool) → (if a && b then false else a) ≡ (a && not b)
    flag true true = refl
    flag true false = refl
    flag false b = refl

-- The same while a buffer is on neither chain.
pub flushall_view :
    (io : Driver) (dev : ℕ) (c : Cache)
    → Progress io
    → 0 < c.size
    → Unique c
    → Coherent c
    → let c' = flushall io dev c in Flushed dev c c' × SameContent c c' × Coherent c'
flushall_view io dev c p h u co =
    let q = flush_queue dev c in
    let queue = flush_queue-has dev c in
    let e = sym (flushall-wrote io dev c p h) in
    (
      subst (Flushed dev c) e (wrote-Flushed dev c),
      subst (SameContent c) e (wrote-SameContent dev q c queue u),
      subst Coherent e (wrote-Coherent dev q c queue u co),
    )

-- On a device other than NO_DEV that transfers at least one block at each call, in a well-formed cache of a pool that is
-- not empty and whose clean buffers hold what the disk holds: flushall clears the dirty flag of each
-- buffer of the device and of no other, keeps names and contents of the buffers, changes no block for
-- a client, and leaves the cache well-formed and clean buffers with what the disk holds.
pub flushall_lem :
    (io : Driver) (dev : ℕ) (c : Cache)
    → Progress io
    → dev ≢ no_dev
    → 0 < c.size
    → IsValid c
    → Coherent c
    → let c' = flushall io dev c in IsValid c' × Flushed dev c c' × SameContent c c' × Coherent c'
flushall_lem io dev c p named h v co =
    let (flushed, same, co') = flushall_view io dev c p h v.unique co in
    (DataOnly-IsValid c (flushall io dev c) (flushall-DataOnly io dev c) v, flushed, same, co')
