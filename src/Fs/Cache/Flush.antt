-- ===== src/Fs/Cache/Flush.antt =====
-- rw_scattered for writing, and flushall, on a device that transfers a block at least at each call.
use sdios.Prelude.{
  ℕ, zero, suc, ◌+◌, ◌≤◌, ◌<◌, ◌≡◌, ◌≢◌, refl, sym, ap, ◌∙◌, Bool, true, false, not, ◌&&◌, ◌||◌,
  List, [], ◌∷◌, ◌++◌, arith, ◌==◌, ltb, if◌then◌else◌, min, length, take, drop, length-drop,
  take-append-drop, has, has-append, ℕ_discrete, ==_yes, ==_no, Bool-cases, inl, inr, lt→ltb,
}
use mathlib.Core.Path.{fun_ext}
use sdios.Fs.Cache.{Buf, Cache, Driver, at, modify, put_disk}
use sdios.Fs.Cache.Sort.{shell_sort}
use sdios.Fs.Cache.Sort.Count.{shell_sort-Rearranged, Rearranged-has}
use sdios.Fs.Cache.Scatter.{
  run_length, transfer_all, harvest_one, harvest, refuse, do_run, rw_loop, rw_scattered,
  dirty_below, flushall,
}

-- A write of some blocks transfers the first of them at least.
abbrev pub Progress : Driver → Type 0
Progress io = (dev first n : ℕ) → 0 < n → 0 < (io.vector true dev first n).0

abbrev pub cleaned : (ℕ → Buf) → List ℕ → ℕ → Buf
cleaned b q j = record (b j) { dirt = if has j q then false else (b j).dirt }

abbrev pub puts : ℕ → (ℕ → Buf) → List ℕ → (ℕ → ℕ → List ℕ) → ℕ → ℕ → List ℕ
puts dev b [] disk = disk
puts dev b (x ∷ xs) disk = puts dev b xs (put_disk dev (b x).blocknr (b x).contents disk)

-- All the buffers of a queue are on the disk and clean.
abbrev pub wrote : ℕ → List ℕ → Cache → Cache
wrote dev q c = record c { bufs = cleaned c.bufs q; disk = puts dev c.bufs q c.disk }

transfer_all_lem :
    (dev : ℕ) (q : List ℕ) (c : Cache)
    → transfer_all true dev q c ≡ record c { disk = puts dev c.bufs q c.disk }
unfolding transfer_all
transfer_all_lem dev [] c = refl
transfer_all_lem dev (x ∷ xs) c =
    transfer_all_lem dev xs
      (record c { disk = put_disk dev (c.bufs x).blocknr (c.bufs x).contents c.disk })

cleaned_first :
    (b : ℕ → Buf) (x : ℕ) (xs : List ℕ) (j : ℕ)
    → cleaned (at x (record (b x) { dirt = false }) b) xs j ≡ cleaned b (x ∷ xs) j
cleaned_first b x xs j = elim (ℕ_discrete j x) [
  | yes e ↦ elim (Bool-cases (has j xs)) [
    | inl h ↦
        rw (==_yes j x e, ==_yes x j (sym e), h) (ap (λ k. record (b k) { dirt = false }) (sym e))
    | inr h ↦
        rw (==_yes j x e, ==_yes x j (sym e), h) (ap (λ k. record (b k) { dirt = false }) (sym e))
  ]
  | no ne ↦ rw (==_no j x ne, ==_no x j (λ e. ne (sym e))) refl
]

harvest_lem :
    (io : Driver) (dev : ℕ) (q : List ℕ) (c : Cache)
    → harvest io true dev q c ≡ record c { bufs = cleaned c.bufs q }
unfolding harvest harvest_one
harvest_lem io dev [] c = refl
harvest_lem io dev (x ∷ xs) c =
    harvest_lem io dev xs (modify x (λ b. record b { dirt = false }) c)
    ∙ ap (λ f. record c { bufs = f }) (fun_ext (cleaned_first c.bufs x xs))

puts-append :
    (dev : ℕ) (b : ℕ → Buf) (xs ys : List ℕ) (d : ℕ → ℕ → List ℕ)
    → puts dev b (xs ++ ys) d ≡ puts dev b ys (puts dev b xs d)
puts-append dev b [] ys d = refl
puts-append dev b (x ∷ xs) ys d =
    puts-append dev b xs ys (put_disk dev (b x).blocknr (b x).contents d)

puts-cleaned :
    (dev : ℕ) (b : ℕ → Buf) (xs ys : List ℕ) (d : ℕ → ℕ → List ℕ)
    → puts dev (cleaned b xs) ys d ≡ puts dev b ys d
puts-cleaned dev b xs [] d = refl
puts-cleaned dev b xs (y ∷ ys) d =
    puts-cleaned dev b xs ys (put_disk dev (b y).blocknr (b y).contents d)

cleaned-append :
    (b : ℕ → Buf) (xs ys : List ℕ) (j : ℕ) → cleaned (cleaned b xs) ys j ≡ cleaned b (xs ++ ys) j
cleaned-append b xs ys j = elim (Bool-cases (has j xs)) [
  | inl h ↦ elim (Bool-cases (has j ys)) [
    | inl h' ↦ rw (has-append j xs ys, h, h') refl
    | inr h' ↦ rw (has-append j xs ys, h, h') refl
  ]
  | inr h ↦ rw (has-append j xs ys, h) refl
]

wrote-append :
    (dev : ℕ) (xs ys : List ℕ) (c : Cache) → wrote dev ys (wrote dev xs c) ≡ wrote dev (xs ++ ys) c
wrote-append dev xs ys c =
    ap
      (λ f. record c {
        bufs = f;
        disk = puts dev (cleaned c.bufs xs) ys (puts dev c.bufs xs c.disk);
      })
      (fun_ext (cleaned-append c.bufs xs ys))
    ∙ ap (λ d. record c { bufs = cleaned c.bufs (xs ++ ys); disk = d })
        (puts-cleaned dev c.bufs xs ys (puts dev c.bufs xs c.disk)
          ∙ sym (puts-append dev c.bufs xs ys c.disk))

refuse_none : (failed : Bool) (n : ℕ) (q : List ℕ) (c : Cache) → 0 < n → refuse failed n q c ≡ c
unfolding refuse
refuse_none true zero q c h = absurd (omega (arith, h))
refuse_none true (suc n) q c h = refl
refuse_none false n q c h = refl

run_length_grows : (c : Cache) (first j : ℕ) (q : List ℕ) → j ≤ run_length c first j q
unfolding run_length
run_length_grows c first j [] = omega arith
run_length_grows c first j (x ∷ xs) =
    elim (Bool-cases (ltb j (min c.size 64) && (c.bufs x).blocknr == first + j)) [
      | inl h ↦ rw h (omega (arith, run_length_grows c first (suc j) xs))
      | inr h ↦ rw h (omega arith)
    ]

-- The first buffer is always in its run.
run_length-positive :
    (c : Cache) (x : ℕ) (xs : List ℕ) → 0 < c.size → 0 < run_length c (c.bufs x).blocknr 0 (x ∷ xs)
unfolding run_length
run_length-positive c x xs h =
    let here : ltb 0 (min c.size 64) ≡ true = lt→ltb 0 (min c.size 64) (omega (arith, h)) in
    rw (here, ==_yes (c.bufs x).blocknr ((c.bufs x).blocknr + 0) (omega arith))
      (omega (arith, run_length_grows c (c.bufs x).blocknr 1 xs))

do_run_lem :
    (io : Driver) (dev x : ℕ) (xs : List ℕ) (c : Cache)
    → Progress io
    → 0 < c.size
    → let r = do_run io true dev (x ∷ xs) c in (0 < r.0) × (r.1 ≡ wrote dev (take r.0 (x ∷ xs)) c)
unfolding do_run
do_run_lem io dev x xs c progress h =
    let q = x ∷ xs in
    let first = (c.bufs x).blocknr in
    let j = run_length c first 0 q in
    let n = min (io.vector true dev first j).0 j in
    let pos : 0 < n =
      omega (
        arith,
        run_length-positive c x xs h,
        progress dev first j (run_length-positive c x xs h),
      ) in
    let done = take n q in
    (
      pos,
      refuse_none (not (io.vector true dev first j).1) n q
            (harvest io true dev done (transfer_all true dev done c)) pos
          ∙ harvest_lem io dev done (transfer_all true dev done c)
          ∙ ap (λ (r : Cache). record r { bufs = cleaned r.bufs done })
              (transfer_all_lem dev done c),
    )

-- The loop over the runs ends with all the buffers of the queue written.
pub rw_loop_lem :
    (fuel : ℕ) (io : Driver) (dev : ℕ) (q : List ℕ) (c : Cache)
    → Progress io
    → 0 < c.size
    → length q ≤ fuel
    → rw_loop fuel io true dev q c ≡ wrote dev q c
unfolding rw_loop
rw_loop_lem zero io dev [] c p h l = refl
rw_loop_lem zero io dev (x ∷ xs) c p h l = absurd (omega (arith, l))
rw_loop_lem (suc fuel) io dev [] c p h l = refl
rw_loop_lem (suc fuel) io dev (x ∷ xs) c p h l =
    let q = x ∷ xs in
    let r = do_run io true dev q c in
    let (pos, eq) = do_run_lem io dev x xs c p h in
    let few : length (drop r.0 q) ≤ fuel = omega (arith, length-drop r.0 q, pos, l) in
    let rest = rw_loop_lem fuel io dev (drop r.0 q) (wrote dev (take r.0 q) c) p h few in
    ap (λ t. if t then r.1 else rw_loop fuel io true dev (drop r.0 q) r.1)
      (==_no r.0 0 (λ e. omega (arith, pos, e)))
    ∙ ap (rw_loop fuel io true dev (drop r.0 q)) eq
    ∙ rest
    ∙ wrote-append dev (take r.0 q) (drop r.0 q) c
    ∙ ap (λ l. wrote dev l c) (take-append-drop r.0 q)

abbrev pub flush_queue : ℕ → Cache → List ℕ
flush_queue dev c = shell_sort (λ x. (c.bufs x).blocknr) (dirty_below c.size dev c)

pub flushall-wrote :
    (io : Driver) (dev : ℕ) (c : Cache)
    → Progress io
    → 0 < c.size
    → flushall io dev c ≡ wrote dev (flush_queue dev c) c
unfolding flushall rw_scattered
flushall-wrote io dev c p h =
    let q = dirty_below c.size dev c in
    let r = shell_sort-Rearranged (λ x. (c.bufs x).blocknr) q in
    rw_loop_lem (length q) io dev (flush_queue dev c) c p h (omega (arith, r.0))

or_true : (b : Bool) → (b || true) ≡ true
or_true true = refl
or_true false = refl

or_false : (b : Bool) → (b || false) ≡ b
or_false true = refl
or_false false = refl

and_none : (a b : Bool) → (a && false) ≡ (b && false)
and_none true true = refl
and_none true false = refl
and_none false true = refl
and_none false false = refl

pub ltb-suc : (j n : ℕ) → j ≢ n → ltb j (suc n) ≡ ltb j n
ltb-suc j n ne = ground arith

dirty_below-has :
    (n dev : ℕ) (c : Cache) (j : ℕ)
    → has j (dirty_below n dev c) ≡ (ltb j n && ((c.bufs j).dirt && (c.bufs j).dev == dev))
unfolding dirty_below
dirty_below-has zero dev c j = ground arith
dirty_below-has (suc n) dev c j =
    let rest = dirty_below n dev c in
    let wanted : ℕ → Bool = λ k. (c.bufs k).dirt && (c.bufs k).dev == dev in
    elim (Bool-cases (wanted n)) [
      | inl h ↦ elim (ℕ_discrete j n) [
        | yes e ↦
            let same : wanted j ≡ true = ap wanted e ∙ h in
            let low : ltb j (suc n) ≡ true = lt→ltb j (suc n) (omega (arith, e)) in
            let last : has j (n ∷ []) ≡ true = ground (arith, e) in
            rw (h, low, same) (has-append j rest (n ∷ []) ∙ rw last (or_true (has j rest)))
        | no ne ↦
            let last : has j (n ∷ []) ≡ false = ground (arith, ne) in
            let low : ltb j (suc n) ≡ ltb j n = ltb-suc j n ne in
            rw (h, low)
              (has-append j rest (n ∷ [])
                ∙ rw last (or_false (has j rest))
                ∙ dirty_below-has n dev c j)
      ]
      | inr h ↦ elim (ℕ_discrete j n) [
        | yes e ↦
            let same : wanted j ≡ false = ap wanted e ∙ h in
            rw (h, same) (dirty_below-has n dev c j ∙ rw same (and_none (ltb j n) (ltb j (suc n))))
        | no ne ↦ rw (h, ltb-suc j n ne) (dirty_below-has n dev c j)
      ]
    ]

-- The queue has the dirty buffers of the device.
pub flush_queue-has :
    (dev : ℕ) (c : Cache) (j : ℕ)
    → has j (flush_queue dev c) ≡ (ltb j c.size && ((c.bufs j).dirt && (c.bufs j).dev == dev))
flush_queue-has dev c j =
    Rearranged-has (dirty_below c.size dev c) (flush_queue dev c)
      (shell_sort-Rearranged (λ x. (c.bufs x).blocknr) (dirty_below c.size dev c)) j
    ∙ dirty_below-has c.size dev c j
