-- ===== src/Fs/Cache/Put.antt =====
-- put_block on a well-formed cache, whatever the device answers.
use sdios.Prelude.{
  ℕ, ◌-◌, ◌<◌, ◌≡◌, ◌≢◌, refl, sym, ap, ◌∙◌, Bool, true, false, not, ◌&&◌, ◌||◌, some, List, [],
  ◌∷◌, ◌++◌, arith, ◌==◌, if◌then◌else◌, has, ℕ_discrete, subst, length-below, ltb→lt, ==_no,
  ==_yes,
}
use sdios.Fs.Cache.{
  Buf, Cache, Driver, modify, put_front, put_rear, rw_block, free_buf, put_block, dev_ram, no_dev,
}
use sdios.Fs.Cache.Links.{at-other, at_self}
use sdios.Fs.Cache.Link.{
  LruLost, put_front-LruValid, put_rear-LruValid, put_front-Relinked, put_rear-Relinked,
}
use sdios.Fs.Cache.Rw.{DataOnly-IsValid, DataOnly-LruValid, rw_block-DataOnly}
use sdios.Fs.Cache.Take.{modify-LruOnly}
use sdios.Fs.Cache.Invariant.{
  IsValid, LruValid, LruOnly, LruOnly-trans, LruOnly-IsValid, SameLru, SameLru-Free,
}

-- A buffer with one user less.
abbrev pub less : ℕ → Cache → Cache
less i c = modify i (λ b. record b { count = b.count - 1 }) c

less-SameLru : (i : ℕ) (c : Cache) → SameLru c (less i c)
less-SameLru i c = record {
  size = refl;
  front = refl;
  rear = refl;
  in_use = refl;
  links = λ j. elim (ℕ_discrete j i) [
    | yes e ↦
        rw (==_yes j i e) (ap (λ k. (c.bufs k).next) (sym e), ap (λ k. (c.bufs k).prev) (sym e))
    | no ne ↦ rw (==_no j i ne) (refl, refl)
  ];
}

abbrev pub lost : ℕ → Cache → Cache
lost i c = record (less i c) { bufs_in_use = c.bufs_in_use - 1 }

pub less-LruOnly : (i : ℕ) (c : Cache) → LruOnly c (less i c)
less-LruOnly i c = modify-LruOnly i (c.bufs i).next (c.bufs i).prev ((c.bufs i).count - 1) c

pub lost-LruOnly : (i : ℕ) (c : Cache) → LruOnly c (lost i c)
lost-LruOnly i c =
    LruOnly-trans c (less i c) (lost i c) (less-LruOnly i c)
      (record { bufs = λ j. refl; others = refl })

less-count : (i : ℕ) (c : Cache) (j : ℕ) → j ≢ i → ((less i c).bufs j).count ≡ (c.bufs j).count
less-count i c j ne =
    ap (λ (r : Buf). r.count)
      (at-other i (record (c.bufs i) { count = (c.bufs i).count - 1 }) c.bufs j ne)

less-own : (i : ℕ) (c : Cache) → ((less i c).bufs i).count ≡ (c.bufs i).count - 1
less-own i c =
    ap (λ (r : Buf). r.count)
      (at_self i (record (c.bufs i) { count = (c.bufs i).count - 1 }) c.bufs)

-- A buffer in use is not on the chain, so some buffer is counted as in use.
in_use-positive :
    (c : Cache) (xs : List ℕ) (i : ℕ)
    → LruValid c xs
    → has i xs ≡ false
    → i < c.size
    → 0 < c.bufs_in_use
in_use-positive c xs i v gone l =
    let bound =
      length-below c.size (i ∷ xs) (gone, v.free.1)
        λ j h. elim (ℕ_discrete j i) [
          | yes e ↦ omega (arith, e, l)
          | no ne ↦ ltb→lt j c.size (ground (arith, h, v.counts j, ne))
        ] in
    omega (arith, bound, v.in_use)

lost-LruLost :
    (c : Cache) (xs : List ℕ) (i : ℕ)
    → LruValid c xs
    → i < c.size
    → (c.bufs i).count ≡ 1
    → LruLost i (lost i c) xs
lost-LruLost c xs i v l one =
    let busy : ((c.bufs i).count == 0) ≡ false = ==_no _ 0 (λ z. omega (arith, z, one)) in
    let gone : has i xs ≡ false = ground (arith, v.counts i, busy) in
    record {
      free = SameLru-Free c (less i c) xs (less-SameLru i c) v.free;
      gone = gone;
      low = l;
      unused = less-own i c ∙ omega (arith, one);
      counts = λ j ne. rw (less-count i c j ne) (v.counts j);
      in_use = omega (arith, v.in_use, in_use-positive c xs i v gone l);
    }

-- The buffer is linked at one of the two ends, and may be written to the disk.
link-IsValid :
    (c : Cache) (xs : List ℕ) (i : ℕ) (at_front : Bool)
    → (c0 : Cache) → LruOnly c c0
    → IsValid c
    → LruLost i c0 xs
    → IsValid (if at_front then put_front i c0 else put_rear i c0)
link-IsValid c xs i true c0 k v lost =
    LruOnly-IsValid c (put_front i c0) (i ∷ xs)
      (LruOnly-trans c c0 (put_front i c0) k (put_front-Relinked i c0).only) v
      (put_front-LruValid i c0 xs lost)
link-IsValid c xs i false c0 k v lost =
    LruOnly-IsValid c (put_rear i c0) (xs ++ i ∷ [])
      (LruOnly-trans c c0 (put_rear i c0) k (put_rear-Relinked i c0).only) v
      (put_rear-LruValid i c0 xs lost)

if-IsValid : (b : Bool) (c c' : Cache) → IsValid c → IsValid c' → IsValid (if b then c else c')
if-IsValid true c c' v v' = v
if-IsValid false c c' v v' = v'

-- In a well-formed cache, whatever the device answers and whatever the block type: after put_block on a
-- buffer that has a user the cache is well-formed.
pub put_block-IsValid :
    (io : Driver) (one_shot write_immed : Bool) (i : ℕ) (c : Cache)
    → IsValid c
    → i < c.size
    → 0 < (c.bufs i).count
    → IsValid (put_block io one_shot write_immed (some i) c)
unfolding put_block free_buf
put_block-IsValid io one_shot write_immed i c v l pos = elim (ℕ_discrete (c.bufs i).count 1) [
  | yes one ↦
      let c0 = lost i c in
      let gone = lost-LruLost c v.lru i v.lru_valid l one in
      let at_front = (c0.bufs i).dev == dev_ram || one_shot in
      let linked = (if at_front then put_front i c0 else put_rear i c0) in
      let valid = link-IsValid c v.lru i at_front c0 (lost-LruOnly i c) v gone in
      subst IsValid
        (sym (
          ap (λ t. if t then free_buf io one_shot write_immed i c0 else less i c)
            (==_yes (c.bufs i).count 1 one)))
        (if-IsValid (write_immed && (c0.bufs i).dirt && not ((c0.bufs i).dev == no_dev))
          (rw_block io true i linked) linked
          (DataOnly-IsValid linked (rw_block io true i linked) (rw_block-DataOnly io true i linked)
            valid)
          valid)
  | no more ↦
      let c1 = less i c in
      let s = less-SameLru i c in
      subst IsValid
        (sym (
          ap (λ t. if t then free_buf io one_shot write_immed i (lost i c) else c1)
            (==_no (c.bufs i).count 1 more)))
        (LruOnly-IsValid c c1 v.lru (less-LruOnly i c) v (record {
          free = SameLru-Free c c1 v.lru s v.lru_valid.free;
          counts = λ j. elim (ℕ_discrete j i) [
            | yes e ↦
                let busy : ((c1.bufs j).count == 0) ≡ false = ==_no _ 0 λ z. omega (
                  arith,
                  pos,
                  more,
                  sym (less-own i c) ∙ ap (λ k. (c1.bufs k).count) (sym e) ∙ z,
                ) in
                let was : ((c.bufs j).count == 0) ≡ false =
                  ==_no _ 0 λ z. omega (arith, pos, ap (λ k. (c.bufs k).count) (sym e) ∙ z) in
                v.lru_valid.counts j ∙ rw (was, busy) refl
            | no ne ↦ rw (less-count i c j ne) (v.lru_valid.counts j)
          ];
          in_use = v.lru_valid.in_use;
        }))
]

linked-LruValid :
    (b : Bool) (i : ℕ) (c : Cache) (xs : List ℕ)
    → LruLost i c xs
    → LruValid (if b then put_front i c else put_rear i c) (if b then i ∷ xs else xs ++ i ∷ [])
linked-LruValid true i c xs v = put_front-LruValid i c xs v
linked-LruValid false i c xs v = put_rear-LruValid i c xs v

if-LruValid :
    (b : Bool) (c c' : Cache) (xs : List ℕ)
    → LruValid c xs
    → LruValid c' xs
    → LruValid (if b then c else c') xs
if-LruValid true c c' xs v v' = v
if-LruValid false c c' xs v v' = v'

-- Where the free buffers are the list xs, from the one to be taken first to the one to be taken last, and
-- a buffer of the pool has one user: put_block on it, whatever the device answers, puts it at the start
-- of the list if it belongs to the RAM disk or is not expected to be needed soon, and at the end of the
-- list otherwise.
pub put_block-LruValid :
    (io : Driver) (one_shot write_immed : Bool) (i : ℕ) (c : Cache) (xs : List ℕ)
    → LruValid c xs
    → i < c.size
    → (c.bufs i).count ≡ 1
    → LruValid
        (put_block io one_shot write_immed (some i) c)
        (if (c.bufs i).dev == dev_ram || one_shot then i ∷ xs else xs ++ i ∷ [])
unfolding put_block free_buf
put_block-LruValid io one_shot write_immed i c xs v l one =
    let c0 = lost i c in
    let at_front = (c0.bufs i).dev == dev_ram || one_shot in
    let order : Bool → List ℕ = λ b. if b then i ∷ xs else xs ++ i ∷ [] in
    let linked = (if at_front then put_front i c0 else put_rear i c0) in
    let valid = linked-LruValid at_front i c0 xs (lost-LruLost c xs i v l one) in
    let written =
      DataOnly-LruValid linked (rw_block io true i linked) (order at_front)
        (rw_block-DataOnly io true i linked) valid in
    let name : (c0.bufs i).dev ≡ (c.bufs i).dev =
      ap (λ (r : Buf). r.dev)
        (at_self i (record (c.bufs i) { count = (c.bufs i).count - 1 }) c.bufs) in
    subst (λ k. LruValid k (order ((c.bufs i).dev == dev_ram || one_shot)))
      (sym (
        ap (λ t. if t then free_buf io one_shot write_immed i c0 else less i c)
          (==_yes (c.bufs i).count 1 one)))
      (subst
        (λ d. LruValid (free_buf io one_shot write_immed i c0) (order (d == dev_ram || one_shot)))
        name
        (if-LruValid (write_immed && (c0.bufs i).dirt && not ((c0.bufs i).dev == no_dev))
          (rw_block io true i linked) linked (order at_front) written valid))
