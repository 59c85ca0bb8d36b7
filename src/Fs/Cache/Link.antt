-- ===== src/Fs/Cache/Link.antt =====
-- put_front and put_rear, the two ways of put_block to link a buffer, on a cache where the buffer has
-- just lost its last user.
use sdios.Prelude.{
  ℕ, suc, ◌+◌, ◌<◌, ◌≡◌, ◌≢◌, refl, sym, ap, ◌∙◌, true, false, ◌&&◌, ◌||◌, Option, none, some, List,
  [], ◌∷◌, ◌++◌, arith, ◌==◌, ltb, has, length, ℕ_discrete, has-append, length-append, ==_yes,
  ==_no, lt→ltb,
}
use sdios.Fs.Cache.{Cache, modify, set_next, set_prev, put_front, put_rear}
use sdios.Fs.Cache.Lru.{Free, put_front_lem, put_rear_lem}
use sdios.Fs.Cache.Take.{
  modify-LruOnly, set_next-LruOnly, set_prev-LruOnly, set_next-count, set_prev-count,
  set_next-in_use, set_prev-in_use,
}
use sdios.Fs.Cache.Invariant.{LruValid, LruOnly, LruOnly-trans}

-- A buffer without users that is not on the chain yet.
pub record LruLost (i : ℕ) (c : Cache) (xs : List ℕ) : Type 0 where
  pub free : Free c xs
  pub gone : has i xs ≡ false
  pub low : i < c.size
  pub unused : (c.bufs i).count ≡ 0
  pub counts : (j : ℕ) → j ≢ i → has j xs ≡ (ltb j c.size && (c.bufs j).count == 0)
  pub in_use : suc (c.bufs_in_use + length xs) ≡ c.size

-- What a step that links the buffer changes.
pub record Relinked (c c' : Cache) : Type 0 where
  pub only : LruOnly c c'
  pub count : (j : ℕ) → (c'.bufs j).count ≡ (c.bufs j).count
  pub in_use : c'.bufs_in_use ≡ c.bufs_in_use

modify_links-count :
    (i : ℕ) (n p : Option ℕ) (c : Cache) (j : ℕ)
    → ((modify i (λ b. record b { next = n; prev = p }) c).bufs j).count ≡ (c.bufs j).count
modify_links-count i n p c j = elim (ℕ_discrete j i) [
  | yes e ↦ rw (==_yes j i e) (ap (λ k. (c.bufs k).count) (sym e))
  | no ne ↦ rw (==_no j i ne) refl
]

pub put_front-Relinked : (i : ℕ) (c : Cache) → Relinked c (put_front i c)
unfolding put_front
put_front-Relinked i c =
    let c1 = modify i (λ b. record b { prev = none; next = c.front }) c in
    let c2 = set_prev c.front (some i) c1 in
    let last : LruOnly c2 (put_front i c) = record { bufs = λ j. refl; others = refl } in
    record {
      only =
          LruOnly-trans c c2 (put_front i c)
            (LruOnly-trans c c1 c2 (modify-LruOnly i c.front none (c.bufs i).count c)
              (set_prev-LruOnly c.front (some i) c1))
            last;
      count = λ j. set_prev-count c.front (some i) c1 j ∙ modify_links-count i c.front none c j;
      in_use = set_prev-in_use c.front (some i) c1;
    }

pub put_rear-Relinked : (i : ℕ) (c : Cache) → Relinked c (put_rear i c)
unfolding put_rear
put_rear-Relinked i c =
    let c1 = modify i (λ b. record b { prev = c.rear; next = none }) c in
    let c2 = set_next c.rear (some i) c1 in
    let last : LruOnly c2 (put_rear i c) = record { bufs = λ j. refl; others = refl } in
    record {
      only =
          LruOnly-trans c c2 (put_rear i c)
            (LruOnly-trans c c1 c2 (modify-LruOnly i none c.rear (c.bufs i).count c)
              (set_next-LruOnly c.rear (some i) c1))
            last;
      count = λ j. set_next-count c.rear (some i) c1 j ∙ modify_links-count i none c.rear c j;
      in_use = set_next-in_use c.rear (some i) c1;
    }

-- A list with the buffer i and those of xs is the list of the free buffers.
relinked :
    (i : ℕ) (c c' : Cache) (xs ys : List ℕ)
    → LruLost i c xs
    → Relinked c c'
    → Free c' ys
    → ((j : ℕ) → has j ys ≡ (i == j || has j xs))
    → length ys ≡ suc (length xs)
    → LruValid c' ys
relinked i c c' xs ys v r free members len =
    let size : c'.size ≡ c.size = ap (λ (r : Cache). r.size) r.only.others in
    record {
      free = free;
      counts = λ j. members j ∙ elim (ℕ_discrete j i) [
        | yes e ↦
            let low : ltb j c.size ≡ true = lt→ltb j c.size (omega (arith, e, v.low)) in
            let unused : ((c.bufs j).count == 0) ≡ true =
              ==_yes _ 0 (ap (λ k. (c.bufs k).count) e ∙ v.unused) in
            rw (==_yes i j (sym e), size, r.count j, low, unused) refl
        | no ne ↦ rw (==_no i j (λ e. ne (sym e)), size, r.count j) (v.counts j ne)
      ];
      in_use = rw (size, r.in_use, len) (omega (arith, v.in_use));
    }

pub put_front-LruValid :
    (i : ℕ) (c : Cache) (xs : List ℕ) → LruLost i c xs → LruValid (put_front i c) (i ∷ xs)
put_front-LruValid i c xs v =
    relinked i c (put_front i c) xs (i ∷ xs) v (put_front-Relinked i c)
      (put_front_lem c xs i v.free v.gone) (λ j. refl) refl

pub put_rear-LruValid :
    (i : ℕ) (c : Cache) (xs : List ℕ) → LruLost i c xs → LruValid (put_rear i c) (xs ++ i ∷ [])
put_rear-LruValid i c xs v =
    relinked i c (put_rear i c) xs (xs ++ i ∷ []) v (put_rear-Relinked i c)
      (put_rear_lem c xs i v.free v.gone) (λ j. has-append j xs (i ∷ []) ∙ ground arith)
      (length-append xs (i ∷ []) ∙ omega arith)
