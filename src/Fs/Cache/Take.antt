-- ===== src/Fs/Cache/Take.antt =====
-- rm_lru, and get_block when the block is in the cache, on a well-formed cache.
use sdios.Prelude.{
  ℕ, suc, ◌≡◌, refl, sym, ap, ◌∙◌, true, Option, none, some, List, arith, has, remove, ℕ_discrete,
  has-remove, has-remove_ne, length-remove_member, ==_no, ==_yes,
}
use sdios.Fs.Cache.{Buf, Cache, modify, set_next, set_prev, rm_lru}
use sdios.Fs.Cache.Links.{at-other, at_self}
use sdios.Fs.Cache.Lru.{rm_lru_lem}
use sdios.Fs.Cache.Invariant.{
  LruValid, LruBut, LruOnly, LruOnly-trans, SameLru, SameLru-LruBut, LruBut-LruValid,
}

-- A buffer is written to in its links and its count alone.
pub modify-LruOnly :
    (i : ℕ) (n p : Option ℕ) (k : ℕ) (c : Cache)
    → LruOnly c (modify i (λ b. record b { next = n; prev = p; count = k }) c)
modify-LruOnly i n p k c = record {
  bufs = λ j. elim (ℕ_discrete j i) [
    | yes e ↦
        rw (==_yes j i e) (ap (λ k'. record (c.bufs k') { next = n; prev = p; count = k }) (sym e))
    | no ne ↦ rw (==_no j i ne) refl
  ];
  others = refl;
}

pub set_next-LruOnly : (q p : Option ℕ) (c : Cache) → LruOnly c (set_next q p c)
unfolding set_next
set_next-LruOnly none p c = record { bufs = λ j. refl; others = refl }
set_next-LruOnly (some y) p c = modify-LruOnly y p (c.bufs y).prev (c.bufs y).count c

pub set_prev-LruOnly : (p q : Option ℕ) (c : Cache) → LruOnly c (set_prev p q c)
unfolding set_prev
set_prev-LruOnly none q c = record { bufs = λ j. refl; others = refl }
set_prev-LruOnly (some z) q c = modify-LruOnly z (c.bufs z).next q (c.bufs z).count c

pub rm_lru-LruOnly : (i : ℕ) (c : Cache) → LruOnly c (rm_lru i c)
unfolding rm_lru
rm_lru-LruOnly i c =
    let c0 = record c { bufs_in_use = suc c.bufs_in_use } in
    let c1 = set_next (c.bufs i).prev (c.bufs i).next c0 in
    let start : LruOnly c c0 = record { bufs = λ j. refl; others = refl } in
    LruOnly-trans c c1 (rm_lru i c)
      (LruOnly-trans c c0 c1 start (set_next-LruOnly (c.bufs i).prev (c.bufs i).next c0))
      (set_prev-LruOnly (c.bufs i).next (c.bufs i).prev c1)

-- Neither counts a user.
pub set_next-count :
    (q p : Option ℕ) (c : Cache) (j : ℕ) → ((set_next q p c).bufs j).count ≡ (c.bufs j).count
unfolding set_next
set_next-count none p c j = refl
set_next-count (some y) p c j = elim (ℕ_discrete j y) [
  | yes e ↦ rw (==_yes j y e) (ap (λ k. (c.bufs k).count) (sym e))
  | no ne ↦ rw (==_no j y ne) refl
]

pub set_prev-count :
    (p q : Option ℕ) (c : Cache) (j : ℕ) → ((set_prev p q c).bufs j).count ≡ (c.bufs j).count
unfolding set_prev
set_prev-count none q c j = refl
set_prev-count (some y) q c j = elim (ℕ_discrete j y) [
  | yes e ↦ rw (==_yes j y e) (ap (λ k. (c.bufs k).count) (sym e))
  | no ne ↦ rw (==_no j y ne) refl
]

pub set_next-in_use : (q p : Option ℕ) (c : Cache) → (set_next q p c).bufs_in_use ≡ c.bufs_in_use
unfolding set_next
set_next-in_use none p c = refl
set_next-in_use (some y) p c = refl

pub set_prev-in_use : (p q : Option ℕ) (c : Cache) → (set_prev p q c).bufs_in_use ≡ c.bufs_in_use
unfolding set_prev
set_prev-in_use none q c = refl
set_prev-in_use (some y) q c = refl

pub rm_lru-count : (i : ℕ) (c : Cache) (j : ℕ) → ((rm_lru i c).bufs j).count ≡ (c.bufs j).count
unfolding rm_lru
rm_lru-count i c j =
    let c0 = record c { bufs_in_use = suc c.bufs_in_use } in
    let c1 = set_next (c.bufs i).prev (c.bufs i).next c0 in
    set_prev-count (c.bufs i).next (c.bufs i).prev c1 j
    ∙ set_next-count (c.bufs i).prev (c.bufs i).next c0 j

rm_lru-in_use : (i : ℕ) (c : Cache) → (rm_lru i c).bufs_in_use ≡ suc c.bufs_in_use
unfolding rm_lru
rm_lru-in_use i c =
    let c0 = record c { bufs_in_use = suc c.bufs_in_use } in
    let c1 = set_next (c.bufs i).prev (c.bufs i).next c0 in
    set_prev-in_use (c.bufs i).next (c.bufs i).prev c1
    ∙ set_next-in_use (c.bufs i).prev (c.bufs i).next c0

-- A free buffer is taken off the chain.
pub rm_lru-LruBut :
    (c : Cache) (xs : List ℕ) (i : ℕ)
    → LruValid c xs
    → has i xs ≡ true
    → LruBut i (rm_lru i c) (remove i xs)
rm_lru-LruBut c xs i v h =
    let size : (rm_lru i c).size ≡ c.size =
      ap (λ (r : Cache). r.size) (rm_lru-LruOnly i c).others in
    record {
      free = rm_lru_lem c xs i v.free h;
      gone = has-remove i xs v.free.1;
      counts = λ j ne. rw (size, rm_lru-count i c j, has-remove_ne i j xs ne) (v.counts j);
      in_use = rw (size, rm_lru-in_use i c) (omega (arith, v.in_use, length-remove_member i xs h));
    }

-- One more user of a buffer whose chain is right but for it.
pub use-LruValid :
    (c : Cache) (xs : List ℕ) (i : ℕ)
    → LruBut i c xs
    → LruValid (modify i (λ b. record b { count = suc b.count }) c) xs
use-LruValid c xs i v =
    let r : Buf = record (c.bufs i) { count = suc (c.bufs i).count } in
    let c' = modify i (λ b. record b { count = suc b.count }) c in
    let kept : SameLru c c' = record {
      size = refl;
      front = refl;
      rear = refl;
      in_use = refl;
      links = λ j. elim (ℕ_discrete j i) [
        | yes e ↦
            rw (==_yes j i e) (ap (λ k. (c.bufs k).next) (sym e), ap (λ k. (c.bufs k).prev) (sym e))
        | no ne ↦ rw (==_no j i ne) (refl, refl)
      ];
    } in
    let counted : ((c'.bufs i).count) ≡ suc (c.bufs i).count =
      ap (λ (r : Buf). r.count) (at_self i r c.bufs) in
    LruBut-LruValid i c' xs
      (SameLru-LruBut i c c' xs kept (λ j ne. ap (λ (r : Buf). r.count) (at-other i r c.bufs j ne))
        v)
      (omega (arith, counted))
