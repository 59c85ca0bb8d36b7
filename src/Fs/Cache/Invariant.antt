-- ===== src/Fs/Cache/Invariant.antt =====
-- When a cache is well-formed: the chain of the free buffers, the hash chains and the names of the buffers.
use sdios.Prelude.{
  ℕ, ◌+◌, ◌≤◌, ◌<◌, ◌≡◌, ◌≢◌, sym, ap, ◌∙◌, false, ◌&&◌, List, arith, ◌==◌, ltb, has, Distinct,
  subst, length, ℕ_discrete, length-below, ltb→lt, ==_no,
}
use sdios.Fs.Cache.{Buf, Cache, no_dev}
use sdios.Fs.Cache.Chain.{Seg-frame, SameLinks}
use sdios.Fs.Cache.Lru.{Free}
use sdios.Fs.Cache.Hash.{HashChain, HashChain-frame}
use sdios.Fs.Cache.Get.{bucket}

-- The free buffers are xs, and they are those without users.
pub record LruValid (c : Cache) (xs : List ℕ) : Type 0 where
  pub free : Free c xs
  pub counts : (j : ℕ) → has j xs ≡ (ltb j c.size && (c.bufs j).count == 0)
  pub in_use : c.bufs_in_use + length xs ≡ c.size

-- The same while the buffer i is taken off the chain, and its users are not counted yet.
pub record LruBut (i : ℕ) (c : Cache) (xs : List ℕ) : Type 0 where
  pub free : Free c xs
  pub gone : has i xs ≡ false
  pub counts : (j : ℕ) → j ≢ i → has j xs ≡ (ltb j c.size && (c.bufs j).count == 0)
  pub in_use : c.bufs_in_use + length xs ≡ c.size

-- Each buffer is on the chain of its block number, and on no other.
pub record HashValid (c : Cache) (chain : ℕ → List ℕ) : Type 0 where
  pub positive : 0 < c.buckets
  pub hashed : (b : ℕ) → b < c.buckets → HashChain c.bufs (c.buf_hash b) (chain b)
  pub distinct : (b : ℕ) → b < c.buckets → Distinct (chain b)
  pub member :
      (b j : ℕ)
      → b < c.buckets
      → has j (chain b) ≡ (ltb j c.size && bucket c (c.bufs j).blocknr == b)

-- No two buffers hold one block of one device.
abbrev pub Unique : Cache → Type 0
Unique c =
    (i j : ℕ)
    → i < c.size
    → j < c.size
    → (c.bufs i).dev ≢ no_dev
    → (c.bufs i).dev ≡ (c.bufs j).dev
    → (c.bufs i).blocknr ≡ (c.bufs j).blocknr
    → i ≡ j

pub record IsValid (c : Cache) : Type 0 where
  pub lru : List ℕ
  pub lru_valid : LruValid c lru
  pub chain : ℕ → List ℕ
  pub hash_valid : HashValid c chain
  pub unique : Unique c

pub bucket-low : (c : Cache) (block : ℕ) → 0 < c.buckets → bucket c block < c.buckets
bucket-low c block h = grind arith

-- A chain is no longer than the pool.
pub length-chain :
    (c : Cache) (chain : ℕ → List ℕ) (b : ℕ)
    → HashValid c chain
    → b < c.buckets
    → length (chain b) ≤ c.size
length-chain c chain b v h =
    length-below c.size (chain b) (v.distinct b h)
      λ j m. ltb→lt j c.size (ground (arith, m, v.member b j h))

-- Nothing but the chain of the free buffers and the counts is changed.
pub record LruOnly (c c' : Cache) : Type 0 where
  pub bufs :
      (j : ℕ)
      → c'.bufs j ≡ record (c.bufs j) {
        next = (c'.bufs j).next;
        prev = (c'.bufs j).prev;
        count = (c'.bufs j).count;
      }
  pub others :
      c'
      ≡ record c { bufs = c'.bufs; front = c'.front; rear = c'.rear; bufs_in_use = c'.bufs_in_use }

pub LruOnly-trans : (a b c : Cache) → LruOnly a b → LruOnly b c → LruOnly a c
LruOnly-trans a b c p q = record {
  bufs = λ j.
      q.bufs j
      ∙ ap
          (λ (r : Buf). record r {
            next = (c.bufs j).next;
            prev = (c.bufs j).prev;
            count = (c.bufs j).count;
          })
          (p.bufs j);
  others =
      q.others
      ∙ ap
          (λ (r : Cache). record r {
            bufs = c.bufs;
            front = c.front;
            rear = c.rear;
            bufs_in_use = c.bufs_in_use;
          })
          p.others;
}

-- What the hash chains and the names of buffers rest on.
pub record SameNames (c c' : Cache) : Type 0 where
  pub size : c'.size ≡ c.size
  pub buckets : c'.buckets ≡ c.buckets
  pub heads : c'.buf_hash ≡ c.buf_hash
  pub hash : (j : ℕ) → (c'.bufs j).hash ≡ (c.bufs j).hash
  pub blocknr : (j : ℕ) → (c'.bufs j).blocknr ≡ (c.bufs j).blocknr

pub LruOnly-SameNames : (c c' : Cache) → LruOnly c c' → SameNames c c'
LruOnly-SameNames c c' k = record {
  size = ap (λ (r : Cache). r.size) k.others;
  buckets = ap (λ (r : Cache). r.buckets) k.others;
  heads = ap (λ (r : Cache). r.buf_hash) k.others;
  hash = λ j. ap (λ (r : Buf). r.hash) (k.bufs j);
  blocknr = λ j. ap (λ (r : Buf). r.blocknr) (k.bufs j);
}

pub SameNames-HashValid :
    (c c' : Cache) (chain : ℕ → List ℕ) → SameNames c c' → HashValid c chain → HashValid c' chain
SameNames-HashValid c c' chain s v = record {
  positive = subst (λ n. 0 < n) (sym s.buckets) v.positive;
  hashed = λ b h.
      subst (λ f. HashChain c'.bufs (f b) (chain b)) (sym s.heads)
        (HashChain-frame c.bufs c'.bufs (c.buf_hash b) (chain b) (λ j m. s.hash j)
          (v.hashed b (subst (λ n. b < n) s.buckets h)));
  distinct = λ b h. v.distinct b (subst (λ n. b < n) s.buckets h);
  member =
      λ b j h. rw (s.size, s.buckets, s.blocknr j) (v.member b j (subst (λ n. b < n) s.buckets h));
}

-- What the names of the buffers rest on, where no buffer gets another name than no_dev.
pub Unique-frame :
    (c c' : Cache)
    → c'.size ≡ c.size
    → ((j : ℕ) → (c'.bufs j).dev ≢ no_dev → (c'.bufs j).dev ≡ (c.bufs j).dev)
    → ((j : ℕ) → (c'.bufs j).blocknr ≡ (c.bufs j).blocknr)
    → Unique c
    → Unique c'
Unique-frame c c' size devs blocks u i j hi hj ne same_dev same_block =
    let ne' : (c'.bufs j).dev ≢ no_dev = λ e. ne (same_dev ∙ e) in
    u i j (subst (λ n. i < n) size hi) (subst (λ n. j < n) size hj) (λ e. ne (devs i ne ∙ e))
      (sym (devs i ne) ∙ same_dev ∙ devs j ne') (sym (blocks i) ∙ same_block ∙ blocks j)

-- The chain of the free buffers where links and counts are kept.
pub record SameLru (c c' : Cache) : Type 0 where
  pub size : c'.size ≡ c.size
  pub front : c'.front ≡ c.front
  pub rear : c'.rear ≡ c.rear
  pub in_use : c'.bufs_in_use ≡ c.bufs_in_use
  pub links : (j : ℕ) → SameLinks (c.bufs j) (c'.bufs j)

pub SameLru-Free : (c c' : Cache) (xs : List ℕ) → SameLru c c' → Free c xs → Free c' xs
SameLru-Free c c' xs s (seg, d) =
    (rw (s.front, s.rear) (Seg-frame c.bufs c'.bufs _ _ xs _ _ (λ j h. s.links j) seg), d)

pub SameLru-LruBut :
    (i : ℕ) (c c' : Cache) (xs : List ℕ)
    → SameLru c c'
    → ((j : ℕ) → j ≢ i → (c'.bufs j).count ≡ (c.bufs j).count)
    → LruBut i c xs
    → LruBut i c' xs
SameLru-LruBut i c c' xs s counts v = record {
  free = SameLru-Free c c' xs s v.free;
  gone = v.gone;
  counts = λ j ne. rw (s.size, counts j ne) (v.counts j ne);
  in_use = rw (s.in_use, s.size) v.in_use;
}

-- Once the buffer has a user the chain is right again.
pub LruBut-LruValid :
    (i : ℕ) (c : Cache) (xs : List ℕ) → LruBut i c xs → 0 < (c.bufs i).count → LruValid c xs
LruBut-LruValid i c xs v pos = record {
  free = v.free;
  counts = λ j. elim (ℕ_discrete j i) [
    | yes e ↦
        let out : has j xs ≡ false = ap (λ k. has k xs) e ∙ v.gone in
        let count : (c.bufs j).count ≡ (c.bufs i).count = ap (λ k. (c.bufs k).count) e in
        let busy : ((c.bufs j).count == 0) ≡ false =
          ==_no (c.bufs j).count 0 (λ z. omega (arith, pos, count, z)) in
        ground (arith, out, busy)
    | no ne ↦ v.counts j ne
  ];
  in_use = v.in_use;
}

pub LruOnly-Unique : (c c' : Cache) → LruOnly c c' → Unique c → Unique c'
LruOnly-Unique c c' k =
    let s = LruOnly-SameNames c c' k in
    Unique-frame c c' s.size (λ j ne. ap (λ (r : Buf). r.dev) (k.bufs j)) s.blocknr

pub LruOnly-IsValid :
    (c c' : Cache) (xs : List ℕ) → LruOnly c c' → IsValid c → LruValid c' xs → IsValid c'
LruOnly-IsValid c c' xs k v l = record {
  lru = xs;
  lru_valid = l;
  chain = v.chain;
  hash_valid = SameNames-HashValid c c' v.chain (LruOnly-SameNames c c' k) v.hash_valid;
  unique = LruOnly-Unique c c' k v.unique;
}
