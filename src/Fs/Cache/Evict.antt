-- ===== src/Fs/Cache/Evict.antt =====
-- get_block when the block is not in the cache: the least recently used buffer is taken for it.
use sdios.Prelude.{
  ℕ, suc, ◌%◌, ◌<◌, ◌≡◌, ◌≢◌, refl, sym, ap, ◌∙◌, subst, Bool, true, false, none, some, List, arith,
  ◌==◌, if◌then◌else◌, has, ℕ_discrete, ==_yes, ==_no, ltb→lt, ◌>>=◌,
}
use sdios.Fs.Cache.{Buf, Cache, Driver, Search, normal, no_read, prefetch, no_dev, rm_lru}
use sdios.Fs.Cache.Links.{at-other, at_self, Seg-first}
use sdios.Fs.Cache.Take.{rm_lru-LruOnly, rm_lru-LruBut}
use sdios.Fs.Cache.Scatter.{flushall}
use sdios.Fs.Cache.Get.{unlink_hash, clean_victim, name_buf, fetch, take_front}
use sdios.Fs.Cache.Unlink.{HashOnly}
use sdios.Fs.Cache.Rehash.{HashBut, SameNames-HashBut, unlink_hash-HashBut}
use sdios.Fs.Cache.Rename.{name_buf-HashValid}
use sdios.Fs.Cache.Invariant.{
  IsValid, LruValid, LruBut, LruOnly-SameNames, SameNames-HashValid, Unique, SameLru,
  SameLru-LruBut, LruBut-LruValid,
}
use sdios.Fs.Cache.Rw.{
  DataOnly, DataOnly-refl, DataOnly-SameNames, DataOnly-SameLru, DataOnly-count, DataOnly-Unique,
  rw_block-DataOnly, modify-DataOnly,
}
use sdios.Fs.Cache.Content.{Names}
use sdios.Fs.Cache.Coherent.{
  Linking, Linking-trans, LruOnly-Linking, HashOnly-Linking, Linking-Unique,
}
use sdios.Fs.Cache.Flushed.{flushall-DataOnly}

-- The buffer i is on neither chain, and has no user.
pub record Detached (i : ℕ) (c : Cache) : Type 0 where
  pub low : i < c.size
  pub lru : List ℕ
  pub lru_but : LruBut i c lru
  pub chain : ℕ → List ℕ
  pub hash_but : HashBut i c chain
  pub unique : Unique c

HashOnly-SameLru : (c c' : Cache) → HashOnly c c' → SameLru c c'
HashOnly-SameLru c c' k = record {
  size = ap (λ (r : Cache). r.size) k.others;
  front = ap (λ (r : Cache). r.front) k.others;
  rear = ap (λ (r : Cache). r.rear) k.others;
  in_use = ap (λ (r : Cache). r.bufs_in_use) k.others;
  links = λ j. (ap (λ (r : Buf). r.next) (k.bufs j), ap (λ (r : Buf). r.prev) (k.bufs j));
}

pub front-has :
    (c : Cache) (xs : List ℕ) (i : ℕ) → LruValid c xs → c.front ≡ some i → has i xs ≡ true
front-has c xs i v e = Seg-first c.bufs none c.front xs c.rear i v.free.0 e

pub free-low : (c : Cache) (xs : List ℕ) (i : ℕ) → LruValid c xs → has i xs ≡ true → i < c.size
free-low c xs i v h = ltb→lt i c.size (ground (arith, v.counts i, h))

-- The first free buffer can be taken off both chains.
pub detach :
    (c : Cache) (i : ℕ)
    → IsValid c
    → c.front ≡ some i
    → (c' : Cache) × (unlink_hash i (rm_lru i c) ≡ some c') × Linking c c' × Detached i c'
detach c i v e =
    let member = front-has c v.lru i v.lru_valid e in
    let c1 = rm_lru i c in
    let only = rm_lru-LruOnly i c in
    let names = LruOnly-SameNames c c1 only in
    let low = subst (λ n. i < n) (sym names.size) (free-low c v.lru i v.lru_valid member) in
    let (c', eq, hash_only, hash_but) =
      unlink_hash-HashBut c1 v.chain i (SameNames-HashValid c c1 v.chain names v.hash_valid) low in
    let same = HashOnly-SameLru c1 c' hash_only in
    let link =
      Linking-trans c c1 c' (LruOnly-Linking c c1 only) (HashOnly-Linking c1 c' hash_only) in
    (
      c',
      eq,
      link,
      record {
        low = subst (λ n. i < n) (sym same.size) low;
        lru = _;
        lru_but =
            SameLru-LruBut i c1 c' _ same (λ j ne. ap (λ (r : Buf). r.count) (hash_only.bufs j))
              (rm_lru-LruBut c v.lru i v.lru_valid member);
        chain = _;
        hash_but = hash_but;
        unique = Linking-Unique c c' link v.unique;
      },
    )

pub DataOnly-Detached : (i : ℕ) (c c' : Cache) → DataOnly c c' → Detached i c → Detached i c'
DataOnly-Detached i c c' k v =
    let same = DataOnly-SameLru c c' k in
    record {
      low = subst (λ n. i < n) (sym same.size) v.low;
      lru = v.lru;
      lru_but = SameLru-LruBut i c c' v.lru same (λ j ne. DataOnly-count c c' k j) v.lru_but;
      chain = v.chain;
      hash_but = SameNames-HashBut i c c' v.chain (DataOnly-SameNames c c' k) v.hash_but;
      unique = DataOnly-Unique c c' k v.unique;
    }

DataOnly-if :
    (b : Bool) (c x y : Cache) → DataOnly c x → DataOnly c y → DataOnly c (if b then x else y)
DataOnly-if true c x y p q = p
DataOnly-if false c x y p q = q

pub clean_victim-DataOnly : (io : Driver) (i : ℕ) (c : Cache) → DataOnly c (clean_victim io i c)
unfolding clean_victim
clean_victim-DataOnly io i c =
    let flushed = flushall io (c.bufs i).dev c in
    DataOnly-if ((c.bufs i).dev == no_dev) c c (if (c.bufs i).dirt then flushed else c)
      (DataOnly-refl c)
      (DataOnly-if (c.bufs i).dirt c flushed c (flushall-DataOnly io (c.bufs i).dev c)
        (DataOnly-refl c))

-- No buffer but i may have the name that i gets.
abbrev pub Absent : ℕ → ℕ → ℕ → Cache → Type 0
Absent dev block i c = (j : ℕ) → j ≢ i → ¬ Names c j dev block

module _ (dev block i : ℕ) (c : Cache) where
  abbrev named : Buf
  named = record (c.bufs i) {
    dev = dev;
    blocknr = block;
    count = suc (c.bufs i).count;
    hash = c.buf_hash (block % c.buckets);
  }

  pub name_buf-own :
      let r = (name_buf dev block i c).bufs i in
      (r.dev ≡ dev)
      × (r.blocknr ≡ block)
      × (r.count ≡ suc (c.bufs i).count)
      × (r.contents ≡ (c.bufs i).contents)
  unfolding name_buf
  name_buf-own =
      let e = at_self i named c.bufs in
      (
        ap (λ (r : Buf). r.dev) e,
        ap (λ (r : Buf). r.blocknr) e,
        ap (λ (r : Buf). r.count) e,
        ap (λ (r : Buf). r.contents) e,
      )

  pub name_buf-other : (j : ℕ) → j ≢ i → (name_buf dev block i c).bufs j ≡ c.bufs j
  unfolding name_buf
  name_buf-other = at-other i named c.bufs

  pub name_buf-SameLru : SameLru c (name_buf dev block i c)
  unfolding name_buf
  name_buf-SameLru = record {
    size = refl;
    front = refl;
    rear = refl;
    in_use = refl;
    links = λ j. elim (ℕ_discrete j i) [
      | yes e ↦
          rw (==_yes j i e) (ap (λ k. (c.bufs k).next) (sym e), ap (λ k. (c.bufs k).prev) (sym e))
      | no ne ↦ rw (==_no j i ne) (refl, refl)
    ];
  }

  pub name_buf-Unique :
      Unique c → (dev ≢ no_dev → Absent dev block i c) → Unique (name_buf dev block i c)
  name_buf-Unique u absent =
      let c' = name_buf dev block i c in
      let size = name_buf-SameLru.size in
      let low : (j : ℕ) → j < c'.size → j < c.size = λ j h. subst (λ n. j < n) size h in
      let (own_dev, own_block, own_count, own_contents) = name_buf-own in
      let clash : (j k : ℕ)
          → k < c'.size
          → j ≡ i
          → k ≢ i
          → (c'.bufs j).dev ≢ no_dev
          → (c'.bufs j).dev ≡ (c'.bufs k).dev
          → ¬ ((c'.bufs j).blocknr ≡ (c'.bufs k).blocknr) =
        λ j k hk e ne named d b.
          let kept = name_buf-other k ne in
          let name : (c'.bufs j).dev ≡ dev = ap (λ m. (c'.bufs m).dev) e ∙ own_dev in
          absent (λ z. named (name ∙ z)) k ne
            (
              low k hk,
              sym (ap (λ (r : Buf). r.dev) kept) ∙ sym d ∙ name,
              sym (ap (λ (r : Buf). r.blocknr) kept)
                  ∙ sym b
                  ∙ ap (λ m. (c'.bufs m).blocknr) e
                  ∙ own_block,
            ) in
      λ j k hj hk ne d b. elim (ℕ_discrete j i) [
        | yes e ↦ elim (ℕ_discrete k i) [
          | yes e' ↦ e ∙ sym e'
          | no ne' ↦ absurd (clash j k hk e ne' ne d b)
        ]
        | no ne' ↦ elim (ℕ_discrete k i) [
          | yes e' ↦ absurd (clash k j hj e' ne' (λ z. ne (d ∙ z)) (sym d) (sym b))
          | no ne'' ↦
              let at_j = name_buf-other j ne' in
              let at_k = name_buf-other k ne'' in
              u j k (low j hj) (low k hk) (λ z. ne (ap (λ (r : Buf). r.dev) at_j ∙ z))
                (sym (ap (λ (r : Buf). r.dev) at_j) ∙ d ∙ ap (λ (r : Buf). r.dev) at_k)
                (sym (ap (λ (r : Buf). r.blocknr) at_j) ∙ b ∙ ap (λ (r : Buf). r.blocknr) at_k)
        ]
      ]

  -- The buffer is in use under its new name.
  pub name_buf-IsValid :
      Detached i c → (dev ≢ no_dev → Absent dev block i c) → IsValid (name_buf dev block i c)
  name_buf-IsValid v absent =
      let c' = name_buf dev block i c in
      record {
        lru = v.lru;
        lru_valid =
            LruBut-LruValid i c' v.lru
              (SameLru-LruBut i c c' v.lru name_buf-SameLru
                (λ j ne. ap (λ (r : Buf). r.count) (name_buf-other j ne)) v.lru_but)
              (omega (arith, name_buf-own.2));
        chain = _;
        hash_valid = name_buf-HashValid dev block i c v.chain v.hash_but v.low;
        unique = name_buf-Unique v.unique absent;
      }

pub fetch-DataOnly :
    (io : Driver) (only_search : Search) (i : ℕ) (c : Cache) → DataOnly c (fetch io only_search i c)
unfolding fetch
fetch-DataOnly io prefetch i c =
    modify-DataOnly i (c.bufs i).contents no_dev (c.bufs i).dirt c (λ ne. absurd (ne refl))
fetch-DataOnly io normal i c = rw_block-DataOnly io false i c
fetch-DataOnly io no_read i c = DataOnly-refl c

-- The last step, which is left out for an unnamed block.
abbrev pub fetched : Driver → ℕ → Search → ℕ → Cache → Cache
fetched io dev only_search i c = if dev == no_dev then c else fetch io only_search i c

pub take_front-steps :
    (io : Driver) (dev block : ℕ) (only_search : Search) (i : ℕ) (c c2 : Cache)
    → unlink_hash i (rm_lru i c) ≡ some c2
    → take_front io dev block only_search (some i) c
      ≡ some (i, fetched io dev only_search i (name_buf dev block i (clean_victim io i c2)))
unfolding take_front
take_front-steps io dev block only_search i c c2 e =
    ap
      (λ m. m >>= λ u.
        some (i, fetched io dev only_search i (name_buf dev block i (clean_victim io i u))))
      e

pub fetched-DataOnly :
    (io : Driver) (dev : ℕ) (only_search : Search) (i : ℕ) (c : Cache)
    → DataOnly c (fetched io dev only_search i c)
fetched-DataOnly io dev only_search i c =
    DataOnly-if (dev == no_dev) c c (fetch io only_search i c) (DataOnly-refl c)
      (fetch-DataOnly io only_search i c)
