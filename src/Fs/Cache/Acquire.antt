-- ===== src/Fs/Cache/Acquire.antt =====
-- get_block on a well-formed cache: which buffer it returns, and that the cache stays well-formed.
use sdios.Prelude.{
  ℕ, suc, ◌<◌, ◌≡◌, ◌≢◌, refl, sym, ap, ◌∙◌, subst, true, false, Option, none, some, List, [], ◌∷◌,
  arith, ◌==◌, if◌then◌else◌, has, ==_yes, Bool-cases, inl, inr, Option-cases, lt→ltb,
}
use sdios.Fs.Cache.{Buf, Cache, Driver, Search, no_dev, rm_lru}
use sdios.Fs.Cache.Links.{at_self}
use sdios.Fs.Cache.Take.{rm_lru-LruOnly, rm_lru-LruBut, use-LruValid, modify-LruOnly}
use sdios.Fs.Cache.Get.{
  lookup, take_found, found_or_front, get_block, clean_victim, name_buf, take_front,
}
use sdios.Fs.Cache.Invariant.{IsValid, LruValid, LruBut, LruOnly, LruOnly-trans, LruOnly-IsValid}
use sdios.Fs.Cache.Rw.{DataOnly-IsValid, DataOnly-SameNames, DataOnly-count}
use sdios.Fs.Cache.Content.{Names, cached, cached-Names, cached_absent, lookup-cached}
use sdios.Fs.Cache.Coherent.{Linking}
use sdios.Fs.Cache.Evict.{
  Detached, detach, DataOnly-Detached, clean_victim-DataOnly, name_buf-own, name_buf-IsValid,
  name_buf-SameLru, fetched, fetched-DataOnly, take_front-steps,
}

-- The buffer i is in use under a block number.
abbrev pub Held : Cache → ℕ → ℕ → Type 0
Held c i block = (i < c.size) × (0 < (c.bufs i).count) × ((c.bufs i).blocknr ≡ block)

found_LruBut :
    (i : ℕ) (c : Cache)
    → IsValid c
    → i < c.size
    → let c' = (if (c.bufs i).count == 0 then rm_lru i c else c) in
      LruOnly c c' × ((xs : List ℕ) × LruBut i c' xs)
found_LruBut i c v l = elim (Bool-cases ((c.bufs i).count == 0)) [
  | inl e ↦
      let member : has i v.lru ≡ true = v.lru_valid.counts i ∙ rw (lt→ltb i c.size l, e) refl in
      rw e (rm_lru-LruOnly i c, (_, rm_lru-LruBut c v.lru i v.lru_valid member))
  | inr e ↦
      let gone : has i v.lru ≡ false = v.lru_valid.counts i ∙ rw (lt→ltb i c.size l, e) refl in
      let same : LruOnly c c = record { bufs = λ j. refl; others = refl } in
      rw e (
        same,
        (
          v.lru,
          record {
            free = v.lru_valid.free;
            gone = gone;
            counts = λ j ne. v.lru_valid.counts j;
            in_use = v.lru_valid.in_use;
          },
        ),
      )
]

-- A buffer that was found gets one more user.
pub take_found-IsValid :
    (i : ℕ) (c : Cache)
    → IsValid c
    → i < c.size
    → LruOnly c (take_found i c) × IsValid (take_found i c) × (0 < ((take_found i c).bufs i).count)
unfolding take_found
take_found-IsValid i c v l =
    let c1 = (if (c.bufs i).count == 0 then rm_lru i c else c) in
    let (only, (xs, but)) = found_LruBut i c v l in
    let r : Buf = record (c1.bufs i) { count = suc (c1.bufs i).count } in
    let all =
      LruOnly-trans c c1 (take_found i c) only
        (modify-LruOnly i (c1.bufs i).next (c1.bufs i).prev (suc (c1.bufs i).count) c1) in
    (
      all,
      LruOnly-IsValid c (take_found i c) xs all v (use-LruValid c1 xs i but),
      omega (arith, ap (λ (r : Buf). r.count) (at_self i r c1.bufs)),
    )

-- The buffer taken for a block that is not in the cache.
pub victim :
    (io : Driver) (dev block i : ℕ) (c : Cache)
    → IsValid c
    → c.front ≡ some i
    → (dev ≢ no_dev → (j : ℕ) → ¬ Names c j dev block)
    → (c2 : Cache) × ((only_search : Search)
        → take_front io dev block only_search (some i) c
          ≡ some (i, fetched io dev only_search i (name_buf dev block i (clean_victim io i c2))))
      × Linking c c2
      × Detached i (clean_victim io i c2)
      × (dev ≢ no_dev → (j : ℕ) → ¬ Names (clean_victim io i c2) j dev block)
victim io dev block i c v e absent =
    let (c2, eq, link, det) = detach c i v e in
    let c3 = clean_victim io i c2 in
    let cleaned = clean_victim-DataOnly io i c2 in
    let names = DataOnly-SameNames c2 c3 cleaned in
    (
      c2,
      λ only_search. take_front-steps io dev block only_search i c c2 eq,
      link,
      DataOnly-Detached i c2 c3 cleaned det,
      λ named j n.
          let buf = link.bufs j in
          absent named j (
            subst (λ m. j < m) (names.size ∙ ap (λ (r : Cache). r.size) link.others) n.0,
            sym (cleaned.dev j (λ z. named (sym n.1 ∙ z)) ∙ ap (λ (r : Buf). r.dev) buf) ∙ n.1,
            sym (names.blocknr j ∙ ap (λ (r : Buf). r.blocknr) buf) ∙ n.2,
          ),
    )

module _ (io : Driver) (dev block : ℕ) (only_search : Search) (c : Cache) (v : IsValid c) where
  -- What get_block returns, whatever the device answers.
  abbrev pub Acquired : Option (ℕ × Cache) → Type 0
  Acquired m = (i : ℕ) × (c' : Cache) × (m ≡ some (i, c')) × IsValid c' × Held c' i block

  take_front-Acquired :
      (i : ℕ)
      → c.front ≡ some i
      → (dev ≢ no_dev → (j : ℕ) → ¬ Names c j dev block)
      → Acquired (take_front io dev block only_search (some i) c)
  take_front-Acquired i e absent =
      let (c2, eq, link, det, gone) = victim io dev block i c v e absent in
      let c3 = clean_victim io i c2 in
      let c4 = name_buf dev block i c3 in
      let c5 = fetched io dev only_search i c4 in
      let own = name_buf-own dev block i c3 in
      let step = fetched-DataOnly io dev only_search i c4 in
      let valid =
        DataOnly-IsValid c4 c5 step
          (name_buf-IsValid dev block i c3 det (λ ne j other. gone ne j)) in
      let names = DataOnly-SameNames c4 c5 step in
      (
        i,
        c5,
        eq only_search,
        valid,
        (
          subst (λ m. i < m) (sym names.size)
              (subst (λ m. i < m) (sym (name_buf-SameLru dev block i c3).size) det.low),
          omega (arith, DataOnly-count c4 c5 step i, own.2),
          names.blocknr i ∙ own.1,
        ),
      )

  found_or_front-Acquired :
      (found : Option ℕ)
      → (dev ≢ no_dev → found ≡ cached c.size dev block c)
      → (found ≢ none → dev ≢ no_dev)
      → (found ≡ none → c.front ≢ none)
      → Acquired (found_or_front io dev block only_search c found)
  unfolding found_or_front
  found_or_front-Acquired (some i) same named free =
      let n = cached-Names dev block c i (sym (same (named (λ e. ground (arith, e))))) in
      let (only, valid, used) = take_found-IsValid i c v n.0 in
      (
        i,
        take_found i c,
        refl,
        valid,
        (
          subst (λ m. i < m) (sym (ap (λ (r : Cache). r.size) only.others)) n.0,
          used,
          ap (λ (r : Buf). r.blocknr) (only.bufs i) ∙ n.2,
        ),
      )
  found_or_front-Acquired none same named free = elim (Option-cases c.front) [
    | inl e ↦ absurd (free refl e)
    | inr p ↦
        let absent : dev ≢ no_dev → (j : ℕ) → ¬ Names c j dev block =
          λ ne j. cached_absent dev block c j (sym (same ne)) in
        subst (λ o. Acquired (take_front io dev block only_search o c)) (sym p.1)
          (take_front-Acquired p.0 p.1 absent)
  ]

  lookup_named : lookup dev block c ≢ none → dev ≢ no_dev
  unfolding lookup
  lookup_named h e = h (rw (==_yes dev no_dev e) refl)

  -- In a well-formed cache, whatever the device answers and whatever the search: if the block is found by
  -- lookup or a buffer is free, get_block returns a buffer in use under the block's number, and the
  -- cache is well-formed again.
  pub get_block-Acquired :
      (lookup dev block c ≡ none → c.front ≢ none) → Acquired (get_block io dev block only_search c)
  unfolding get_block
  get_block-Acquired free =
      found_or_front-Acquired (lookup dev block c) (lookup-cached dev block c v) lookup_named free

  found_or_front_panic :
      (found : Option ℕ)
      → found_or_front io dev block only_search c found ≡ none
      → (found ≡ none → c.front ≢ none → found_or_front io dev block only_search c found ≢ none)
      → (found ≡ none) × (c.front ≡ none)
  unfolding found_or_front
  found_or_front_panic (some i) e f = absurd (ground (arith, e))
  found_or_front_panic none e f = elim (Option-cases c.front) [
    | inl none_free ↦ (refl, none_free)
    | inr p ↦ absurd (f refl (λ z. ground (arith, sym p.1 ∙ z)) e)
  ]

  no_free : c.front ≡ none → c.bufs_in_use ≡ c.size
  no_free e = empty v.lru v.lru_valid
    where
      empty : (xs : List ℕ) → LruValid c xs → c.bufs_in_use ≡ c.size
      empty [] l = omega (arith, l.in_use)
      empty (x ∷ xs) l = absurd (ground (arith, sym l.free.0.0 ∙ e))

  -- In a well-formed cache, get_block panics only when lookup does not find the block and every buffer of
  -- the pool is in use.
  pub get_block_panic :
      get_block io dev block only_search c ≡ none
      → (lookup dev block c ≡ none) × (c.bufs_in_use ≡ c.size)
  unfolding get_block
  get_block_panic e =
      let (miss, empty) = found_or_front_panic (lookup dev block c) e λ miss free z.
        let (i, c', eq, rest, held) = get_block-Acquired (λ q. free) in
        ground (arith, sym z ∙ eq) in
      (miss, no_free empty)
