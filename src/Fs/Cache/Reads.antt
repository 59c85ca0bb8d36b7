-- ===== src/Fs/Cache/Reads.antt =====
-- get_block that reads, on a device that works: what the buffer holds, and that no block changes.
use sdios.Prelude.{
  ℕ, ◌<◌, ◌≡◌, ◌≢◌, refl, sym, ap, ◌∙◌, subst, false, Option, none, some, arith, ◌==◌,
  if◌then◌else◌, ==_yes, Bool-cases, inl, inr, Option-cases,
}
use sdios.Fs.Cache.{Buf, Cache, Driver, normal, no_dev}
use sdios.Fs.Cache.Scatter.{flushall}
use sdios.Fs.Cache.Get.{
  lookup, take_found, found_or_front, get_block, clean_victim, name_buf, take_front,
}
use sdios.Fs.Cache.Invariant.{IsValid, Unique}
use sdios.Fs.Cache.Rw.{DataOnly-Unique, DataOnly-SameNames}
use sdios.Fs.Cache.Content.{
  content, Names, cached, cached-Names, cached_absent, content-buf, lookup-cached,
}
use sdios.Fs.Cache.Coherent.{
  Coherent, SameContent, Linking-SameContent, Linking-Coherent, Linking-Unique, LruOnly-Linking,
}
use sdios.Fs.Cache.Flush.{Progress}
use sdios.Fs.Cache.Flushed.{flushall_view}
use sdios.Fs.Cache.Evict.{clean_victim-DataOnly, name_buf-Unique, fetched, fetched-DataOnly}
use sdios.Fs.Cache.Acquire.{take_found-IsValid, victim}
use sdios.Fs.Cache.ReadAs.{Works, fetched-ReadAs, read-Names, read-SameContent, read-Coherent}

SameContent-trans : (a b c : Cache) → SameContent a b → SameContent b c → SameContent a c
SameContent-trans a b c f g dev block ne = g dev block ne ∙ f dev block ne

-- The victim is clean when it gets its new name, and no client sees a difference.
abbrev pub Cleaned : ℕ → Cache → Cache → Type 0
Cleaned i c c' =
    ((c'.bufs i).dev ≢ no_dev → (c'.bufs i).dirt ≡ false) × SameContent c c' × Coherent c'

clean_victim-Cleaned :
    (io : Driver) (i : ℕ) (c : Cache)
    → Progress io
    → i < c.size
    → Unique c
    → Coherent c
    → Cleaned i c (clean_victim io i c)
unfolding clean_victim
clean_victim-Cleaned io i c p l u co =
    let dev = (c.bufs i).dev in
    let flushed = flushall io dev c in
    let inner = (if (c.bufs i).dirt then flushed else c) in
    elim (Bool-cases (dev == no_dev)) [
      | inl e ↦
          subst (Cleaned i c) (sym (ap (λ t. if t then c else inner) e))
            (λ ne. absurd (ground (arith, e, ne)), λ d b ne. refl, co)
      | inr e ↦
          subst (Cleaned i c) (sym (ap (λ t. if t then c else inner) e))
            (elim (Bool-cases (c.bufs i).dirt) [
              | inl dirty ↦
                  let (done, same, co') = flushall_view io dev c p (omega (arith, l)) u co in
                  let (name, contents, dirt) = done i l in
                  subst (Cleaned i c) (sym (ap (λ t. if t then flushed else c) dirty))
                    (λ ne. dirt ∙ rw (dirty, ==_yes dev dev refl) refl, same, co')
              | inr clean ↦
                  subst (Cleaned i c) (sym (ap (λ t. if t then flushed else c) clean))
                    (λ ne. clean, λ d b ne. refl, co)
            ])
    ]

module _ (io : Driver) (dev block : ℕ) (c : Cache) (w : Works io) (v : IsValid c) (co : Coherent c)
    (named : dev ≢ no_dev) where
  -- The buffer returned has the block, and all blocks are as they were.
  abbrev pub Returned : Option (ℕ × Cache) → Type 0
  Returned m =
      (i : ℕ) × (c' : Cache) × (m ≡ some (i, c'))
      × Names c' i dev block
      × ((c'.bufs i).contents ≡ content dev block c)
      × SameContent c c'
      × Coherent c'

  returned :
      (i : ℕ) (c' : Cache) (m : Option (ℕ × Cache))
      → m ≡ some (i, c')
      → Unique c'
      → Names c' i dev block
      → SameContent c c'
      → Coherent c'
      → Returned m
  returned i c' m e u n same co' =
      (i, c', e, n, sym (content-buf dev block c' i u named n) ∙ same dev block named, same, co')

  found-Returned :
      (i : ℕ) → Names c i dev block → Returned (found_or_front io dev block normal c (some i))
  unfolding found_or_front
  found-Returned i n =
      let (only, valid, used) = take_found-IsValid i c v n.0 in
      let c' = take_found i c in
      let link = LruOnly-Linking c c' only in
      let n' : Names c' i dev block = (
        subst (λ m. i < m) (sym (ap (λ (r : Cache). r.size) only.others)) n.0,
        ap (λ (r : Buf). r.dev) (only.bufs i) ∙ n.1,
        ap (λ (r : Buf). r.blocknr) (only.bufs i) ∙ n.2,
      ) in
      returned i c' (some (i, c')) refl valid.unique n' (Linking-SameContent c c' link v.unique)
        (Linking-Coherent c c' link co)

  front-Returned :
      (i : ℕ)
      → c.front ≡ some i
      → ((j : ℕ) → ¬ Names c j dev block)
      → Returned (take_front io dev block normal (some i) c)
  front-Returned i e absent =
      let (c2, eq, link, det, gone) = victim io dev block i c v e (λ ne. absent) in
      let c3 = clean_victim io i c2 in
      let u2 = Linking-Unique c c2 link v.unique in
      let kept = clean_victim-DataOnly io i c2 in
      let low2 = subst (λ m. i < m) (DataOnly-SameNames c2 c3 kept).size det.low in
      let (clean, same, co3) =
        clean_victim-Cleaned io i c2 w.writes low2 u2 (Linking-Coherent c c2 link co) in
      let r = fetched-ReadAs io dev block i c3 w named in
      let c4 = name_buf dev block i c3 in
      let c5 = fetched io dev normal i c4 in
      let u4 = name_buf-Unique dev block i c3 det.unique (λ ne j other. gone named j) in
      let u5 = DataOnly-Unique c4 c5 (fetched-DataOnly io dev normal i c4) u4 in
      let same5 =
        read-SameContent dev block i c3 c5 r det.low named det.unique u5 clean co3 (gone named) in
      returned i c5 (take_front io dev block normal (some i) c) (eq normal) u5
        (read-Names dev block i c3 c5 r det.low named det.unique u5 clean co3 (gone named))
        (SameContent-trans c c2 c5 (Linking-SameContent c c2 link v.unique)
          (SameContent-trans c2 c3 c5 same same5))
        (read-Coherent dev block i c3 c5 r det.low named det.unique u5 clean co3 (gone named))

  found_or_front-Returned :
      (found : Option ℕ)
      → found ≡ cached c.size dev block c
      → (found ≡ none → c.front ≢ none)
      → Returned (found_or_front io dev block normal c found)
  unfolding found_or_front
  found_or_front-Returned (some i) same free =
      found-Returned i (cached-Names dev block c i (sym same))
  found_or_front-Returned none same free = elim (Option-cases c.front) [
    | inl e ↦ absurd (free refl e)
    | inr p ↦
        subst (λ o. Returned (take_front io dev block normal o c)) (sym p.1)
          (front-Returned p.0 p.1 (λ j. cached_absent dev block c j (sym same)))
  ]

  -- On a device that works, in a well-formed cache whose clean buffers hold what the disk holds, for a
  -- device other than NO_DEV: if the block is cached or a buffer is free, get_block with NORMAL returns
  -- a buffer of that block, with what the block held for a client before. Whatever buffer is taken for
  -- it, no block of any device changes for a client, and clean buffers hold what the disk holds again.
  pub get_block-Returned :
      (lookup dev block c ≡ none → c.front ≢ none) → Returned (get_block io dev block normal c)
  unfolding get_block
  get_block-Returned free =
      found_or_front-Returned (lookup dev block c) (lookup-cached dev block c v named) free
