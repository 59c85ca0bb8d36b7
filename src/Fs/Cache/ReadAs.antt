-- ===== src/Fs/Cache/ReadAs.antt =====
-- A buffer that get_block reads under its new name: what a client sees of it, and of the other blocks.
use sdios.Prelude.{
  ℕ, ◌<◌, ◌≡◌, ◌≢◌, ◌⊎◌, refl, sym, ap, ◌∙◌, subst, false, ◌==◌, if◌then◌else◌, ℕ_discrete, ==_no,
  inl, inr, Option-cases,
}
use sdios.Fs.Cache.{Buf, Cache, Driver, full, normal, no_dev, modify, rw_block, end_block}
use sdios.Fs.Cache.Links.{at-other, at_self}
use sdios.Fs.Cache.Get.{name_buf, fetch}
use sdios.Fs.Cache.Invariant.{Unique}
use sdios.Fs.Cache.Content.{
  content, Names, cached, cached-Names, cached_absent, content-buf, content-disk,
}
use sdios.Fs.Cache.Coherent.{Coherent, SameContent}
use sdios.Fs.Cache.Flush.{Progress}
use sdios.Fs.Cache.Evict.{name_buf-own, name_buf-other, name_buf-SameLru, fetched}

-- A device that reads each block, and writes a block at least at each call.
pub record Works (io : Driver) : Type 0 where
  pub reads : (dev block : ℕ) → io.transfer false dev block ≡ full
  pub writes : Progress io

-- What a buffer is after it is read under its new name, and what is left alone.
pub record ReadAs (dev block i : ℕ) (c c' : Cache) : Type 0 where
  pub own :
      ((c'.bufs i).dev ≡ dev)
      × ((c'.bufs i).blocknr ≡ block)
      × ((c'.bufs i).contents ≡ c.disk dev block)
  pub other : (j : ℕ) → j ≢ i → c'.bufs j ≡ c.bufs j
  pub size : c'.size ≡ c.size
  pub disk : c'.disk ≡ c.disk

name_buf-disk : (dev block i : ℕ) (c : Cache) → (name_buf dev block i c).disk ≡ c.disk
unfolding name_buf
name_buf-disk dev block i c = refl

pub fetched-ReadAs :
    (io : Driver) (dev block i : ℕ) (c : Cache)
    → Works io
    → dev ≢ no_dev
    → ReadAs dev block i c (fetched io dev normal i (name_buf dev block i c))
unfolding fetch rw_block end_block
fetched-ReadAs io dev block i c w ne =
    let c4 = name_buf dev block i c in
    let own = name_buf-own dev block i c in
    let b = c4.bufs i in
    let r : Buf = record b { contents = c4.disk b.dev b.blocknr; dirt = false } in
    let c5 = modify i (λ b. record b { contents = c4.disk b.dev b.blocknr; dirt = false }) c4 in
    let named : (b.dev == no_dev) ≡ false = ==_no b.dev no_dev (λ e. ne (sym own.0 ∙ e)) in
    let read : fetched io dev normal i c4 ≡ c5 =
      ap (λ t. if t then c4 else fetch io normal i c4) (==_no dev no_dev ne)
      ∙ ap
          (λ t.
            if t
            then modify i (λ b. record b { dirt = false }) c4
            else end_block false (io.transfer false b.dev b.blocknr) i c4)
          named
      ∙ ap (λ a. end_block false a i c4) (w.reads b.dev b.blocknr) in
    let at_i : c5.bufs i ≡ r = at_self i r c4.bufs in
    subst (ReadAs dev block i c) (sym read) (record {
      own = (
        ap (λ (r : Buf). r.dev) at_i ∙ own.0,
        ap (λ (r : Buf). r.blocknr) at_i ∙ own.1,
        ap (λ (r : Buf). r.contents) at_i
            ∙ rw (own.0, own.1) (ap (λ d. d dev block) (name_buf-disk dev block i c)),
      );
      other = λ j other. at-other i r c4.bufs j other ∙ name_buf-other dev block i c j other;
      size = (name_buf-SameLru dev block i c).size;
      disk = name_buf-disk dev block i c;
    })

module _ (dev block i : ℕ) (c c' : Cache) (r : ReadAs dev block i c c') (low : i < c.size)
    (named : dev ≢ no_dev) (u : Unique c) (u' : Unique c')
    (clean : (c.bufs i).dev ≢ no_dev → (c.bufs i).dirt ≡ false) (co : Coherent c)
    (absent : (j : ℕ) → ¬ Names c j dev block) where
  pub read-Names : Names c' i dev block
  read-Names = (subst (λ m. i < m) (sym r.size) low, r.own.0, r.own.1)

  -- No other block has got a buffer.
  none_other :
      (d b : ℕ)
      → (d ≢ dev) ⊎ (b ≢ block)
      → ((j : ℕ) → j ≢ i → ¬ Names c j d b)
      → (j : ℕ) → ¬ Names c' j d b
  none_other d b ne f j n = elim (ℕ_discrete j i) [
    | yes e ↦
        let its_dev : d ≡ dev = sym n.1 ∙ ap (λ k. (c'.bufs k).dev) e ∙ r.own.0 in
        let its_block : b ≡ block = sym n.2 ∙ ap (λ k. (c'.bufs k).blocknr) e ∙ r.own.1 in
        elim ne [ inl z ↦ z its_dev | inr z ↦ z its_block ]
    | no other ↦
        let same = r.other j other in
        f j other (
          subst (λ m. j < m) r.size n.0,
          sym (ap (λ (r : Buf). r.dev) same) ∙ n.1,
          sym (ap (λ (r : Buf). r.blocknr) same) ∙ n.2,
        )
  ]

  -- A block but the one that is read.
  other-content : (d b : ℕ) → d ≢ no_dev → (d ≢ dev) ⊎ (b ≢ block) → content d b c' ≡ content d b c
  other-content d b ne different =
      let on_disk : ((j : ℕ) → j ≢ i → ¬ Names c j d b) → content d b c' ≡ c.disk d b =
        λ f. content-disk d b c' (none_other d b different f) ∙ ap (λ k. k d b) r.disk in
      elim (Option-cases (cached c.size d b c)) [
        | inl e ↦
            let gone : (j : ℕ) → ¬ Names c j d b = λ j. cached_absent d b c j e in
            on_disk (λ j other. gone j) ∙ sym (content-disk d b c gone)
        | inr p ↦
            let n = cached-Names d b c p.0 p.1 in
            elim (ℕ_discrete p.0 i) [
              | yes e ↦
                  let single : (j : ℕ) → j ≢ i → ¬ Names c j d b = λ j other m.
                    other (
                      u j p.0 m.0 n.0 (λ z. ne (sym m.1 ∙ z)) (m.1 ∙ sym n.1) (m.2 ∙ sym n.2)
                      ∙ e) in
                  let has_dev : (c.bufs p.0).dev ≢ no_dev = λ z. ne (sym n.1 ∙ z) in
                  let flag : (c.bufs p.0).dirt ≡ false =
                    ap (λ k. (c.bufs k).dirt) e
                    ∙ clean (λ z. has_dev (ap (λ k. (c.bufs k).dev) e ∙ z)) in
                  on_disk single
                  ∙ sym
                      (content-buf d b c p.0 u ne n ∙ co p.0 n.0 has_dev flag ∙ rw (n.1, n.2) refl)
              | no other ↦
                  let same = r.other p.0 other in
                  let n' : Names c' p.0 d b = (
                    subst (λ m. p.0 < m) (sym r.size) n.0,
                    ap (λ (r : Buf). r.dev) same ∙ n.1,
                    ap (λ (r : Buf). r.blocknr) same ∙ n.2,
                  ) in
                  content-buf d b c' p.0 u' ne n'
                  ∙ ap (λ (r : Buf). r.contents) same
                  ∙ sym (content-buf d b c p.0 u ne n)
            ]
      ]

  pub read-SameContent : SameContent c c'
  read-SameContent d b ne = elim (ℕ_discrete d dev) [
    | no different ↦ other-content d b ne (inl different)
    | yes e ↦ elim (ℕ_discrete b block) [
      | no different ↦ other-content d b ne (inr different)
      | yes e' ↦
          rw (e, e')
            (content-buf dev block c' i u' named read-Names
              ∙ r.own.2
              ∙ sym (content-disk dev block c absent))
    ]
  ]

  pub read-Coherent : Coherent c'
  read-Coherent j l has_dev flag = elim (ℕ_discrete j i) [
    | yes e ↦
        ap (λ k. (c'.bufs k).contents) e ∙ r.own.2 ∙ sym (rw (r.disk, e, r.own.0, r.own.1) refl)
    | no other ↦
        let same = r.other j other in
        let l' = subst (λ m. j < m) r.size l in
        ap (λ (r : Buf). r.contents) same
        ∙ co j l' (λ z. has_dev (ap (λ (r : Buf). r.dev) same ∙ z))
            (sym (ap (λ (r : Buf). r.dirt) same) ∙ flag)
        ∙ sym (rw (r.disk, same) refl)
  ]
