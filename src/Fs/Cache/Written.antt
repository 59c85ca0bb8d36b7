-- ===== src/Fs/Cache/Written.antt =====
-- The contents that a client sees, when the dirty buffers of a device are written to the disk.
use sdios.Prelude.{
  and_no, ℕ, ◌<◌, ◌≡◌, refl, sym, ap, ◌∙◌, true, false, ◌&&◌, List, [], ◌∷◌, arith, ◌==◌, ltb,
  if◌then◌else◌, has, ℕ_discrete, ==_yes, ==_no, Bool-cases, inl, inr, ltb→lt,
}
use sdios.Fs.Cache.{Buf, Cache, put_disk}
use sdios.Fs.Cache.Invariant.{Unique}
use sdios.Fs.Cache.Rw.{DataOnly}
use sdios.Fs.Cache.Content.{content-disk}
use sdios.Fs.Cache.Flush.{wrote, puts}
use sdios.Fs.Cache.Coherent.{Coherent, SameContent, content-kept}

puts-miss :
    (dev : ℕ) (b : ℕ → Buf) (q : List ℕ) (d : ℕ → ℕ → List ℕ) (dev' block : ℕ)
    → ((k : ℕ) → has k q ≡ true → (dev' == dev && block == (b k).blocknr) ≡ false)
    → puts dev b q d dev' block ≡ d dev' block
puts-miss dev b [] d dev' block f = refl
puts-miss dev b (x ∷ xs) d dev' block f =
    puts-miss dev b xs (put_disk dev (b x).blocknr (b x).contents d) dev' block
      (λ k h. f k (ground (arith, h)))
    ∙ rw (f x (ground arith)) refl

puts-agree :
    (dev : ℕ) (b : ℕ → Buf) (q : List ℕ) (d : ℕ → ℕ → List ℕ) (block : ℕ) (v : List ℕ)
    → d dev block ≡ v
    → ((k : ℕ) → has k q ≡ true → (b k).blocknr ≡ block → (b k).contents ≡ v)
    → puts dev b q d dev block ≡ v
puts-agree dev b [] d block v e f = e
puts-agree dev b (x ∷ xs) d block v e f =
    puts-agree dev b xs (put_disk dev (b x).blocknr (b x).contents d) block v
      (elim (ℕ_discrete block (b x).blocknr) [
        | yes same ↦
            rw (==_yes dev dev refl, ==_yes block (b x).blocknr same)
              (f x (ground arith) (sym same))
        | no ne ↦ rw (==_yes dev dev refl, ==_no block (b x).blocknr ne) e
      ])
      (λ k h. f k (ground (arith, h)))

-- The last buffer that is written to a block decides, and all of them hold the same.
puts-hit :
    (dev : ℕ) (b : ℕ → Buf) (q : List ℕ) (d : ℕ → ℕ → List ℕ) (j : ℕ)
    → has j q ≡ true
    → ((k : ℕ) → has k q ≡ true → (b k).blocknr ≡ (b j).blocknr → (b k).contents ≡ (b j).contents)
    → puts dev b q d dev (b j).blocknr ≡ (b j).contents
puts-hit dev b [] d j h f = absurd (ground (arith, h))
puts-hit dev b (x ∷ xs) d j h f =
    let d' = put_disk dev (b x).blocknr (b x).contents d in
    elim (ℕ_discrete x j) [
      | yes e ↦
          puts-agree dev b xs d' (b j).blocknr (b j).contents
            (rw
              (
                ==_yes dev dev refl,
                ==_yes (b j).blocknr (b x).blocknr (ap (λ k. (b k).blocknr) (sym e)),
              )
              (ap (λ k. (b k).contents) e))
            (λ k h'. f k (ground (arith, h')))
      | no ne ↦ puts-hit dev b xs d' j (ground (arith, h, ne)) (λ k h'. f k (ground (arith, h')))
    ]

-- The queue q has the dirty buffers of the device dev.
module _ (dev : ℕ) (q : List ℕ) (c : Cache)
    (queue : (j : ℕ) → has j q ≡ (ltb j c.size && ((c.bufs j).dirt && (c.bufs j).dev == dev))) where
  queued :
      (j : ℕ) → has j q ≡ true → (j < c.size) × ((c.bufs j).dirt ≡ true) × ((c.bufs j).dev ≡ dev)
  queued j h =
      let e = sym (queue j) ∙ h in
      (ltb→lt j c.size (ground (arith, e)), ground (arith, e), ground (arith, e))

  pub wrote-DataOnly : DataOnly c (wrote dev q c)
  wrote-DataOnly = record { bufs = λ j. refl; dev = λ j ne. refl; others = refl }

  pub wrote-SameContent : Unique c → SameContent c (wrote dev q c)
  wrote-SameContent u dev' block ne =
      content-kept dev' block c (wrote dev q c) u u ne (λ j n. (n, refl))
        λ gone.
          content-disk dev' block (wrote dev q c) gone
          ∙ puts-miss dev c.bufs q c.disk dev' block λ k h.
            let (l, dirty, name) = queued k h in
            elim (ℕ_discrete dev' dev) [
              | no other ↦ rw (==_no dev' dev other) refl
              | yes e ↦ elim (ℕ_discrete block (c.bufs k).blocknr) [
                | no other ↦ rw (==_no block (c.bufs k).blocknr other) (and_no (dev' == dev))
                | yes e' ↦ absurd (gone k (l, name ∙ sym e, sym e'))
              ]
            ]

  pub wrote-Coherent : Unique c → Coherent c → Coherent (wrote dev q c)
  wrote-Coherent u h j l ne clean = elim (Bool-cases (has j q)) [
    | inl queued_j ↦
        let (l', dirty, name) = queued j queued_j in
        let hit = puts-hit dev c.bufs q c.disk j queued_j λ k hk same.
          let (lk, dk, nk) = queued k hk in
          ap (λ m. (c.bufs m).contents)
            (u k j lk l (λ z. ne (name ∙ sym nk ∙ z)) (nk ∙ sym name) same) in
        sym (ap (λ m. puts dev c.bufs q c.disk m (c.bufs j).blocknr) name ∙ hit)
    | inr not_queued ↦
        let was : (c.bufs j).dirt ≡ false =
          sym (ap (λ t. if t then false else (c.bufs j).dirt) not_queued) ∙ clean in
        h j l ne was
        ∙ sym (
            puts-miss dev c.bufs q c.disk (c.bufs j).dev (c.bufs j).blocknr λ k hk.
              let (lk, dk, nk) = queued k hk in
              elim (ℕ_discrete (c.bufs j).dev dev) [
                | no other ↦ rw (==_no (c.bufs j).dev dev other) refl
                | yes e ↦ elim (ℕ_discrete (c.bufs j).blocknr (c.bufs k).blocknr) [
                  | no other ↦
                      rw (==_no (c.bufs j).blocknr (c.bufs k).blocknr other)
                        (and_no ((c.bufs j).dev == dev))
                  | yes e' ↦
                      let same = u j k l lk ne (e ∙ sym nk) e' in
                      absurd (ground (arith, not_queued, hk, same))
                ]
              ])
  ]
