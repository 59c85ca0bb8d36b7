-- ===== src/Fs/Cache/Content.antt =====
-- What a client sees of the cache of sdios/src/minix3fs/servers/fs/cache.c: what each block of a device
-- holds, whether a buffer or the disk holds it.
use sdios.Prelude.{
  ℕ, zero, suc, ◌<◌, ◌≡◌, ◌≢◌, refl, sym, ap, ◌∙◌, true, false, Option, none, some, List, arith,
  if◌then◌else◌, has, Bool-cases, Option-cases, inl, inr, lt→ltb, ltb→lt, ℕ_discrete, ==_yes, ==_no,
}
use mathlib.Core.Option.{some-injective}
use sdios.Fs.Cache.{Cache, no_dev}
use sdios.Fs.Cache.Hash.{matches, find, find-some, find-none, search_hash-find}
use sdios.Fs.Cache.Get.{bucket, lookup}
use sdios.Fs.Cache.Invariant.{IsValid, Unique, length-chain, bucket-low}

-- The buffer of a block, searched without the hash chains among the first n.
abbrev pub cached : ℕ → ℕ → ℕ → Cache → Option ℕ
cached zero dev block c = none
cached (suc n) dev block c =
    let rest = cached n dev block c in if matches dev block c n then some n else rest

abbrev pub held : Option ℕ → ℕ → ℕ → Cache → List ℕ
held none dev block c = c.disk dev block
held (some i) dev block c = (c.bufs i).contents

unfoldable pub content : ℕ → ℕ → Cache → List ℕ
content dev block c = held (cached c.size dev block c) dev block c

-- A buffer has this name.
abbrev pub Names : Cache → ℕ → ℕ → ℕ → Type 0
Names c i dev block = (i < c.size) × ((c.bufs i).dev ≡ dev) × ((c.bufs i).blocknr ≡ block)

pub matches-Names :
    (dev block : ℕ) (c : Cache) (i : ℕ)
    → matches dev block c i ≡ true
    → i < c.size
    → Names c i dev block
matches-Names dev block c i h l = (l, ground (arith, h), ground (arith, h))

pub Names-matches :
    (dev block : ℕ) (c : Cache) (i : ℕ) → Names c i dev block → matches dev block c i ≡ true
Names-matches dev block c i (l, d, b) = rw (==_yes _ _ d, ==_yes _ _ b) refl

cached-some :
    (n dev block : ℕ) (c : Cache) (i : ℕ)
    → cached n dev block c ≡ some i
    → (i < n) × (matches dev block c i ≡ true)
cached-some zero dev block c i e = absurd (ground (arith, e))
cached-some (suc n) dev block c i e = elim (Bool-cases (matches dev block c n)) [
  | inl hit ↦
      let same =
        some-injective n i (sym (ap (λ t. if t then some n else cached n dev block c) hit) ∙ e) in
      (omega (arith, same), ap (matches dev block c) (sym same) ∙ hit)
  | inr miss ↦
      let (l, m) =
        cached-some n dev block c i
          (sym (ap (λ t. if t then some n else cached n dev block c) miss) ∙ e) in
      (omega (arith, l), m)
]

cached-none :
    (n dev block : ℕ) (c : Cache) (i : ℕ)
    → cached n dev block c ≡ none
    → i < n
    → matches dev block c i ≡ false
cached-none zero dev block c i e h = absurd (omega (arith, h))
cached-none (suc n) dev block c i e h = elim (Bool-cases (matches dev block c n)) [
  | inl hit ↦
      absurd (ground (arith, sym (ap (λ t. if t then some n else cached n dev block c) hit) ∙ e))
  | inr miss ↦ elim (ℕ_discrete i n) [
    | yes same ↦ ap (matches dev block c) same ∙ miss
    | no ne ↦
        cached-none n dev block c i
          (sym (ap (λ t. if t then some n else cached n dev block c) miss) ∙ e)
          (omega (arith, h, ne))
  ]
]

pub cached-Names :
    (dev block : ℕ) (c : Cache) (i : ℕ) → cached c.size dev block c ≡ some i → Names c i dev block
cached-Names dev block c i e =
    let (l, m) = cached-some c.size dev block c i e in matches-Names dev block c i m l

pub cached_absent :
    (dev block : ℕ) (c : Cache) (i : ℕ) → cached c.size dev block c ≡ none → ¬ Names c i dev block
cached_absent dev block c i e n =
    ground (arith, cached-none c.size dev block c i e n.0, Names-matches dev block c i n)

-- In a cache with one buffer at most for a block, that is the one found.
pub cached-Unique :
    (dev block : ℕ) (c : Cache) (i : ℕ)
    → Unique c
    → dev ≢ no_dev
    → Names c i dev block
    → cached c.size dev block c ≡ some i
cached-Unique dev block c i u ne n = elim (Option-cases (cached c.size dev block c)) [
  | inl e ↦ absurd (cached_absent dev block c i e n)
  | inr p ↦
      let (l, d, b) = cached-Names dev block c p.0 p.1 in
      let same = u p.0 i l n.0 (λ z. ne (sym d ∙ z)) (d ∙ sym n.1) (b ∙ sym n.2) in
      p.1 ∙ ap some same
]

pub content-buf :
    (dev block : ℕ) (c : Cache) (i : ℕ)
    → Unique c
    → dev ≢ no_dev
    → Names c i dev block
    → content dev block c ≡ (c.bufs i).contents
unfolding content
content-buf dev block c i u ne n = ap (λ o. held o dev block c) (cached-Unique dev block c i u ne n)

pub content-disk :
    (dev block : ℕ) (c : Cache)
    → ((i : ℕ) → ¬ Names c i dev block)
    → content dev block c ≡ c.disk dev block
unfolding content
content-disk dev block c f = elim (Option-cases (cached c.size dev block c)) [
  | inl e ↦ ap (λ o. held o dev block c) e
  | inr p ↦ absurd (f p.0 (cached-Names dev block c p.0 p.1))
]

-- In a well-formed cache, for a device other than NO_DEV, the search of get_block along one hash chain
-- gives what a search of the whole pool gives.
pub lookup-cached :
    (dev block : ℕ) (c : Cache)
    → IsValid c
    → dev ≢ no_dev
    → lookup dev block c ≡ cached c.size dev block c
unfolding lookup
lookup-cached dev block c v ne =
    let b = bucket c block in
    let low : b < c.buckets = bucket-low c block v.hash_valid.positive in
    let found : lookup dev block c ≡ find (matches dev block c) (v.chain b) =
      rw (==_no dev no_dev ne) (
        search_hash-find c.size dev block c (c.buf_hash b) (v.chain b) (v.hash_valid.hashed b low)
          (length-chain c v.chain b v.hash_valid low)) in
    found ∙ elim (Option-cases (find (matches dev block c) (v.chain b))) [
      | inr p ↦
          let (m, hit) = find-some (matches dev block c) (v.chain b) p.0 p.1 in
          let l = ltb→lt p.0 c.size (ground (arith, m, v.hash_valid.member b p.0 low)) in
          p.1
          ∙ sym (cached-Unique dev block c p.0 v.unique ne (matches-Names dev block c p.0 hit l))
      | inl e ↦ elim (Option-cases (cached c.size dev block c)) [
        | inl e' ↦ e ∙ sym e'
        | inr p ↦
            let n = cached-Names dev block c p.0 p.1 in
            let listed : has p.0 (v.chain b) ≡ true =
              v.hash_valid.member b p.0 low
              ∙ rw (lt→ltb p.0 c.size n.0, ==_yes _ _ (ap (bucket c) n.2)) refl in
            absurd (
              ground (
                arith,
                find-none (matches dev block c) (v.chain b) p.0 e listed,
                Names-matches dev block c p.0 n,
              ))
      ]
    ]
