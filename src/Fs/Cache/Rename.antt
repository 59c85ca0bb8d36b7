-- ===== src/Fs/Cache/Rename.antt =====
-- get_block puts a buffer at the head of the hash chain of its new block.
use sdios.Prelude.{
  and_no, ℕ, suc, ◌<◌, ◌≡◌, ◌≢◌, refl, sym, ap, ◌∙◌, subst, true, ◌&&◌, some, List, ◌∷◌, arith,
  ◌==◌, ltb, has, Distinct, ℕ_discrete, ==_yes, ==_no, lt→ltb,
}
use sdios.Fs.Cache.{Buf, Cache, at}
use sdios.Fs.Cache.Links.{at-other, at_self}
use sdios.Fs.Cache.Hash.{HashChain, HashChain-frame}
use sdios.Fs.Cache.Get.{bucket, name_buf}
use sdios.Fs.Cache.Invariant.{HashValid, bucket-low}
use sdios.Fs.Cache.Rehash.{HashBut}

abbrev pub with_first : ℕ → ℕ → (ℕ → List ℕ) → ℕ → List ℕ
with_first b i chain = at b (i ∷ chain b) chain

module _ (dev block i : ℕ) (c : Cache) (chain : ℕ → List ℕ) (v : HashBut i c chain)
    (l : i < c.size) where
  abbrev new_bucket : ℕ
  new_bucket = bucket c block

  abbrev new_buf : Buf
  new_buf = record (c.bufs i) {
    dev = dev;
    blocknr = block;
    count = suc (c.bufs i).count;
    hash = c.buf_hash new_bucket;
  }

  abbrev longer : ℕ → List ℕ
  longer = with_first new_bucket i chain

  longer-own : longer new_bucket ≡ i ∷ chain new_bucket
  longer-own = at_self new_bucket (i ∷ chain new_bucket) chain

  longer-other : (b : ℕ) → b ≢ new_bucket → longer b ≡ chain b
  longer-other = at-other new_bucket (i ∷ chain new_bucket) chain

  longer-Distinct : (b : ℕ) → b < c.buckets → Distinct (longer b)
  longer-Distinct b h = elim (ℕ_discrete b new_bucket) [
    | yes e ↦
        let low = bucket-low c block v.positive in
        subst Distinct (sym (ap longer e ∙ longer-own))
          (v.gone new_bucket low, v.distinct new_bucket low)
    | no ne ↦ subst Distinct (sym (longer-other b ne)) (v.distinct b h)
  ]

  -- The other chains run as they did.
  chain_kept :
      (b : ℕ) → b < c.buckets → HashChain (name_buf dev block i c).bufs (c.buf_hash b) (chain b)
  unfolding name_buf
  chain_kept b h =
      HashChain-frame c.bufs (name_buf dev block i c).bufs (c.buf_hash b) (chain b)
        (λ j m.
          ap (λ (r : Buf). r.hash)
            (at-other i new_buf c.bufs j (λ e. ground (arith, e, m, v.gone b h))))
        (v.hashed b h)

  longer-HashChain :
      (b : ℕ)
      → b < c.buckets
      → let c' = name_buf dev block i c in HashChain c'.bufs (c'.buf_hash b) (longer b)
  unfolding name_buf
  longer-HashChain b h =
      let c' = name_buf dev block i c in
      elim (ℕ_discrete b new_bucket) [
        | yes e ↦
            let next = ap (λ (r : Buf). r.hash) (at_self i new_buf c.bufs) in
            let rest = chain_kept new_bucket (bucket-low c block v.positive) in
            subst (λ k. HashChain c'.bufs (c'.buf_hash k) (longer k)) (sym e)
              (subst (HashChain c'.bufs (c'.buf_hash new_bucket)) (sym longer-own) (
                at_self new_bucket (some i) c.buf_hash,
                subst (λ p. HashChain c'.bufs p (chain new_bucket)) (sym next) rest,
              ))
        | no ne ↦ subst (HashChain c'.bufs (c'.buf_hash b)) (sym (longer-other b ne)) (
            subst (λ p. HashChain c'.bufs p (chain b))
              (sym (at-other new_bucket (some i) c.buf_hash b ne)) (chain_kept b h))
      ]

  longer_itself : (b : ℕ) → b < c.buckets → has i (longer b) ≡ (ltb i c.size && new_bucket == b)
  longer_itself b h = elim (ℕ_discrete b new_bucket) [
    | yes e ↦
        let listed : has i (longer b) ≡ true =
          ap (has i) (ap longer e ∙ longer-own) ∙ rw (==_yes i i refl) refl in
        listed ∙ sym (rw (lt→ltb i c.size l, ==_yes new_bucket b (sym e)) refl)
    | no ne ↦
        ap (has i) (longer-other b ne)
        ∙ v.gone b h
        ∙ sym (rw (==_no new_bucket b (λ e. ne (sym e))) (and_no (ltb i c.size)))
  ]

  longer_others :
      (b j : ℕ)
      → b < c.buckets
      → j ≢ i
      → has j (longer b) ≡ (ltb j c.size && bucket c (c.bufs j).blocknr == b)
  longer_others b j h ne = elim (ℕ_discrete b new_bucket) [
    | yes e ↦
        ap (has j) (ap longer e ∙ longer-own ∙ ap (λ k. i ∷ chain k) (sym e))
        ∙ rw (==_no i j (λ z. ne (sym z))) (v.member b j h ne)
    | no other ↦ ap (has j) (longer-other b other) ∙ v.member b j h ne
  ]

  pub name_buf-HashValid : HashValid (name_buf dev block i c) longer
  unfolding name_buf
  name_buf-HashValid =
      let c' = name_buf dev block i c in
      let number : (n b j : ℕ)
          → (c'.bufs j).blocknr ≡ n
          → (ltb j c.size && bucket c n == b)
            ≡ (ltb j c.size && bucket c (c'.bufs j).blocknr == b) =
        λ n b j e. ap (λ n. ltb j c.size && bucket c n == b) (sym e) in
      record {
        positive = v.positive;
        hashed = longer-HashChain;
        distinct = longer-Distinct;
        member = λ b j h. elim (ℕ_discrete j i) [
          | yes same ↦
              ap (λ k. has k (longer b)) same
              ∙ longer_itself b h
              ∙ ap (λ k. ltb k c.size && new_bucket == b) (sym same)
              ∙ number block b j (
                  ap (λ k. (c'.bufs k).blocknr) same
                  ∙ ap (λ (r : Buf). r.blocknr) (at_self i new_buf c.bufs))
          | no ne ↦
              longer_others b j h ne
              ∙ number (c.bufs j).blocknr b j
                  (ap (λ (r : Buf). r.blocknr) (at-other i new_buf c.bufs j ne))
        ];
      }
