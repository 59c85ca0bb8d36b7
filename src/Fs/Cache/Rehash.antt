-- ===== src/Fs/Cache/Rehash.antt =====
-- get_block takes a buffer off the hash chain of its old block.
use sdios.Prelude.{
  and_no, ℕ, ◌<◌, ◌≡◌, ◌≢◌, refl, sym, ap, ◌∙◌, subst, true, false, ◌&&◌, some, List, arith, ◌==◌,
  ltb, has, Distinct, remove, has-remove, has-remove_ne, Distinct-remove, ℕ_discrete, ==_yes, ==_no,
  lt→ltb,
}
use sdios.Fs.Cache.{Buf, Cache, at}
use sdios.Fs.Cache.Links.{at-other, at_self}
use sdios.Fs.Cache.Hash.{HashChain, HashChain-frame}
use sdios.Fs.Cache.Get.{bucket, unlink_hash}
use sdios.Fs.Cache.Unlink.{HashOnly, Unlinked, unlink_hash_lem}
use sdios.Fs.Cache.Invariant.{HashValid, SameNames, length-chain, bucket-low}

-- The buffer i is on no hash chain.
pub record HashBut (i : ℕ) (c : Cache) (chain : ℕ → List ℕ) : Type 0 where
  pub positive : 0 < c.buckets
  pub hashed : (b : ℕ) → b < c.buckets → HashChain c.bufs (c.buf_hash b) (chain b)
  pub distinct : (b : ℕ) → b < c.buckets → Distinct (chain b)
  pub gone : (b : ℕ) → b < c.buckets → has i (chain b) ≡ false
  pub member :
      (b j : ℕ)
      → b < c.buckets
      → j ≢ i
      → has j (chain b) ≡ (ltb j c.size && bucket c (c.bufs j).blocknr == b)

pub SameNames-HashBut :
    (i : ℕ) (c c' : Cache) (chain : ℕ → List ℕ)
    → SameNames c c'
    → HashBut i c chain
    → HashBut i c' chain
SameNames-HashBut i c c' chain s v =
    let low : (b : ℕ) → b < c'.buckets → b < c.buckets = λ b h. subst (λ n. b < n) s.buckets h in
    record {
      positive = subst (λ n. 0 < n) (sym s.buckets) v.positive;
      hashed = λ b h.
          subst (λ f. HashChain c'.bufs (f b) (chain b)) (sym s.heads)
            (HashChain-frame c.bufs c'.bufs (c.buf_hash b) (chain b) (λ j m. s.hash j)
              (v.hashed b (low b h)));
      distinct = λ b h. v.distinct b (low b h);
      gone = λ b h. v.gone b (low b h);
      member = λ b j h ne. rw (s.size, s.buckets, s.blocknr j) (v.member b j (low b h) ne);
    }

abbrev pub without : ℕ → ℕ → (ℕ → List ℕ) → ℕ → List ℕ
without b i chain = at b (remove i (chain b)) chain

-- The buffer i has been taken off its chain.
module _ (c c' : Cache) (chain : ℕ → List ℕ) (i : ℕ) (v : HashValid c chain) where
  abbrev its_bucket : ℕ
  its_bucket = bucket c (c.bufs i).blocknr

  its_bucket-low : its_bucket < c.buckets
  its_bucket-low = bucket-low c (c.bufs i).blocknr v.positive

  abbrev shorter : ℕ → List ℕ
  shorter = without its_bucket i chain

  shorter-own : shorter its_bucket ≡ remove i (chain its_bucket)
  shorter-own = at_self its_bucket (remove i (chain its_bucket)) chain

  shorter-other : (b : ℕ) → b ≢ its_bucket → shorter b ≡ chain b
  shorter-other = at-other its_bucket (remove i (chain its_bucket)) chain

  elsewhere :
      (b j : ℕ)
      → b < c.buckets
      → b ≢ its_bucket
      → has j (chain b) ≡ true
      → has j (chain its_bucket) ≡ false
  elsewhere b j h ne m =
      let there = sym (v.member b j h) ∙ m in
      let its : bucket c (c.bufs j).blocknr ≡ b = ground (arith, there) in
      v.member its_bucket j its_bucket-low
      ∙ rw (==_no (bucket c (c.bufs j).blocknr) its_bucket (λ e. ne (sym its ∙ e)))
          (and_no (ltb j c.size))

  shorter-Distinct : (b : ℕ) → b < c.buckets → Distinct (shorter b)
  shorter-Distinct b h = elim (ℕ_discrete b its_bucket) [
    | yes e ↦
        subst Distinct (sym (ap shorter e ∙ shorter-own))
          (Distinct-remove i (chain its_bucket) (v.distinct its_bucket its_bucket-low))
    | no ne ↦ subst Distinct (sym (shorter-other b ne)) (v.distinct b h)
  ]

  shorter_gone : (b : ℕ) → b < c.buckets → has i (shorter b) ≡ false
  shorter_gone b h = elim (ℕ_discrete b its_bucket) [
    | yes e ↦
        ap (has i) (ap shorter e ∙ shorter-own)
        ∙ has-remove i (chain its_bucket) (v.distinct its_bucket its_bucket-low)
    | no ne ↦
        ap (has i) (shorter-other b ne)
        ∙ v.member b i h
        ∙ rw (==_no its_bucket b (λ e. ne (sym e))) (and_no (ltb i c.size))
  ]

  shorter_member :
      (b j : ℕ)
      → b < c.buckets
      → j ≢ i
      → has j (shorter b) ≡ (ltb j c.size && bucket c (c.bufs j).blocknr == b)
  shorter_member b j h ne = elim (ℕ_discrete b its_bucket) [
    | yes e ↦
        ap (has j) (ap shorter e ∙ shorter-own)
        ∙ has-remove_ne i j (chain its_bucket) ne
        ∙ v.member its_bucket j its_bucket-low
        ∙ ap (λ k. ltb j c.size && bucket c (c.bufs j).blocknr == k) (sym e)
    | no other ↦ ap (has j) (shorter-other b other) ∙ v.member b j h
  ]

  module _ (u : Unlinked i its_bucket (chain its_bucket) c c') where
    shorter-HashChain : (b : ℕ) → b < c.buckets → HashChain c'.bufs (c'.buf_hash b) (shorter b)
    shorter-HashChain b h = elim (ℕ_discrete b its_bucket) [
      | yes e ↦
          subst (λ k. HashChain c'.bufs (c'.buf_hash k) (shorter k)) (sym e)
            (subst (HashChain c'.bufs (c'.buf_hash its_bucket)) (sym shorter-own) u.shorter)
      | no ne ↦ subst (HashChain c'.bufs (c'.buf_hash b)) (sym (shorter-other b ne)) (
          subst (λ p. HashChain c'.bufs p (chain b)) (sym (u.heads b ne))
            (HashChain-frame c.bufs c'.bufs (c.buf_hash b) (chain b)
              (λ j m. u.chains j (elsewhere b j h ne m)) (v.hashed b h)))
    ]

    Unlinked-HashBut : HashBut i c' shorter
    Unlinked-HashBut =
        let size : c'.size ≡ c.size = ap (λ (r : Cache). r.size) u.only.others in
        let buckets : c'.buckets ≡ c.buckets = ap (λ (r : Cache). r.buckets) u.only.others in
        let low : (b : ℕ) → b < c'.buckets → b < c.buckets = λ b h. subst (λ n. b < n) buckets h in
        record {
          positive = subst (λ n. 0 < n) (sym buckets) v.positive;
          hashed = λ b h. shorter-HashChain b (low b h);
          distinct = λ b h. shorter-Distinct b (low b h);
          gone = λ b h. shorter_gone b (low b h);
          member = λ b j h ne.
              rw (size, buckets, ap (λ (r : Buf). r.blocknr) (u.only.bufs j))
                (shorter_member b j (low b h) ne);
        }

pub unlink_hash-HashBut :
    (c : Cache) (chain : ℕ → List ℕ) (i : ℕ)
    → HashValid c chain
    → i < c.size
    → (c' : Cache) × (unlink_hash i c ≡ some c')
      × HashOnly c c'
      × HashBut i c' (without (bucket c (c.bufs i).blocknr) i chain)
unlink_hash-HashBut c chain i v l =
    let b = bucket c (c.bufs i).blocknr in
    let low = bucket-low c (c.bufs i).blocknr v.positive in
    let listed : has i (chain b) ≡ true =
      v.member b i low ∙ rw (lt→ltb i c.size l, ==_yes b b refl) refl in
    let (c', e, u) =
      unlink_hash_lem c i (chain b) (v.hashed b low) (v.distinct b low) listed
        (length-chain c chain b v low) in
    (c', e, u.only, Unlinked-HashBut c c' chain i v u)
