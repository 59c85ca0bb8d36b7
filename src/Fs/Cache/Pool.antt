-- ===== src/Fs/Cache/Pool.antt =====
-- buf_pool of sdios/src/minix3fs/servers/fs/main.c: the cache that the file server starts with.
use sdios.Prelude.{
  ℕ, zero, suc, ◌+◌, ◌-◌, ◌%◌, ◌<◌, ◌≡◌, refl, sym, ap, ◌∙◌, subst, ◌&&◌, Option, none, some, List,
  [], ◌∷◌, arith, ◌==◌, ltb, leb, if◌then◌else◌, has, Distinct, length, ℕ_discrete, ==_yes, ==_no,
}
use native.Mathlib.Nat.{mod-eq_of_lt}
use sdios.Fs.Cache.{at, pool_buf, buf_pool}
use sdios.Fs.Cache.Links.{at-other}
use sdios.Fs.Cache.Chain.{Seg}
use sdios.Fs.Cache.Hash.{HashChain}
use sdios.Fs.Cache.Invariant.{IsValid}
use sdios.Fs.Cache.Coherent.{Coherent}

-- m slots from k on.
abbrev slots : ℕ → ℕ → List ℕ
slots k zero = []
slots k (suc m) = k ∷ slots (suc k) m

has-slots : (j k m : ℕ) → has j (slots k m) ≡ (leb k j && ltb j (k + m))
has-slots j k zero = ground arith
has-slots j k (suc m) = ground (arith, has-slots j (suc k) m)

Distinct-slots : (k m : ℕ) → Distinct (slots k m)
Distinct-slots k zero = tt
Distinct-slots k (suc m) = (ground (arith, has-slots k (suc k) m), Distinct-slots (suc k) m)

length-slots : (k m : ℕ) → length (slots k m) ≡ m
length-slots k zero = refl
length-slots k (suc m) = ap suc (length-slots (suc k) m)

abbrev before : ℕ → Option ℕ
before zero = none
before (suc k) = some k

abbrev behind : ℕ → ℕ → Option ℕ
behind n k = if k == n then none else some k

prev-before : (n k : ℕ) → (pool_buf n k).prev ≡ before k
prev-before n zero = refl
prev-before n (suc k) = ground arith

slots-Seg :
    (n m k : ℕ)
    → k + m ≡ n
    → 0 < n
    → Seg (pool_buf n) (before k) (behind n k) (slots k m) (some (n - 1)) none
slots-Seg n zero zero e pos = absurd (omega (arith, e, pos))
slots-Seg n zero (suc k) e pos =
    (ap some (omega (arith, e)), rw (==_yes (suc k) n (omega (arith, e))) refl)
slots-Seg n (suc m) k e pos = (
  rw (==_no k n (λ z. omega (arith, z, e))) refl,
  prev-before n k,
  slots-Seg n m (suc k) (omega (arith, e)) pos,
)

slots-HashChain : (n m k : ℕ) → k + m ≡ n → HashChain (pool_buf n) (behind n k) (slots k m)
slots-HashChain n zero k e = rw (==_yes k n (omega (arith, e))) refl
slots-HashChain n (suc m) k e =
    (rw (==_no k n (λ z. omega (arith, z, e))) refl, slots-HashChain n m (suc k) (omega (arith, e)))

abbrev pool_chain : ℕ → ℕ → List ℕ
pool_chain n = at 0 (slots 0 n) (λ b. [])

-- For a pool and a hash table that are not empty, the cache after buf_pool is well-formed.
pub buf_pool-IsValid :
    (n buckets : ℕ) (disk : ℕ → ℕ → List ℕ)
    → 0 < n
    → 0 < buckets
    → IsValid (buf_pool n buckets disk)
unfolding buf_pool
buf_pool-IsValid n buckets disk pos pos' =
    let c = buf_pool n buckets disk in
    let first : behind n 0 ≡ some 0 = rw (==_no 0 n (λ z. omega (arith, z, pos))) refl in
    let zero_bucket : 0 % buckets ≡ 0 = mod-eq_of_lt pos' in
    let listed : (j : ℕ) → has j (slots 0 n) ≡ ltb j n = λ j. has-slots j 0 n ∙ ground arith in
    record {
      lru = slots 0 n;
      lru_valid = record {
        free = (
          subst (λ p. Seg (pool_buf n) none p (slots 0 n) (some (n - 1)) none) first
              (slots-Seg n n 0 (omega arith) pos),
          Distinct-slots 0 n,
        );
        counts = λ j. listed j ∙ ground arith;
        in_use = omega (arith, length-slots 0 n);
      };
      chain = pool_chain n;
      hash_valid = record {
        positive = pos';
        hashed = λ b h. elim (ℕ_discrete b 0) [
          | yes e ↦
              subst (λ k. HashChain (pool_buf n) (c.buf_hash k) (pool_chain n k)) (sym e)
                (subst (λ p. HashChain (pool_buf n) p (slots 0 n)) first
                  (slots-HashChain n n 0 (omega arith)))
          | no ne ↦
              subst (HashChain (pool_buf n) (c.buf_hash b))
                (sym (at-other 0 (slots 0 n) (λ b. []) b ne)) (at-other 0 (some 0) (λ b. none) b ne)
        ];
        distinct = λ b h. elim (ℕ_discrete b 0) [
          | yes e ↦ subst (λ k. Distinct (pool_chain n k)) (sym e) (Distinct-slots 0 n)
          | no ne ↦ subst Distinct (sym (at-other 0 (slots 0 n) (λ b. []) b ne)) tt
        ];
        member = λ b j h. rw zero_bucket (elim (ℕ_discrete b 0) [
          | yes e ↦ ap (λ k. has j (pool_chain n k)) e ∙ listed j ∙ rw e ground arith
          | no ne ↦ ap (has j) (at-other 0 (slots 0 n) (λ b. []) b ne) ∙ ground arith
        ]);
      };
      unique = λ i j hi hj ne. absurd (ne refl);
    }

pub buf_pool-Coherent : (n buckets : ℕ) (disk : ℕ → ℕ → List ℕ) → Coherent (buf_pool n buckets disk)
unfolding buf_pool
buf_pool-Coherent n buckets disk j l ne = absurd (ne refl)
