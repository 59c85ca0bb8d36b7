-- ===== src/Fs/Cache/Unlink.antt =====
-- How get_block takes a buffer off its hash chain, seen on the list of the chain.
use sdios.Prelude.{
  ℕ, suc, ◌≤◌, ◌≡◌, ◌≢◌, refl, sym, ap, ◌∙◌, true, false, Option, none, some, List, [], ◌∷◌, arith,
  if◌then◌else◌, has, Distinct, remove, subst, length, ℕ_discrete, ==_yes, ==_no,
}
use mathlib.Core.Option.{some-injective}
use sdios.Fs.Cache.{Buf, Cache, modify}
use sdios.Fs.Cache.Links.{at-other, at_self}
use sdios.Fs.Cache.Get.{bucket, unlink_after, unlink_from, unlink_hash, set_head}
use sdios.Fs.Cache.Hash.{HashChain, unlink_after_lem}

-- Nothing but the hash chains is changed.
pub record HashOnly (c c' : Cache) : Type 0 where
  pub bufs : (j : ℕ) → c'.bufs j ≡ record (c.bufs j) { hash = (c'.bufs j).hash }
  pub others : c' ≡ record c { bufs = c'.bufs; buf_hash = c'.buf_hash }

-- The buffer i is off the chain xs of the bucket b, and the other chains are as they were.
pub record Unlinked (i b : ℕ) (xs : List ℕ) (c c' : Cache) : Type 0 where
  pub only : HashOnly c c'
  pub shorter : HashChain c'.bufs (c'.buf_hash b) (remove i xs)
  pub chains : (j : ℕ) → has j xs ≡ false → (c'.bufs j).hash ≡ (c.bufs j).hash
  pub heads : (b' : ℕ) → b' ≢ b → c'.buf_hash b' ≡ c.buf_hash b'

modify_hash-HashOnly :
    (y : ℕ) (p : Option ℕ) (c : Cache) → HashOnly c (modify y (λ b. record b { hash = p }) c)
modify_hash-HashOnly y p c = record {
  bufs = λ j. elim (ℕ_discrete j y) [
    | yes e ↦ rw (==_yes j y e) (ap (λ k. record (c.bufs k) { hash = p }) (sym e))
    | no ne ↦ rw (==_no j y ne) refl
  ];
  others = refl;
}

unlink_from_lem :
    (c : Cache) (p : Option ℕ) (i : ℕ) (xs : List ℕ)
    → let b = bucket c (c.bufs i).blocknr in
      p ≡ c.buf_hash b
      → HashChain c.bufs p xs
      → Distinct xs
      → has i xs ≡ true
      → length xs ≤ suc c.size
      → (c' : Cache) × (unlink_from p i c ≡ some c') × Unlinked i b xs c c'
unfolding unlink_from
unlink_from_lem c p i [] e s d h l = absurd (ground (arith, h))
unlink_from_lem c none i (x ∷ xs) e (at_x, s) d h l = absurd (ground (arith, at_x))
unlink_from_lem c (some p) i (x ∷ xs) e (at_x, s) (n, d) h l =
    let b = bucket c (c.bufs i).blocknr in
    let same = some-injective p x at_x in
    elim (ℕ_discrete p i) [
      | yes found ↦
          let c' = set_head b (c.bufs i).hash c in
          let first : x ≡ i = sym same ∙ found in
          (
            c',
            ap (λ t. if t then some c' else some (unlink_after c.size p (c.bufs p).hash i c))
                (==_yes p i found),
            record {
              only = record { bufs = λ j. refl; others = refl };
              shorter =
                  subst (HashChain c.bufs (c'.buf_hash b))
                    (sym (ap (λ t. if t then xs else x ∷ remove i xs) (==_yes x i first)))
                    (subst (λ q. HashChain c.bufs q xs)
                      (sym (
                        at_self b (c.bufs i).hash c.buf_hash
                        ∙ ap (λ k. (c.bufs k).hash) (sym first)))
                      s);
              chains = λ j m. refl;
              heads = λ b' ne. at-other b (c.bufs i).hash c.buf_hash b' ne;
            },
          )
      | no other ↦
          let ne : x ≢ i = λ e. other (same ∙ e) in
          let (y, eq, member, chain) =
            unlink_after_lem c.size c x i xs s n d (ground (arith, h, ne)) (omega (arith, l)) in
          let r : Buf = record (c.bufs y) { hash = (c.bufs i).hash } in
          let c' = modify y (λ b. record b { hash = (c.bufs i).hash }) c in
          (
            c',
            ap
                  (λ t.
                    if t
                    then some (set_head b (c.bufs i).hash c)
                    else some (unlink_after c.size p (c.bufs p).hash i c))
                  (==_no p i other)
                ∙ ap (λ k. some (unlink_after c.size k (c.bufs k).hash i c)) same
                ∙ ap some eq,
            record {
              only = modify_hash-HashOnly y (c.bufs i).hash c;
              shorter =
                  subst (HashChain c'.bufs (c.buf_hash b))
                    (sym (ap (λ t. if t then xs else x ∷ remove i xs) (==_no x i ne)))
                    (subst (λ q. HashChain c'.bufs q (x ∷ remove i xs)) (sym (ap some same) ∙ e)
                      chain);
              chains = λ j m.
                  ap (λ (r : Buf). r.hash)
                    (at-other y r c.bufs j (λ e. ground (arith, m, member, e)));
              heads = λ b' ne. refl;
            },
          )
    ]

-- A buffer is found on its chain and taken off it; nothing else of the cache is changed.
pub unlink_hash_lem :
    (c : Cache) (i : ℕ) (xs : List ℕ)
    → let b = bucket c (c.bufs i).blocknr in
      HashChain c.bufs (c.buf_hash b) xs
      → Distinct xs
      → has i xs ≡ true
      → length xs ≤ c.size
      → (c' : Cache) × (unlink_hash i c ≡ some c') × Unlinked i b xs c c'
unfolding unlink_hash
unlink_hash_lem c i xs s d h l =
    unlink_from_lem c (c.buf_hash (bucket c (c.bufs i).blocknr)) i xs refl s d h (omega (arith, l))
