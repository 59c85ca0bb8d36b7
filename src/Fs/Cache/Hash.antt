-- ===== src/Fs/Cache/Hash.antt =====
-- A hash chain as a list: the search of get_block, and how it takes a buffer off its chain.
use sdios.Prelude.{
  ℕ, suc, zero, ◌≤◌, ◌≡◌, refl, sym, ap, ◌∙◌, Bool, true, false, ◌&&◌, Option, none, some, List, [],
  ◌∷◌, arith, ◌==◌, if◌then◌else◌, has, Distinct, remove, subst, length, ℕ_discrete, ==_yes, ==_no,
  Bool-cases, inl, inr,
}
use mathlib.Core.Option.{some-injective}
use sdios.Fs.Cache.{Buf, Cache, at, modify}
use sdios.Fs.Cache.Links.{at-other}
use sdios.Fs.Cache.Get.{search_hash, unlink_after}

-- From the pointer p the chain is xs.
abbrev pub HashChain : (ℕ → Buf) → Option ℕ → List ℕ → Type 0
HashChain b p [] = p ≡ none
HashChain b p (x ∷ xs) = (p ≡ some x) × HashChain b (b x).hash xs

abbrev pub matches : ℕ → ℕ → Cache → ℕ → Bool
matches dev block c i = (c.bufs i).blocknr == block && (c.bufs i).dev == dev

abbrev pub find : (ℕ → Bool) → List ℕ → Option ℕ
find f [] = none
find f (x ∷ xs) = let rest = find f xs in if f x then some x else rest

pub HashChain-frame :
    (b b' : ℕ → Buf) (p : Option ℕ) (xs : List ℕ)
    → ((j : ℕ) → has j xs ≡ true → (b' j).hash ≡ (b j).hash)
    → HashChain b p xs
    → HashChain b' p xs
HashChain-frame b b' p [] f s = s
HashChain-frame b b' p (x ∷ xs) f (at_x, s) =
    let tail = HashChain-frame b b' (b x).hash xs (λ j h. f j (ground (arith, h))) s in
    (at_x, rw (f x (ground arith)) tail)

-- The search finds what a search of the list finds, with fuel for its length.
pub search_hash-find :
    (fuel dev block : ℕ) (c : Cache) (p : Option ℕ) (xs : List ℕ)
    → HashChain c.bufs p xs
    → length xs ≤ fuel
    → search_hash fuel dev block c p ≡ find (matches dev block c) xs
unfolding search_hash
search_hash-find zero dev block c p [] s l = refl
search_hash-find (suc fuel) dev block c p [] s l = rw s refl
search_hash-find zero dev block c p (x ∷ xs) s l = absurd (omega (arith, l))
search_hash-find (suc fuel) dev block c p (x ∷ xs) (at_x, s) l =
    rw (at_x, search_hash-find fuel dev block c (c.bufs x).hash xs s (omega (arith, l)))

pub find-some :
    (f : ℕ → Bool) (xs : List ℕ) (i : ℕ) → find f xs ≡ some i → (has i xs ≡ true) × (f i ≡ true)
find-some f [] i e = absurd (ground (arith, e))
find-some f (x ∷ xs) i e = elim (Bool-cases (f x)) [
  | inl yes_x ↦
      let same = some-injective x i (sym (ap (λ t. if t then some x else find f xs) yes_x) ∙ e) in
      (ground (arith, same), ap f (sym same) ∙ yes_x)
  | inr no_x ↦
      let (member, holds) =
        find-some f xs i (sym (ap (λ t. if t then some x else find f xs) no_x) ∙ e) in
      (ground (arith, member), holds)
]

pub find-none :
    (f : ℕ → Bool) (xs : List ℕ) (i : ℕ) → find f xs ≡ none → has i xs ≡ true → f i ≡ false
find-none f [] i e h = absurd (ground (arith, h))
find-none f (x ∷ xs) i e h = elim (Bool-cases (f x)) [
  | inl yes_x ↦ absurd (ground (arith, sym (ap (λ t. if t then some x else find f xs) yes_x) ∙ e))
  | inr no_x ↦
      let rest = sym (ap (λ t. if t then some x else find f xs) no_x) ∙ e in
      elim (ℕ_discrete x i) [
        | yes same ↦ ap f (sym same) ∙ no_x
        | no ne ↦ find-none f xs i rest (ground (arith, h))
      ]
]

-- The pointer to a buffer, in the buffer before it, is replaced by the one to the buffer behind it.
pub unlink_after_lem :
    (fuel : ℕ) (c : Cache) (x i : ℕ) (xs : List ℕ)
    → HashChain c.bufs (c.bufs x).hash xs
    → has x xs ≡ false
    → Distinct xs
    → has i xs ≡ true
    → length xs ≤ fuel
    → (y : ℕ) × (unlink_after fuel x (c.bufs x).hash i c
        ≡ modify y (λ b. record b { hash = (c.bufs i).hash }) c)
      × (has y (x ∷ xs) ≡ true)
      × HashChain
          (at y (record (c.bufs y) { hash = (c.bufs i).hash }) c.bufs)
          (some x)
          (x ∷ remove i xs)
unfolding unlink_after
unlink_after_lem fuel c x i [] s out d h l = absurd (ground (arith, h))
unlink_after_lem zero c x i (z ∷ zs) s out d h l = absurd (omega (arith, l))
unlink_after_lem (suc fuel) c x i (z ∷ zs) (at_z, s) out (n, d) h l = elim (ℕ_discrete z i) [
  | yes same ↦
      let r : Buf = record (c.bufs x) { hash = (c.bufs i).hash } in
      let b' = at x r c.bufs in
      let own : b' x ≡ r = ground arith in
      let kept : (j : ℕ) → has j zs ≡ true → (b' j).hash ≡ (c.bufs j).hash =
        λ j m. ap (λ (r : Buf). r.hash) (at-other x r c.bufs j (λ e. ground (arith, m, out, e))) in
      let behind = subst (λ k. HashChain c.bufs (c.bufs k).hash zs) same s in
      let tail = HashChain-frame c.bufs b' (c.bufs i).hash zs kept behind in
      (
        x,
        rw (at_z, ==_yes z i same) refl,
        ground arith,
        (
          refl,
          subst (HashChain b' (b' x).hash)
              (sym (ap (λ t. if t then zs else z ∷ remove i zs) (==_yes z i same)))
              (subst (λ p. HashChain b' p zs) (sym (ap (λ (r : Buf). r.hash) own)) tail),
        ),
      )
  | no ne ↦
      let (y, eq, member, (at_next, tail)) =
        unlink_after_lem fuel c z i zs s n d (ground (arith, h)) (omega (arith, l)) in
      let r : Buf = record (c.bufs y) { hash = (c.bufs i).hash } in
      let b' = at y r c.bufs in
      let kept : b' x ≡ c.bufs x = at-other y r c.bufs x (λ e. ground (arith, member, out, e)) in
      let next = ap (λ (r : Buf). r.hash) kept ∙ at_z in
      (
        y,
        rw (at_z, ==_no z i ne) eq,
        ground (arith, member),
        (
          refl,
          subst (HashChain b' (b' x).hash)
              (sym (ap (λ t. if t then zs else z ∷ remove i zs) (==_no z i ne))) (next, tail),
        ),
      )
]
