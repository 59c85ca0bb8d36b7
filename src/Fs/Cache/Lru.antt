-- ===== src/Fs/Cache/Lru.antt =====
-- The chain of the free buffers as a list, from front to rear: what rm_lru and the two ways of put_block
-- to link a buffer do to the list.
use sdios.Prelude.{
  ℕ, suc, ◌≡◌, ◌≢◌, refl, sym, ap, ◌∙◌, true, false, Option, none, some, List, [], ◌∷◌, ◌++◌, arith,
  has, Distinct, remove, has-append, remove-middle, apart, Distinct-remove, subst,
}
use sdios.Fs.Cache.{Buf, Cache, modify, set_next, set_prev, rm_lru, put_front, put_rear}
use sdios.Fs.Cache.Chain.{Seg, Seg-append, Seg-split, Seg-frame, SameLinks}
use sdios.Fs.Cache.Links.{
  at-other, set_next-other, set_prev-other, set_next-rear, set_prev-front, set_next-Seg,
  set_prev-Seg, set_next-frame, set_prev-frame, Seg-first, Seg-back,
}

-- The free buffers are xs, in both directions.
abbrev pub Free : Cache → List ℕ → Type 0
Free c xs = Seg c.bufs none c.front xs c.rear none × Distinct xs

apart_ne : (i j : ℕ) (xs : List ℕ) → has i xs ≡ false → has j xs ≡ true → j ≢ i
apart_ne i j xs out member e = ground (arith, out, member, e)

-- The two parts of the chain around the buffer i are joined.
join :
    (c : Cache) (ys zs : List ℕ) (i : ℕ) (q p : Option ℕ)
    → Distinct ys
    → Distinct zs
    → ((j : ℕ) → has j ys ≡ true → has j zs ≡ false)
    → Seg c.bufs none c.front ys q (some i)
    → Seg c.bufs (some i) p zs c.rear none
    → let c' = set_prev p q (set_next q p c) in Seg c'.bufs none c'.front (ys ++ zs) c'.rear none
join c ys zs i q p dy dz f before behind =
    let c1 = set_next q p c in
    let c2 = set_prev p q c1 in
    let back : (j : ℕ) → has j zs ≡ true → some j ≢ q =
      λ j h e. ground (arith, h, f j (Seg-back c.bufs c.front ys q (some i) j before (sym e))) in
    let ahead : (j : ℕ) → has j ys ≡ true → some j ≢ p =
      λ j h e. ground (arith, f j h, Seg-first c.bufs (some i) p zs c.rear j behind (sym e)) in
    let s1 = set_next-Seg c ys q (some i) p dy before in
    let s2 = set_next-frame c q p (some i) p zs c.rear none back behind in
    let s2' = subst (λ r. Seg c1.bufs (some i) p zs r none) (sym (set_next-rear q p c)) s2 in
    let s3 = set_prev-frame c1 p q none c1.front ys q p ahead s1 in
    let s3' = subst (λ r. Seg c2.bufs none r ys q p) (sym (set_prev-front p q c1)) s3 in
    let s4 = set_prev-Seg c1 zs p (some i) q dz s2' in
    Seg-append c2.bufs none c2.front ys zs q p c2.rear none s3' s4

-- Where the chain of the free buffers, followed in both directions, is a list with no buffer twice:
-- rm_lru on one of its buffers, wherever it stands, makes it the list without that buffer.
pub rm_lru_lem :
    (c : Cache) (xs : List ℕ) (i : ℕ)
    → Free c xs
    → has i xs ≡ true
    → Free (rm_lru i c) (remove i xs)
unfolding rm_lru
rm_lru_lem c xs i (s, d) h =
    let (ys, zs, split, before, behind) = Seg-split c.bufs none c.front i xs c.rear none s h in
    let (a, b, dy, dz, f) = apart i ys zs (subst Distinct split d) in
    let c0 = record c { bufs_in_use = suc c.bufs_in_use } in
    let joined = join c0 ys zs i (c.bufs i).prev (c.bufs i).next dy dz f before behind in
    let left = sym (ap (remove i) split ∙ remove-middle i ys zs a) in
    (
      subst (λ l. Seg (rm_lru i c).bufs none (rm_lru i c).front l (rm_lru i c).rear none) left
          joined,
      Distinct-remove i xs d,
    )

-- The list of the free buffers with one more at its start.
pub put_front_lem :
    (c : Cache) (xs : List ℕ) (i : ℕ) → Free c xs → has i xs ≡ false → Free (put_front i c) (i ∷ xs)
unfolding put_front
put_front_lem c xs i (s, d) out =
    let r : Buf = record (c.bufs i) { prev = none; next = c.front } in
    let c' = modify i (λ b. record b { prev = none; next = c.front }) c in
    let kept : (j : ℕ) → has j xs ≡ true → SameLinks (c.bufs j) (c'.bufs j) = λ j h.
      let eq = at-other i r c.bufs j (apart_ne i j xs out h) in
      (ap (λ (r : Buf). r.next) eq, ap (λ (r : Buf). r.prev) eq) in
    let s' = Seg-frame c.bufs c'.bufs none c.front xs c.rear none kept s in
    let linked = set_prev-Seg c' xs c.front none (some i) d s' in
    let ne : some i ≢ c.front =
      λ e. ground (arith, out, Seg-first c.bufs none c.front xs c.rear i s (sym e)) in
    let own : (set_prev c.front (some i) c').bufs i ≡ r =
      set_prev-other c.front (some i) c' i ne ∙ ground arith in
    (
      (
        refl,
        ap (λ (r : Buf). r.prev) own,
        subst (λ p. Seg (put_front i c).bufs (some i) p xs (put_front i c).rear none)
            (sym (ap (λ (r : Buf). r.next) own)) linked,
      ),
      (out, d),
    )

Distinct-concat : (xs : List ℕ) (i : ℕ) → Distinct xs → has i xs ≡ false → Distinct (xs ++ i ∷ [])
Distinct-concat [] i d out = (refl, tt)
Distinct-concat (x ∷ xs) i (n, d) out =
    (ground (arith, has-append x xs (i ∷ []), n, out), Distinct-concat xs i d (ground (arith, out)))

-- The list of the free buffers with one more at its end.
pub put_rear_lem :
    (c : Cache) (xs : List ℕ) (i : ℕ)
    → Free c xs
    → has i xs ≡ false
    → Free (put_rear i c) (xs ++ i ∷ [])
unfolding put_rear
put_rear_lem c xs i (s, d) out =
    let r : Buf = record (c.bufs i) { prev = c.rear; next = none } in
    let c' = modify i (λ b. record b { prev = c.rear; next = none }) c in
    let kept : (j : ℕ) → has j xs ≡ true → SameLinks (c.bufs j) (c'.bufs j) = λ j h.
      let eq = at-other i r c.bufs j (apart_ne i j xs out h) in
      (ap (λ (r : Buf). r.next) eq, ap (λ (r : Buf). r.prev) eq) in
    let s' = Seg-frame c.bufs c'.bufs none c.front xs c.rear none kept s in
    let linked = set_next-Seg c' xs c.rear none (some i) d s' in
    let c1 = set_next c.rear (some i) c' in
    let ne : some i ≢ c.rear =
      λ e. ground (arith, out, Seg-back c.bufs c.front xs c.rear none i s (sym e)) in
    let own : c1.bufs i ≡ r = set_next-other c.rear (some i) c' i ne ∙ ground arith in
    let end : Seg c1.bufs c.rear (some i) (i ∷ []) (some i) none =
      (refl, ap (λ (r : Buf). r.prev) own, (refl, ap (λ (r : Buf). r.next) own)) in
    (
      Seg-append c1.bufs none c1.front xs (i ∷ []) c.rear (some i) (some i) none linked end,
      Distinct-concat xs i d out,
    )
