-- ===== src/Fs/Cache/Chain.antt =====
-- The chain of the buffers that are not in use, followed in both directions, and a hash chain.
use sdios.Prelude.{
  ℕ, ◌≡◌, ◌≢◌, refl, sym, ap, ◌∙◌, true, Option, none, some, List, [], ◌∷◌, ◌++◌, arith, ℕ_discrete,
  subst, has, Distinct, ==_no,
}
use mathlib.Core.Option.{some-injective}
use sdios.Fs.Cache.{Buf, at}

-- A stretch of the chain: from a pointer p, with q before it, over the buffers xs, it comes to the pointer
-- p', with q' before it.
abbrev pub Seg : (ℕ → Buf) → Option ℕ → Option ℕ → List ℕ → Option ℕ → Option ℕ → Type 0
Seg b q p [] q' p' = (q ≡ q') × (p ≡ p')
Seg b q p (x ∷ xs) q' p' = (p ≡ some x) × ((b x).prev ≡ q) × Seg b (some x) (b x).next xs q' p'

abbrev pub SameLinks : Buf → Buf → Type 0
SameLinks b b' = (b'.next ≡ b.next) × (b'.prev ≡ b.prev)

pub Seg-frame :
    (b b' : ℕ → Buf) (q p : Option ℕ) (xs : List ℕ) (q' p' : Option ℕ)
    → ((j : ℕ) → has j xs ≡ true → SameLinks (b j) (b' j))
    → Seg b q p xs q' p'
    → Seg b' q p xs q' p'
Seg-frame b b' q p [] q' p' f s = s
Seg-frame b b' q p (x ∷ xs) q' p' f (at_x, back, rest) =
    let (n, r) = f x (ground arith) in
    let tail = Seg-frame b b' (some x) (b x).next xs q' p' (λ j h. f j (ground (arith, h))) rest in
    (at_x, r ∙ back, rw n tail)

pub Seg-append :
    (b : ℕ → Buf) (q p : Option ℕ) (ys zs : List ℕ) (q1 p1 q' p' : Option ℕ)
    → Seg b q p ys q1 p1
    → Seg b q1 p1 zs q' p'
    → Seg b q p (ys ++ zs) q' p'
Seg-append b q p [] zs q1 p1 q' p' (e, e') t = rw (e, e') t
Seg-append b q p (y ∷ ys) zs q1 p1 q' p' (at_y, back, s) t =
    (at_y, back, Seg-append b (some y) (b y).next ys zs q1 p1 q' p' s t)

-- A buffer of the chain, the buffers before it and those behind it.
pub Seg-split :
    (b : ℕ → Buf) (q p : Option ℕ) (x : ℕ) (xs : List ℕ) (q' p' : Option ℕ)
    → Seg b q p xs q' p'
    → has x xs ≡ true
    → (ys : List ℕ) × (zs : List ℕ) × (xs ≡ ys ++ x ∷ zs)
      × Seg b q p ys (b x).prev (some x)
      × Seg b (some x) (b x).next zs q' p'
Seg-split b q p x [] q' p' s h = absurd (ground (arith, h))
Seg-split b q p x (y ∷ ys) q' p' (at_y, back, s) h = elim (ℕ_discrete y x) [
  | yes e ↦ (
    [],
    ys,
    rw e refl,
    (sym back ∙ ap (λ j. (b j).prev) e, at_y ∙ ap some e),
    subst (λ j. Seg b (some j) (b j).next ys q' p') e s,
  )
  | no ne ↦
      let (front_part, zs, split, before, behind) =
        Seg-split b (some y) (b y).next x ys q' p' s (ground (arith, h, ne)) in
      (y ∷ front_part, zs, ap (◌∷◌ y) split, (at_y, back, before), behind)
]

-- Behind a buffer there is always one before.
pub Seg-some :
    (b : ℕ → Buf) (x : ℕ) (p : Option ℕ) (xs : List ℕ) (p' : Option ℕ)
    → ¬ Seg b (some x) p xs none p'
Seg-some b x p [] p' (e, e') = ground (arith, e)
Seg-some b x p (y ∷ ys) p' (at_y, back, s) = Seg-some b y (b y).next ys p' s

pub Seg-last :
    (b : ℕ → Buf) (q p : Option ℕ) (x : ℕ) (xs : List ℕ) (y : ℕ) (p' : Option ℕ)
    → Seg b q p (x ∷ xs) (some y) p'
    → has y (x ∷ xs) ≡ true
Seg-last b q p x [] y p' (at_x, back, (e, e')) = ground (arith, some-injective x y e)
Seg-last b q p x (z ∷ zs) y p' (at_x, back, s) =
    ground (arith, Seg-last b (some x) (b x).next z zs y p' s)

module _ (b : ℕ → Buf) (y : ℕ) (p : Option ℕ) where
  abbrev aimed : ℕ → Buf
  aimed = at y (record (b y) { next = p }) b

  -- The last buffer of a stretch is aimed at another buffer.
  pub Seg-aim :
      (q0 p0 : Option ℕ) (x : ℕ) (xs : List ℕ) (p' : Option ℕ)
      → Distinct (x ∷ xs)
      → Seg b q0 p0 (x ∷ xs) (some y) p'
      → Seg aimed q0 p0 (x ∷ xs) (some y) p
  Seg-aim q0 p0 x [] p' d (at_x, back, (e, e')) =
      let same = some-injective x y e in (at_x, ground (arith, back), (e, ground (arith, same)))
  Seg-aim q0 p0 x (z ∷ zs) p' (n, d) (at_x, back, s) =
      let last = Seg-last b (some x) (b x).next z zs y p' s in
      let ne : x ≢ y = λ e. ground (arith, last, n, e) in
      let kept : aimed x ≡ b x = rw (==_no x y ne) refl in
      let tail = Seg-aim (some x) (b x).next z zs p' d s in
      (at_x, ap (λ (r : Buf). r.prev) kept ∙ back, rw (ap (λ (r : Buf). r.next) kept) tail)
