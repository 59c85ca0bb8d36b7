-- ===== src/Fs/Cache/Links.antt =====
-- What set_next and set_prev do to the chain of the free buffers, and what they leave alone.
use sdios.Prelude.{
  ℕ, ◌≡◌, ◌≢◌, refl, sym, ap, ◌∙◌, true, Option, none, some, List, [], ◌∷◌, arith, has, Distinct,
  ==_no, ==_yes, subst,
}
use mathlib.Core.Option.{some-injective}
use sdios.Fs.Cache.{Buf, Cache, at, set_next, set_prev}
use sdios.Fs.Cache.Chain.{Seg, SameLinks, Seg-frame, Seg-some, Seg-aim, Seg-last}

pub at-other {ℓ} : {A : Type ℓ} (i : ℕ) (v : A) (f : ℕ → A) (j : ℕ) → j ≢ i → at i v f j ≡ f j
at-other i v f j ne = rw (==_no j i ne) refl

pub at_self {ℓ} : {A : Type ℓ} (i : ℕ) (v : A) (f : ℕ → A) → at i v f i ≡ v
at_self i v f = rw (==_yes i i refl) refl

-- A buffer that is not written to.
pub set_next-other :
    (q p : Option ℕ) (c : Cache) (j : ℕ) → some j ≢ q → (set_next q p c).bufs j ≡ c.bufs j
unfolding set_next
set_next-other none p c j ne = refl
set_next-other (some y) p c j ne =
    at-other y (record (c.bufs y) { next = p }) c.bufs j (λ e. ne (ap some e))

pub set_prev-other :
    (p q : Option ℕ) (c : Cache) (j : ℕ) → some j ≢ p → (set_prev p q c).bufs j ≡ c.bufs j
unfolding set_prev
set_prev-other none q c j ne = refl
set_prev-other (some z) q c j ne =
    at-other z (record (c.bufs z) { prev = q }) c.bufs j (λ e. ne (ap some e))

pub set_next-rear : (q p : Option ℕ) (c : Cache) → (set_next q p c).rear ≡ c.rear
unfolding set_next
set_next-rear none p c = refl
set_next-rear (some y) p c = refl

pub set_prev-front : (p q : Option ℕ) (c : Cache) → (set_prev p q c).front ≡ c.front
unfolding set_prev
set_prev-front none q c = refl
set_prev-front (some z) q c = refl

-- The stretch from the front is made to end at p.
pub set_next-Seg :
    (c : Cache) (ys : List ℕ) (q x p : Option ℕ)
    → Distinct ys
    → Seg c.bufs none c.front ys q x
    → Seg (set_next q p c).bufs none (set_next q p c).front ys q p
unfolding set_next
set_next-Seg c [] none x p d s = (refl, refl)
set_next-Seg c (y ∷ ys) none x p d (at_y, back, s) =
    absurd (Seg-some c.bufs y (c.bufs y).next ys x s)
set_next-Seg c [] (some y) x p d (e, e') = absurd (ground (arith, e))
set_next-Seg c (y ∷ ys) (some last) x p d s = Seg-aim c.bufs last p none c.front y ys x d s

-- The stretch to the rear is made to start behind q.
pub set_prev-Seg :
    (c : Cache) (zs : List ℕ) (p q0 q : Option ℕ)
    → Distinct zs
    → Seg c.bufs q0 p zs c.rear none
    → Seg (set_prev p q c).bufs q p zs (set_prev p q c).rear none
unfolding set_prev
set_prev-Seg c [] none q0 q d s = (refl, refl)
set_prev-Seg c (z ∷ zs) none q0 q d (at_z, back, s) = absurd (ground (arith, at_z))
set_prev-Seg c [] (some i) q0 q d (e, e') = absurd (ground (arith, e'))
set_prev-Seg c (z ∷ zs) (some i) q0 q (n, d) (at_z, back, s) =
    let same = some-injective i z at_z in
    let b = at i (record (c.bufs i) { prev = q }) c.bufs in
    let kept : (j : ℕ) → has j zs ≡ true → SameLinks (c.bufs j) (b j) = λ j h.
      let ne : j ≢ i = λ e. ground (arith, h, n, e, same) in
      let eq = at-other i (record (c.bufs i) { prev = q }) c.bufs j ne in
      (ap (λ (r : Buf). r.next) eq, ap (λ (r : Buf). r.prev) eq) in
    let tail = Seg-frame c.bufs b (some z) (c.bufs z).next zs c.rear none kept s in
    (
      at_z,
      ground (arith, same),
      subst (λ p. Seg b (some z) p zs c.rear none) (ground (arith, same)) tail,
    )

-- A stretch with none of the buffers that are written to.
pub set_next-frame :
    (c : Cache) (q p q0 p0 : Option ℕ) (xs : List ℕ) (q1 p1 : Option ℕ)
    → ((j : ℕ) → has j xs ≡ true → some j ≢ q)
    → Seg c.bufs q0 p0 xs q1 p1
    → Seg (set_next q p c).bufs q0 p0 xs q1 p1
set_next-frame c q p q0 p0 xs q1 p1 f = Seg-frame c.bufs (set_next q p c).bufs q0 p0 xs q1 p1 λ j h.
    let eq = set_next-other q p c j (f j h) in
    (ap (λ (r : Buf). r.next) eq, ap (λ (r : Buf). r.prev) eq)

pub set_prev-frame :
    (c : Cache) (p q q0 p0 : Option ℕ) (xs : List ℕ) (q1 p1 : Option ℕ)
    → ((j : ℕ) → has j xs ≡ true → some j ≢ p)
    → Seg c.bufs q0 p0 xs q1 p1
    → Seg (set_prev p q c).bufs q0 p0 xs q1 p1
set_prev-frame c p q q0 p0 xs q1 p1 f = Seg-frame c.bufs (set_prev p q c).bufs q0 p0 xs q1 p1 λ j h.
    let eq = set_prev-other p q c j (f j h) in
    (ap (λ (r : Buf). r.next) eq, ap (λ (r : Buf). r.prev) eq)

-- The pointers at the ends of a stretch point to its buffers, or are those it was given.
pub Seg-first :
    (b : ℕ → Buf) (q p : Option ℕ) (xs : List ℕ) (q' : Option ℕ) (j : ℕ)
    → Seg b q p xs q' none
    → p ≡ some j
    → has j xs ≡ true
Seg-first b q p [] q' j (e, e') at_j = absurd (ground (arith, e', at_j))
Seg-first b q p (x ∷ xs) q' j (at_x, back, s) at_j =
    ground (arith, some-injective x j (sym at_x ∙ at_j))

pub Seg-back :
    (b : ℕ → Buf) (p : Option ℕ) (xs : List ℕ) (q' p' : Option ℕ) (j : ℕ)
    → Seg b none p xs q' p'
    → q' ≡ some j
    → has j xs ≡ true
Seg-back b p [] q' p' j (e, e') at_j = absurd (ground (arith, e, at_j))
Seg-back b p (x ∷ xs) q' p' j s at_j =
    Seg-last b none p x xs j p' (subst (λ q. Seg b none p (x ∷ xs) q p') at_j s)
