-- ===== src/Fs/Cache/Sort/Count.antt =====
-- The Shell sort of rw_scattered only moves the buffers of its queue.
use sdios.Prelude.{
  ℕ, zero, suc, ◌+◌, ◌-◌, ◌/◌, ◌≤◌, ◌<◌, ◌≡◌, refl, sym, ap, ◌∙◌, Bool, true, false, ◌&&◌, List, [],
  ◌∷◌, arith, ◌==◌, ltb, leb, if◌then◌else◌, get_or, set, length, length-set, has, get_or-set_self,
  get_or-set_ne, ℕ_discrete,
}
use sdios.Fs.Cache.Sort.{swap, sink, sort_gap, widen, narrow, shell_sort}

abbrev pub one_if : Bool → ℕ
one_if true = 1
one_if false = 0

-- How often a number stands in a list.
abbrev pub times : ℕ → List ℕ → ℕ
times x [] = 0
times x (y ∷ ys) = one_if (y == x) + times x ys

-- A list with the same numbers, each as often.
abbrev pub Rearranged : List ℕ → List ℕ → Type 0
Rearranged q q' = (length q' ≡ length q) × ((x : ℕ) → times x q' ≡ times x q)

Rearranged-trans : (a b c : List ℕ) → Rearranged a b → Rearranged b c → Rearranged a c
Rearranged-trans a b c (l, f) (m, g) = (m ∙ l, λ x. g x ∙ f x)

Rearranged-if :
    (b : Bool) (q q' q'' : List ℕ)
    → Rearranged q q'
    → Rearranged q q''
    → Rearranged q (if b then q' else q'')
Rearranged-if true q q' q'' r r' = r
Rearranged-if false q q' q'' r r' = r'

times-set :
    (x : ℕ) (q : List ℕ) (i v : ℕ)
    → i < length q
    → times x (set q i v) + one_if (get_or q i 0 == x) ≡ times x q + one_if (v == x)
times-set x [] i v h = absurd (omega (arith, h))
times-set x (y ∷ ys) zero v h = omega arith
times-set x (y ∷ ys) (suc i) v h = omega (arith, times-set x ys i v (omega (arith, h)))

swap-Rearranged : (q : List ℕ) (i k : ℕ) → i < length q → k < length q → Rearranged q (swap i k q)
swap-Rearranged q i k hi hk =
    let a = get_or q i 0 in
    let b = get_or q k 0 in
    let q1 = set q i b in
    let kept : get_or q1 k 0 ≡ b = elim (ℕ_discrete i k) [
      | yes e ↦ ap (λ m. get_or q1 m 0) (sym e) ∙ get_or-set_self q b 0 hi
      | no ne ↦ get_or-set_ne q b 0 ne
    ] in
    (
      length-set q1 k a ∙ length-set q i b,
      λ x.
          let first = times-set x q i b hi in
          let second = times-set x q1 k a (omega (arith, hk, length-set q i b)) in
          let same : one_if (get_or q1 k 0 == x) ≡ one_if (b == x) =
            ap (λ m. one_if (m == x)) kept in
          omega (arith, first, second, same),
    )

pub sink-Rearranged :
    (fuel : ℕ) (key : ℕ → ℕ) (gap k : ℕ) (q : List ℕ)
    → k < length q
    → Rearranged q (sink fuel key gap k q)
unfolding sink
sink-Rearranged zero key gap k q h = (refl, λ x. refl)
sink-Rearranged (suc fuel) key gap k q h =
    let i = k - gap in
    let low : i < length q = omega (arith, h) in
    let q1 = swap i k q in
    let r = swap-Rearranged q i k low h in
    Rearranged-if (leb gap k && ltb (key (get_or q k 0)) (key (get_or q i 0))) q
      (sink fuel key gap i q1) q
      (Rearranged-trans q q1 (sink fuel key gap i q1) r
        (sink-Rearranged fuel key gap i q1 (omega (arith, low, r.0))))
      (refl, λ x. refl)

pub sort_gap-Rearranged :
    (n : ℕ) (key : ℕ → ℕ) (gap j : ℕ) (q : List ℕ)
    → (0 < n → j + n ≤ length q)
    → Rearranged q (sort_gap n key gap j q)
unfolding sort_gap
sort_gap-Rearranged zero key gap j q h = (refl, λ x. refl)
sort_gap-Rearranged (suc n) key gap j q h =
    let bound = h (omega arith) in
    let q1 = sink (suc j) key gap j q in
    let r = sink-Rearranged (suc j) key gap j q (omega (arith, bound)) in
    Rearranged-trans q q1 (sort_gap n key gap (suc j) q1) r
      (sort_gap-Rearranged n key gap (suc j) q1 (λ p. omega (arith, bound, r.0)))

narrow-Rearranged :
    (fuel : ℕ) (key : ℕ → ℕ) (gap : ℕ) (q : List ℕ) → Rearranged q (narrow fuel key gap q)
unfolding narrow
narrow-Rearranged zero key gap q = (refl, λ x. refl)
narrow-Rearranged (suc fuel) key gap q =
    let g = gap / 3 in
    let q1 = sort_gap (length q - g) key g g q in
    Rearranged-if (gap == 1) q q (narrow fuel key g q1) (refl, λ x. refl)
      (Rearranged-trans q q1 (narrow fuel key g q1)
        (sort_gap-Rearranged (length q - g) key g g q (λ p. omega (arith, p)))
        (narrow-Rearranged fuel key g q1))

pub shell_sort-Rearranged : (key : ℕ → ℕ) (q : List ℕ) → Rearranged q (shell_sort key q)
unfolding shell_sort
shell_sort-Rearranged key q =
    narrow-Rearranged (suc (length q)) key (widen (length q) (length q) 1) q

has-times : (x : ℕ) (q : List ℕ) → has x q ≡ ltb 0 (times x q)
has-times x [] = refl
has-times x (y ∷ ys) = elim (ℕ_discrete y x) [
  | yes e ↦ ground (arith, e)
  | no ne ↦ ground (arith, has-times x ys, ne)
]

pub Rearranged-has : (q q' : List ℕ) → Rearranged q q' → (x : ℕ) → has x q' ≡ has x q
Rearranged-has q q' (l, f) x = has-times x q' ∙ ap (ltb 0) (f x) ∙ sym (has-times x q)
