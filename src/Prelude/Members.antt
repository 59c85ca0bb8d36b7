-- ===== src/Prelude/Members.antt =====
-- Lists of numbers without repetition.
use Prim.Native.Nat.{ℕ, zero, suc, ◌≤◌, ◌<◌}
use mathlib.Core.Path.{◌≡◌, refl, sym, ◌∙◌}
use mathlib.Core.Logic.{◌≢◌}
use mathlib.Core.Bool.{Bool, true, false, ◌||◌}
use mathlib.Core.List.{List, [], ◌∷◌, ◌++◌}
use native.Mathlib.Omega.{arith}
use sdios.Prelude.Tests.{◌==◌, if◌then◌else◌, ==_yes, ==_no}
use native.Mathlib.Decide.{ℕ_discrete}
use sdios.Prelude.Lists.{length}

abbrev pub has : ℕ → List ℕ → Bool
has x [] = false
has x (y ∷ ys) = y == x || has x ys

abbrev pub Distinct : List ℕ → Type 0
Distinct [] = Unit
Distinct (x ∷ xs) = (has x xs ≡ false) × Distinct xs

-- The first occurrence is taken out.
abbrev pub remove : ℕ → List ℕ → List ℕ
remove x [] = []
remove x (y ∷ ys) = let rest = remove x ys in if y == x then ys else y ∷ rest

pub has-append : (x : ℕ) (ys zs : List ℕ) → has x (ys ++ zs) ≡ (has x ys || has x zs)
has-append x [] zs = refl
has-append x (y ∷ ys) zs = ground (arith, has-append x ys zs)

pub remove-middle : (x : ℕ) (ys zs : List ℕ) → has x ys ≡ false → remove x (ys ++ x ∷ zs) ≡ ys ++ zs
remove-middle x [] zs h = ground arith
remove-middle x (y ∷ ys) zs h = ground (arith, remove-middle x ys zs)

pub has-remove : (x : ℕ) (xs : List ℕ) → Distinct xs → has x (remove x xs) ≡ false
has-remove x [] d = refl
has-remove x (y ∷ ys) (n, d) = ground (arith, has-remove x ys d)

pub has-remove_ne : (x j : ℕ) (xs : List ℕ) → j ≢ x → has j (remove x xs) ≡ has j xs
has-remove_ne x j [] ne = refl
has-remove_ne x j (y ∷ ys) ne = ground (arith, has-remove_ne x j ys ne)

pub Distinct-remove : (x : ℕ) (xs : List ℕ) → Distinct xs → Distinct (remove x xs)
Distinct-remove x [] d = tt
Distinct-remove x (y ∷ ys) (n, d) = elim (ℕ_discrete y x) [
  | yes e ↦ rw (==_yes y x e) d
  | no ne ↦ rw (==_no y x ne) (has-remove_ne x y ys ne ∙ n, Distinct-remove x ys d)
]

-- The parts of a list without repetition, on the two sides of one number.
pub apart :
    (x : ℕ) (ys zs : List ℕ)
    → Distinct (ys ++ x ∷ zs)
    → (has x ys ≡ false)
      × (has x zs ≡ false)
      × Distinct ys
      × Distinct zs
      × ((j : ℕ) → has j ys ≡ true → has j zs ≡ false)
apart x [] zs (n, d) = (refl, n, tt, d, λ j h. absurd (ground (arith, h)))
apart x (y ∷ ys) zs (n, d) =
    let (a, b, dy, dz, f) = apart x ys zs d in
    let n' = sym (has-append y ys (x ∷ zs)) ∙ n in
    (
      ground (arith, a, n'),
      b,
      (ground (arith, n'), dy),
      dz,
      λ j h. elim (ℕ_discrete y j) [
        | yes e ↦ ground (arith, n', e)
        | no ne ↦ f j (ground (arith, h))
      ],
    )

length-remove : (x : ℕ) (xs : List ℕ) → length xs ≤ suc (length (remove x xs))
length-remove x [] = omega arith
length-remove x (y ∷ ys) = ground (arith, length-remove x ys)

pub length-remove_member :
    (x : ℕ) (xs : List ℕ) → has x xs ≡ true → length xs ≡ suc (length (remove x xs))
length-remove_member x [] h = absurd (ground (arith, h))
length-remove_member x (y ∷ ys) h = ground (arith, length-remove_member x ys)

-- There are at most n different numbers below n.
pub length-below :
    (n : ℕ) (xs : List ℕ) → Distinct xs → ((j : ℕ) → has j xs ≡ true → j < n) → length xs ≤ n
length-below zero [] d f = omega arith
length-below zero (x ∷ xs) d f = absurd (omega (arith, f x (ground arith)))
length-below (suc n) xs d f =
    let few = length-below n (remove n xs) (Distinct-remove n xs d) λ j h. elim (ℕ_discrete j n) [
      | yes e ↦ absurd (ground (arith, has-remove n xs d, h, e))
      | no ne ↦ omega (arith, ne, f j (sym (has-remove_ne n j xs ne) ∙ h))
    ] in
    omega (arith, few, length-remove n xs)
