-- ===== src/Fs/Directory/Names.antt =====
-- The comparison of names is an equivalence, and padding a name with zeros does not change it.
use sdios.Prelude.{
  ℕ, zero, suc, ◌<◌, ◌≡◌, refl, true, List, [], ◌∷◌, ◌++◌, arith, sym, ◌∙◌, get_or, take, drop,
  replicate, ==_yes, ◌==◌, if◌then◌else◌, ◌≢◌, ◌↔◌, length,
}
use sdios.Fs.Name.{name_max}
use sdios.Fs.Directory.{same_name, padded}

pub same_name_refl : (n : ℕ) (s : List ℕ) → same_name n s s ≡ true
unfolding same_name
same_name_refl zero s = refl
same_name_refl (suc n) s =
    rw (==_yes (get_or s 0 0) (get_or s 0 0) refl) (ground (arith, same_name_refl n (drop 1 s)))

pub same_name_symm : (n : ℕ) (s t : List ℕ) → same_name n s t ≡ same_name n t s
unfolding same_name
same_name_symm zero s t = refl
same_name_symm (suc n) s t = ground (arith, same_name_symm n (drop 1 s) (drop 1 t))

pub same_name_trans :
    (n : ℕ) (s t u : List ℕ) → same_name n s t ≡ true → same_name n t u ≡ same_name n s u
unfolding same_name
same_name_trans zero s t u e = refl
same_name_trans (suc n) s t u e = ground (arith, same_name_trans n (drop 1 s) (drop 1 t) (drop 1 u))

get_or-drop : (s : List ℕ) (j : ℕ) → get_or (drop 1 s) j 0 ≡ get_or s (suc j) 0
get_or-drop [] j = refl
get_or-drop (c ∷ s) j = refl

-- Only the first n characters matter.
same_name-agree :
    (n : ℕ) (s s' t : List ℕ)
    → ((j : ℕ) → j < n → get_or s j 0 ≡ get_or s' j 0)
    → same_name n s t ≡ same_name n s' t
unfolding same_name
same_name-agree zero s s' t h = refl
same_name-agree (suc n) s s' t h = ground (
  arith,
  h 0 (omega arith),
  same_name-agree n (drop 1 s) (drop 1 s') (drop 1 t)
      (λ j l. get_or-drop s j ∙ h (suc j) (omega (arith, l)) ∙ sym (get_or-drop s' j)),
)

get_or-replicate : (m j : ℕ) → get_or {A = ℕ} (replicate {A = ℕ} m 0) j 0 ≡ 0
get_or-replicate zero j = refl
get_or-replicate (suc m) zero = refl
get_or-replicate (suc m) (suc j) = get_or-replicate m j

get_or-append : (s : List ℕ) (m j : ℕ) → get_or (s ++ replicate m 0) j 0 ≡ get_or s j 0
get_or-append [] m j = get_or-replicate m j
get_or-append (c ∷ s) m zero = refl
get_or-append (c ∷ s) m (suc j) = get_or-append s m j

get_or-take : (n j : ℕ) (s : List ℕ) → j < n → get_or (take n s) j 0 ≡ get_or s j 0
get_or-take zero j s l = absurd (omega arith)
get_or-take (suc n) j [] l = refl
get_or-take (suc n) zero (c ∷ s) l = refl
get_or-take (suc n) (suc j) (c ∷ s) l = get_or-take n j s (omega (arith, l))

pub same_name-padded : (s t : List ℕ) → same_name name_max (padded s) t ≡ same_name name_max s t
unfolding padded
same_name-padded s t =
    same_name-agree name_max (take name_max (s ++ replicate name_max 0)) s t
      (λ j l. get_or-take name_max j (s ++ replicate name_max 0) l ∙ get_or-append s name_max j)

-- The text that a char array holds: what stands before the first NUL, or the whole array.
abbrev pub text : List ℕ → List ℕ
text [] = []
text (c ∷ s) = if c == 0 then [] else c ∷ text s

-- A text, without a NUL in it.
abbrev pub IsText : List ℕ → Type 0
IsText [] = Unit
IsText (c ∷ t) = (c ≢ 0) × IsText t

-- An array compares equal to a text, over more characters than the text has, when it holds that text.
pub same_name-text :
    (n : ℕ) (s t : List ℕ) → IsText t → length t < n → (same_name n s t ≡ true) ↔ (text s ≡ t)
unfolding same_name
same_name-text zero s t w l = absurd (omega (arith, l))
same_name-text (suc n) [] [] w l = ground arith
same_name-text (suc n) (c ∷ s) [] w l = ground arith
same_name-text (suc n) [] (d ∷ t) (ne, w) l = ground (arith, ne)
same_name-text (suc n) (c ∷ s) (d ∷ t) (ne, w) l =
    ground (arith, ne, same_name-text n s t w (omega (arith, l)))
