-- ===== src/Fs/Name/Components.antt =====
-- The components of a path, and that get_name yields them one by one.
use sdios.Prelude.{
  ℕ, zero, suc, ◌+◌, ◌-◌, ◌≤◌, ◌<◌, ◌≡◌, ◌≢◌, refl, Bool, true, false, ◌&&◌, Option, none, some,
  List, [], ◌∷◌, ◌++◌, map, ◌==◌, ltb, if◌then◌else◌, arith, length, take, ap, ◌∙◌, sym, inl, inr,
  ℕ_discrete, ◌⊎◌, lt→ltb, ==_yes, ==_no, leb_no,
}
use mathlib.Core.Option
use mathlib.Core.List.{append-nil, append_assoc}
use sdios.Fs.Name.{
  slash, path_max, name_max, skip_leading, copy_name, skip_trailing, get_name, path_round,
  path_names,
}

-- The component that has been read, when it is not empty, in front of others.
unfoldable pub push : List ℕ → List (List ℕ) → List (List ℕ)
push [] words = words
push (c ∷ cs) words = (c ∷ cs) ∷ words

-- The text before the first slash, and the text after it.
unfoldable pub first_word : List ℕ → List ℕ
first_word [] = []
first_word (c ∷ cs) = if c == slash then [] else c ∷ first_word cs

-- The components of a path whose first component starts with `word`.
unfoldable pub components_from : List ℕ → List ℕ → List (List ℕ)
unfolding push
components_from word [] = push word []
components_from word (c ∷ cs) =
    let next = components_from [] cs in
    let more = components_from (word ++ (c ∷ [])) cs in if c == slash then push word next else more

-- The texts between slashes that are not empty.
unfoldable pub components : List ℕ → List (List ℕ)
unfolding components_from
components path = components_from [] path

-- A text that is empty or starts with another character than a slash.
abbrev NoSlash : List ℕ → Type 0
NoSlash [] = Unit {0}
NoSlash (c ∷ cs) = c ≢ slash

-- What skipping slashes does to a path.
abbrev Skipped : ℕ → List ℕ → ℕ × List ℕ → Type 0
Skipped n p (n', rest) =
    NoSlash rest × (components rest ≡ components p) × (n' + length rest ≡ n + length p) × (n ≤ n')

components-slash : (c : ℕ) (cs : List ℕ) → c ≡ slash → components (c ∷ cs) ≡ components cs
unfolding components
components-slash c cs e = ground (arith, e)

skip_leading_lem : (n : ℕ) (p : List ℕ) → Skipped n p (skip_leading n p)
unfolding skip_leading
skip_leading_lem n [] = (tt, refl, refl, omega arith)
skip_leading_lem n (c ∷ cs) = elim (ℕ_discrete c slash) [
  | yes e ↦
      let (a, b, d, le) = skip_leading_lem (suc n) cs in
      rw (==_yes c slash e)
        (a, b ∙ sym (components-slash c cs e), omega (arith, d), omega (arith, le))
  | no e ↦ rw (==_no c slash e) (e, refl, refl, omega arith)
]

skip_trailing_lem : (n : ℕ) (p : List ℕ) → n + length p < path_max → Skipped n p (skip_trailing n p)
unfolding skip_trailing
skip_trailing_lem n [] l = (tt, refl, refl, omega arith)
skip_trailing_lem n (c ∷ cs) l = elim (ℕ_discrete c slash) [
  | yes e ↦
      let (a, b, d, le) = skip_trailing_lem (suc n) cs (omega (arith, l)) in
      rw (==_yes c slash e, lt→ltb n path_max (omega (arith, l)))
        (a, b ∙ sym (components-slash c cs e), omega (arith, d), omega (arith, le))
  | no e ↦ rw (==_no c slash e) (e, refl, refl, omega arith)
]

-- What copying a component does to a path.
abbrev Copied : ℕ → ℕ → List ℕ → List ℕ × ℕ × List ℕ → Type 0
Copied room n p (name, n', rest) =
    (name ≡ take room (first_word p))
    × (n' + length rest ≡ n + length p)
    × (n ≤ n')
    × ((word : List ℕ) → components_from word p ≡ push (word ++ first_word p) (components rest))

take-zero : (k : ℕ) (word : List ℕ) → k ≡ 0 → take k word ≡ []
take-zero zero word e = refl
take-zero (suc k) word e = absurd (omega arith)

take-nil : (k : ℕ) → take {A = ℕ} k [] ≡ []
take-nil zero = refl
take-nil (suc k) = refl

stop : (b : Bool) → (b && false) ≡ false
stop true = refl
stop false = refl

take_step :
    (room c : ℕ) (name word : List ℕ)
    → name ≡ take (room - 1) word
    → (if ltb 0 room then c ∷ name else name) ≡ take room (c ∷ word)
take_step zero c name word e = e ∙ take-zero (0 - 1) word (omega arith)
take_step (suc room) c name word e =
    rw (lt→ltb 0 (suc room) (omega arith))
      (ap (λ (t : List ℕ). c ∷ t) (e ∙ ap (λ (k : ℕ). take k word) (omega arith)))

components_from-slash :
    (word : List ℕ) (c : ℕ) (cs : List ℕ)
    → c ≡ slash
    → components_from word (c ∷ cs) ≡ push (word ++ []) (components (c ∷ cs))
unfolding components_from components
components_from-slash word c cs e = rw (==_yes c slash e, append-nil word) refl

components_from-more :
    (word : List ℕ) (c : ℕ) (cs : List ℕ)
    → c ≢ slash
    → components_from word (c ∷ cs) ≡ components_from (word ++ (c ∷ [])) cs
unfolding components_from
components_from-more word c cs ne = rw (==_no c slash ne) refl

copy_name_lem :
    (room n : ℕ) (p : List ℕ) → n + length p < path_max → Copied room n p (copy_name room n p)
unfolding copy_name first_word
copy_name_lem room n [] l = (
  sym (take-nil room),
  refl,
  omega arith,
  λ word. unfold components_from components first_word in rw (append-nil word) refl,
)
copy_name_lem room n (c ∷ cs) l = elim (ℕ_discrete c slash) [
  | yes e ↦
      rw (==_yes c slash e, stop (ltb n path_max))
        (sym (take-nil room), refl, omega arith, λ word. components_from-slash word c cs e)
  | no e ↦
      let (a, b, le, d) = copy_name_lem (room - 1) (suc n) cs (omega (arith, l)) in
      rw (==_no c slash e, lt→ltb n path_max (omega (arith, l)))
        (
          take_step room c _ (first_word cs) a,
          omega (arith, b),
          omega (arith, le),
          λ word.
              components_from-more word c cs e
              ∙ d (word ++ (c ∷ []))
              ∙ ap (λ (t : List ℕ). push t (components (copy_name (room - 1) (suc n) cs).2))
                  (append_assoc word (c ∷ []) (first_word cs)),
        )
]

components-from : (p : List ℕ) → components p ≡ components_from [] p
unfolding components
components-from p = refl

-- When some of the path is left, a component was taken and the rest is shorter.
abbrev Left : List ℕ → List ℕ → List ℕ → Type 0
Left p word rest = (rest ≡ []) ⊎ ((word ≢ []) × (length rest < length p))

left_of :
    (room n : ℕ) (p : List ℕ)
    → NoSlash p
    → n + length p < path_max
    → let (name, n', rest) = copy_name room n p in (rest ≡ []) ⊎ ((first_word p ≢ []) × (n < n'))
unfolding copy_name first_word
left_of room n [] a l = inl refl
left_of room n (c ∷ cs) a l =
    let (e, f, le, g) = copy_name_lem (room - 1) (suc n) cs (omega (arith, l)) in
    rw (==_no c slash a, lt→ltb n path_max (omega (arith, l)))
      (inr ((λ q. ground arith), omega (arith, le)))

-- The first component that is left, and the others.
abbrev Taken : List ℕ → Option (List ℕ × List ℕ) → Type 0
Taken p none = ⊥
Taken p (some (name, rest)) =
    (word : List ℕ) × (name ≡ take name_max word)
    × (components p ≡ push word (components rest))
    × NoSlash rest
    × Left p word rest

skip_trailing-nil : (n : ℕ) → (skip_trailing n []).1 ≡ []
unfolding skip_trailing
skip_trailing-nil n = refl

get_name_lem : (p : List ℕ) → length p < path_max → Taken p (get_name p)
unfolding get_name
get_name_lem p l =
    let (n, p1) = skip_leading 0 p in
    let (a, b, d, le0) = skip_leading_lem 0 p in
    let (name, n', p2) = copy_name name_max n p1 in
    let (e, f, le, g) = copy_name_lem name_max n p1 (omega (arith, d)) in
    let (n'', rest) = skip_trailing n' p2 in
    let (h, i, j, le2) = skip_trailing_lem n' p2 (omega (arith, d, f)) in
    let left : Left p (first_word p1) rest = elim (left_of name_max n p1 a (omega (arith, d))) [
      | inl done ↦ inl (ap (λ (q : List ℕ). (skip_trailing n' q).1) done ∙ skip_trailing-nil n')
      | inr (some_word, more) ↦ inr (some_word, omega (arith, d, f, j, le2, more))
    ] in
    rw (leb_no path_max n'' (omega (arith, d, f, j))) (
      first_word p1,
      e,
      sym b ∙ components-from p1 ∙ g [] ∙ ap (push (first_word p1)) (sym i),
      h,
      left,
    )

components_from-ne-nil : (a : ℕ) (word p : List ℕ) → components_from (a ∷ word) p ≢ []
unfolding components_from push
components_from-ne-nil a word [] = λ q. ground arith
components_from-ne-nil a word (c ∷ cs) = elim (ℕ_discrete c slash) [
  | yes e ↦ rw (==_yes c slash e) (λ q. ground arith)
  | no e ↦ rw (==_no c slash e) (components_from-ne-nil a (word ++ (c ∷ [])) cs)
]

components-ne-nil : (c : ℕ) (cs : List ℕ) → c ≢ slash → components (c ∷ cs) ≢ []
unfolding components
components-ne-nil c cs ne = rw (components_from-more [] c cs ne) (components_from-ne-nil c [] cs)

-- The names of a path: the components, cut to NAME_MAX characters; a path without components has
-- the one empty name.
unfoldable pub names_of : List (List ℕ) → List (List ℕ)
names_of [] = [] ∷ []
names_of (word ∷ words) = map (take name_max) (word ∷ words)

names_of-push :
    (word name : List ℕ) (words : List (List ℕ))
    → name ≡ take name_max word
    → word ≢ []
    → words ≢ []
    → names_of (push word words) ≡ name ∷ names_of words
unfolding names_of push
names_of-push [] name words e a b = absurd (a refl)
names_of-push (c ∷ cs) name [] e a b = absurd (b refl)
names_of-push (c ∷ cs) name (w ∷ ws) e a b =
    ap (λ (n : List ℕ). n ∷ map (take name_max) (w ∷ ws)) (sym e)

names_of-last :
    (word name : List ℕ)
    → name ≡ take name_max word
    → names_of (push word (components [])) ≡ name ∷ []
unfolding names_of push components
names_of-last [] name e = ap (λ (n : List ℕ). n ∷ []) (sym (e ∙ take-nil name_max))
names_of-last (c ∷ cs) name e = ap (λ (n : List ℕ). n ∷ []) (sym e)

path_round_lem :
    (later : List ℕ → Option (List (List ℕ))) (p : List ℕ) (r : Option (List ℕ × List ℕ))
    → ((q : List ℕ) → length q < length p → later q ≡ some (names_of (components q)))
    → Taken p r
    → path_round later r ≡ some (names_of (components p))
unfolding path_round
path_round_lem later p none ih t = absurd t
path_round_lem later p (some (name, [])) ih (word, cut, parts, a, left) =
    ap some (sym (ap names_of parts ∙ names_of-last word name cut))
path_round_lem later p (some (name, c ∷ cs)) ih (word, cut, parts, a, left) = elim left [
  | inl done ↦ absurd (ground arith)
  | inr (some_word, less) ↦
      ap (Option.map (λ names. name ∷ names)) (ih (c ∷ cs) less)
      ∙ ap some (
          sym (
            ap names_of parts
            ∙ names_of-push word name (components (c ∷ cs)) cut some_word
                (components-ne-nil c cs a)))
]

path_names-fuel :
    (fuel : ℕ) (p : List ℕ)
    → length p < fuel
    → length p < path_max
    → path_names fuel p ≡ some (names_of (components p))
unfolding path_names
path_names-fuel zero p f l = absurd (omega arith)
path_names-fuel (suc fuel) p f l =
    path_round_lem (path_names fuel) p (get_name p)
      (λ q less. path_names-fuel fuel q (omega (arith, f, less)) (omega (arith, l, less)))
      (get_name_lem p l)

-- A path of fewer than PATH_MAX characters is parsed without an error, in at most one round more than
-- it has characters: the rounds of last_dir yield its components, the texts between slashes that
-- are not empty, in their order and each cut to NAME_MAX characters, or one empty name when the
-- path has no component.
pub path_names-components :
    (p : List ℕ)
    → length p < path_max
    → path_names (suc (length p)) p ≡ some (names_of (components p))
path_names-components p l = path_names-fuel (suc (length p)) p (omega arith) l
