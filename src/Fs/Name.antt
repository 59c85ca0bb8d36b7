-- ===== src/Fs/Name.antt =====
-- Path names: get_name of sdios/src/minix3fs/servers/fs/path.c, and the loop of last_dir there over
-- the components of a path. A text is the list of its characters before the first NUL.
pub mod Components
mod Tests
use sdios.Prelude.{
  ℕ, zero, suc, ◌+◌, ◌-◌, Bool, not, ◌&&◌, Option, none, some, List, [], ◌∷◌, ◌++◌, ◌==◌, ltb, leb,
  if◌then◌else◌,
}
use mathlib.Core.Option

abbrev pub slash : ℕ
slash = b'/'

abbrev pub path_max : ℕ
path_max = 255

abbrev pub name_max : ℕ
name_max = 60

-- `while ((c = *rnp) == '/') rnp++;`, with the number of characters behind `rnp`.
unfoldable pub skip_leading : ℕ → List ℕ → ℕ × List ℕ
skip_leading n [] = (n, [])
skip_leading n (c ∷ cs) =
    let rest = skip_leading (suc n) cs in if c == slash then rest else (n, c ∷ cs)

-- The loop that copies a component, with room for `room` more characters in `string`.
unfoldable pub copy_name : ℕ → ℕ → List ℕ → List ℕ × ℕ × List ℕ
copy_name room n [] = ([], n, [])
copy_name room n (c ∷ cs) =
    let (name, n', rest) = copy_name (room - 1) (suc n) cs in
    if ltb n path_max && not (c == slash)
    then (if ltb 0 room then c ∷ name else name, n', rest)
    else ([], n, c ∷ cs)

-- `while (c == '/' && rnp < &old_name[PATH_MAX]) c = *++rnp;`
unfoldable pub skip_trailing : ℕ → List ℕ → ℕ × List ℕ
skip_trailing n [] = (n, [])
skip_trailing n (c ∷ cs) =
    let rest = skip_trailing (suc n) cs in
    if (c == slash) && ltb n path_max then rest else (n, c ∷ cs)

-- The component and the rest of the path; `none` is ENAMETOOLONG.
unfoldable pub get_name : List ℕ → Option (List ℕ × List ℕ)
unfolding skip_leading copy_name skip_trailing
get_name path =
    let (n, p) = skip_leading 0 path in
    let (name, n', p') = copy_name name_max n p in
    let (n'', rest) = skip_trailing n' p' in if leb path_max n'' then none else some (name, rest)

-- One round of the loop of last_dir after get_name: `rest` is what the later rounds yield.
unfoldable pub path_round :
    (List ℕ → Option (List (List ℕ))) → Option (List ℕ × List ℕ) → Option (List (List ℕ))
path_round rest none = none
path_round rest (some (name, [])) = some (name ∷ [])
path_round rest (some (name, c ∷ cs)) = Option.map (λ names. name ∷ names) (rest (c ∷ cs))

-- The loop of last_dir, as the components that it hands to advance and the last one, which it returns
-- in `string`. The fuel bounds the rounds; `none` is ENAMETOOLONG or no fuel.
unfoldable pub path_names : ℕ → List ℕ → Option (List (List ℕ))
unfolding path_round
path_names zero path = none
path_names (suc fuel) path = path_round (path_names fuel) (get_name path)
