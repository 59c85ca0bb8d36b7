-- ===== src/Fs/Name/Tests.antt =====
-- The path "//usr///ast/x/".
use sdios.Prelude.{ℕ, ◌≡◌, refl, some, List, [], ◌∷◌, arith}
use sdios.Fs.Name.{get_name, path_names}
use sdios.Fs.Name.Components.{components, names_of, path_names-components}

abbrev path : List ℕ
path = 47 ∷ 47 ∷ 117 ∷ 115 ∷ 114 ∷ 47 ∷ 47 ∷ 47 ∷ 97 ∷ 115 ∷ 116 ∷ 47 ∷ 120 ∷ 47 ∷ []

first : get_name path ≡ some (117 ∷ 115 ∷ 114 ∷ [], 97 ∷ 115 ∷ 116 ∷ 47 ∷ 120 ∷ 47 ∷ [])
unfolding get_name
first = refl

names :
    names_of (components path) ≡ (117 ∷ 115 ∷ 114 ∷ []) ∷ (97 ∷ 115 ∷ 116 ∷ []) ∷ (120 ∷ []) ∷ []
unfolding components names_of
names = refl

path_names-components_example : path_names 15 path ≡ some (names_of (components path))
path_names-components_example = path_names-components path (omega arith)
