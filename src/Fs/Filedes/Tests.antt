-- ===== src/Fs/Filedes/Tests.antt =====
-- A process with descriptors 0 and 2 in use, and the theorem of get_fd on it.
use sdios.Prelude.{ℕ, ◌≡◌, ◌≢◌, ◌≤◌, ◌<◌, refl, Option, none, some, List, [], ◌∷◌, get_elem?, set}
use sdios.Fs.Filedes.{Filp, ok, get_fd, free_fd, free_filp}
use sdios.Fs.Filedes.Search.{get_fd-ok}

abbrev busy : Filp
busy = record {
  mode = 4;
  flags = 1;
  count = 1;
  ino = some 9;
  pos = 20;
  selectors = 0;
  select_ops = 0;
  pipe_select_ops = 0;
}

abbrev idle : Filp
idle = record busy { count = 0; pos = 77 }

abbrev fds : List (Option ℕ)
fds = some 0 ∷ none ∷ some 2 ∷ none ∷ none ∷ []

abbrev reset : Filp
reset = record idle { mode = 6; pos = 0; flags = 0 }

got : get_fd 2 6 fds (busy ∷ idle ∷ busy ∷ []) ≡ ok 3 1 (busy ∷ reset ∷ busy ∷ [])
unfolding get_fd free_fd free_filp
got = refl

get_fd-ok_example :
    (2 ≤ 3)
    × (get_elem? fds 3 ≡ some none)
    × ((j : ℕ) → 2 ≤ j → j < 3 → get_elem? fds j ≢ some none)
    × ((old new : Filp) × (get_elem? (busy ∷ idle ∷ busy ∷ []) 1 ≡ some old)
        × (old.count ≡ 0)
        × (busy ∷ reset ∷ busy ∷ [] ≡ set (busy ∷ idle ∷ busy ∷ []) 1 new)
        × (new.mode ≡ 6)
        × (new.pos ≡ 0)
        × (new.count ≡ 0))
get_fd-ok_example = get_fd-ok 2 6 fds (busy ∷ idle ∷ busy ∷ []) (busy ∷ reset ∷ busy ∷ []) 3 1 got
