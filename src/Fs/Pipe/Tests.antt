-- ===== src/Fs/Pipe/Tests.antt =====
-- A pipe with one reader, and the theorem on pipe_check on it.
use sdios.Prelude.{ℕ, ◌≡◌, refl, true, false, none, some, List, [], ◌∷◌}
use sdios.Fs.Filedes.{Filp}
use sdios.Fs.Pipe.{
  reading, writing, Checked, suspended, proceed, suspend_caller, release, find_filp, pipe_check,
  pipe_size, check_write, check_full,
}

abbrev readers : List Filp
readers =
    record {
      mode = 4;
      flags = 0;
      count = 1;
      ino = some 3;
      pos = 0;
      selectors = 0;
      select_ops = 0;
      pipe_select_ops = 0;
    }
    ∷ []

abbrev written : ℕ → Checked
written bytes = pipe_check 3 writing true bytes 100 false false 100 (pipe_size 1024) readers

-- Without blocking, more bytes than the pipe has are written in part.
in_part :
    written 8000 ≡ record { reply = proceed; canwrite = some 7068; effects = release reading ∷ [] }
unfolding pipe_check find_filp check_write check_full
in_part = refl

-- Exactly as many bytes as the pipe has suspend the caller, although it asked not to be blocked.
blocked :
    written 7168 ≡ record { reply = suspended; canwrite = none; effects = suspend_caller ∷ [] }
unfolding pipe_check find_filp check_write check_full
blocked = refl
