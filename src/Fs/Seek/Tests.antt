-- ===== src/Fs/Seek/Tests.antt =====
-- A file of 128 bytes at position 100, and the theorem on do_lseek on it.
use sdios.Prelude.{◌≡◌, refl, Option, none, some, [], ◌∷◌, arith}
use mathlib.Core.Option
use sdios.Fs.Inode.Tests.{home}
use sdios.Fs.Filedes.{Filp, get_filp}
use sdios.Fs.Seek.{do_lseek, Outcome, ok, start_of}
use sdios.Fs.Seek.Range.{Moved, do_lseek_lem}

abbrev opened : Filp
opened = record {
  mode = 1;
  flags = 0;
  count = 1;
  ino = some 0;
  pos = 100;
  selectors = 0;
  select_ops = 0;
  pipe_select_ops = 0;
}

abbrev at_end : Option Outcome
at_end = do_lseek 1 2 4294967288 (none ∷ some 0 ∷ []) (opened ∷ []) (home ∷ [])

-- Eight bytes before the end.
moved : Option.map (λ (o : Outcome). o.result) at_end ≡ some (ok 120)
unfolding do_lseek get_filp
moved = refl

-- Five bytes before the start of the file.
below :
    Option.map
      (λ (o : Outcome). o.result)
      (do_lseek 1 0 4294967291 (none ∷ some 0 ∷ []) (opened ∷ []) (home ∷ []))
    ≡ some (ok 4294967291)
unfolding do_lseek get_filp
below = refl

do_lseek_lem_example : Moved 0 opened 128 4294967288 (opened ∷ []) (home ∷ []) at_end
unfolding get_filp start_of
do_lseek_lem_example =
    do_lseek_lem 1 2 4294967288 (none ∷ some 0 ∷ []) (opened ∷ []) (home ∷ []) 0 opened 0 home 128
      refl refl refl refl refl refl (omega arith) (omega arith)
