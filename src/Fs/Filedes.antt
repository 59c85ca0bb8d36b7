-- ===== src/Fs/Filedes.antt =====
-- File descriptors: get_fd and get_filp of sdios/src/minix3fs/servers/fs/filedes.c, with
-- struct filp of file.h. Pointers into the filp and inode tables are slots.
pub mod Search
mod Tests
use sdios.Prelude.{
  ℕ, suc, ◌+◌, Bool, true, false, Option, none, some, List, [], ◌∷◌, ◌==◌, leb, if◌then◌else◌, ◌&&◌,
  not, drop, set, get_or,
}
use mathlib.Core.Option

pub record Filp : Type 0 where
  pub mode : ℕ
  pub flags : ℕ
  pub count : ℕ
  pub ino : Option ℕ
  pub pos : ℕ
  pub selectors : ℕ
  pub select_ops : ℕ
  pub pipe_select_ops : ℕ

pub data FdResult : Type 0 where
  ok : ℕ → ℕ → List Filp → FdResult
  emfile enfile : FdResult

-- The first descriptor from `i` on that is not in use.
unfoldable pub free_fd : ℕ → List (Option ℕ) → Option ℕ
free_fd i [] = none
free_fd i (none ∷ fds) = some i
free_fd i (some f ∷ fds) = free_fd (suc i) fds

-- The first slot whose count is 0, with what the slot holds.
unfoldable pub free_filp : ℕ → List Filp → Option (ℕ × Filp)
free_filp i [] = none
free_filp i (f ∷ filps) =
    let rest = free_filp (suc i) filps in if f.count == 0 then some (i, f) else rest

-- On success the descriptor, the slot and the table with the slot's fields reset; neither is claimed.
unfoldable pub get_fd : ℕ → ℕ → List (Option ℕ) → List Filp → FdResult
unfolding free_fd free_filp
get_fd start bits fds filps = elim (free_fd start (drop start fds)) [
  | none ↦ emfile
  | some k ↦ elim (free_filp 0 filps) [
    | none ↦ enfile
    | some (i, f) ↦ ok k i (
        set filps i (record f {
          mode = bits;
          pos = 0;
          selectors = 0;
          select_ops = 0;
          pipe_select_ops = 0;
          flags = 0;
        }))
  ]
]

-- A negative number is a large one here; OPEN_MAX is 20.
unfoldable pub get_filp : ℕ → List (Option ℕ) → Option ℕ
get_filp fild fds = if leb 20 fild then none else get_or fds fild none
