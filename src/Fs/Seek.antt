-- ===== src/Fs/Seek.antt =====
-- do_lseek of sdios/src/minix3fs/servers/fs/open.c. A long is a number of 32 bits, given as its bit
-- pattern; a sum wraps around. Pointers into the filp and inode tables are slots.
pub mod Range
mod Tests
use sdios.Prelude.{
  ℕ, ◌+◌, ◌%◌, ◌^◌, Bool, true, ◌&&◌, ◌||◌, Option, none, some, List, ◌==◌, ltb, if◌then◌else◌,
  get_elem?, set, ◌>>=◌,
}
use sdios.Fs.Inode.{Inode}
use sdios.Fs.Filedes.{Filp, get_filp}

pub data Sought : Type 0 where
  ok : ℕ → Sought
  ebadf espipe einval : Sought

-- A long with the sign bit turned over, so that the order is that of the longs.
abbrev pub biased : ℕ → ℕ
biased x = (x + 2 ^ 31) % 2 ^ 32

abbrev pub less : ℕ → ℕ → Bool
less x y = ltb (biased x) (biased y)

-- The start that `whence` names.
unfoldable pub start_of : ℕ → Filp → Inode → Option ℕ
start_of whence f rip =
    if whence == 0
    then some 0
    else if whence == 1
    then some f.pos
    else if whence == 2
    then some rip.size
    else none

-- The new position; `none` is EINVAL.
unfoldable pub add_offset : ℕ → ℕ → Option ℕ
add_offset pos offset =
    let sum = (pos + offset) % 2 ^ 32 in
    if (less 0 offset && less sum pos) || (less offset 0 && less pos sum) then none else some sum

-- What a call returns, with both tables.
pub record Outcome : Type 0 where
  pub result : Sought
  pub filps : List Filp
  pub inodes : List Inode

-- The position is set in slot i of the filp table; a new one inhibits read ahead on inode k.
unfoldable pub set_pos : ℕ → Filp → ℕ → Inode → ℕ → List Filp → List Inode → Outcome
set_pos i f k rip pos filps inodes = record {
  result = ok pos;
  filps = set filps i (record f { pos = pos });
  inodes = if pos == f.pos then inodes else set inodes k (record rip { seek = true });
}

abbrev pub failed : Sought → List Filp → List Inode → Outcome
failed r filps inodes = record { result = r; filps = filps; inodes = inodes }

-- What becomes of the sum.
unfoldable pub settle : ℕ → Filp → ℕ → Inode → List Filp → List Inode → Option ℕ → Outcome
unfolding set_pos
settle i f k rip filps inodes none = failed einval filps inodes
settle i f k rip filps inodes (some pos) = set_pos i f k rip pos filps inodes

-- do_lseek on slot i, which holds f, whose inode is in slot k.
unfoldable pub seek_in : ℕ → Filp → ℕ → Inode → ℕ → ℕ → List Filp → List Inode → Outcome
unfolding start_of add_offset settle
seek_in i f k rip whence offset filps inodes =
    if rip.pipe
    then failed espipe filps inodes
    else settle i f k rip filps inodes (start_of whence f rip >>= λ pos. add_offset pos offset)

-- do_lseek on what get_filp answers.
unfoldable pub seek_slot : ℕ → ℕ → List Filp → List Inode → Option ℕ → Option Outcome
unfolding seek_in
seek_slot whence offset filps inodes none = some (failed ebadf filps inodes)
seek_slot whence offset filps inodes (some i) = do
  f ← get_elem? filps i
  k ← f.ino
  rip ← get_elem? inodes k
  some (seek_in i f k rip whence offset filps inodes)

-- `none` is a pointer to no slot of a table.
unfoldable pub do_lseek : ℕ → ℕ → ℕ → List (Option ℕ) → List Filp → List Inode → Option Outcome
unfolding seek_slot get_filp
do_lseek fd whence offset fds filps inodes = seek_slot whence offset filps inodes (get_filp fd fds)
