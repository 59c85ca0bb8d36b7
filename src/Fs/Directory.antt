-- ===== src/Fs/Directory.antt =====
-- Directories: search_dir of sdios/src/minix3fs/servers/fs/path.c, with struct direct of
-- include/sys/dir.h. The slots of a directory are numbered through its blocks, which read_map and
-- get_block give: slot i is entry i % per_block of the block at position (i / per_block) * block_size.
pub mod Scan
pub mod Names
pub mod View
pub mod Change
pub mod Update
pub mod Delete
pub mod Enter
mod Tests
use sdios.Prelude.{
  ℕ, zero, suc, ◌+◌, ◌-◌, ◌*◌, ◌/◌, ◌%◌, ◌^◌, Bool, true, false, not, ◌&&◌, ◌||◌, Option, none,
  some, List, [], ◌∷◌, ◌++◌, ◌==◌, ltb, leb, if◌then◌else◌, get_or, take, drop, replicate,
}
use sdios.Fs.Words.{conv4}
use sdios.Fs.Name.{name_max}
use sdios.Fs.Super.{SuperBlock}
use sdios.Fs.Inode.{Inode, type_of, i_directory}
use sdios.Fs.Protect.{Access, Process, forbidden, read_only}

-- d_ino as it stands on disk, and the bytes of d_name.
pub record Entry : Type 0 where
  pub ino : ℕ
  pub name : List ℕ

-- strncmp(s, t, n) == 0; an array ends in a NUL.
unfoldable pub same_name : ℕ → List ℕ → List ℕ → Bool
same_name zero s t = true
same_name (suc n) s t =
    let rest = same_name n (drop 1 s) (drop 1 t) in
    if get_or s 0 0 == get_or t 0 0 then (if get_or s 0 0 == 0 then true else rest) else false

pub data Flag : Type 0 where
  look_up enter delete is_empty : Flag

-- What the search of a run of slots comes to: a match, a slot for ENTER, or neither.
pub data Hit : Type 0 where
  found : ℕ → Hit
  room : ℕ → Hit
  passed : Hit

abbrev pub entry_size : ℕ
entry_size = 64

abbrev pub dot : List ℕ
dot = b'.' ∷ []

abbrev pub dot_dot : List ℕ
dot_dot = b'.' ∷ b'.' ∷ []

abbrev pub is_enter : Flag → Bool
is_enter enter = true
is_enter _ = false

-- Whether an entry ends a search other than ENTER. The names "." and ".." are compared by strcmp.
unfoldable pub matches : Flag → List ℕ → Entry → Bool
matches enter string e = false
matches is_empty string e =
    not (e.ino == 0)
    && (not (same_name (name_max + 1) e.name dot) && not (same_name (name_max + 1) e.name dot_dot))
matches look_up string e = not (e.ino == 0) && same_name name_max e.name string
matches delete string e = not (e.ino == 0) && same_name name_max e.name string

-- The loop over the entries of one block, from slot i, with n entries of the block left.
unfoldable pub scan_block : Flag → List ℕ → ℕ → (ℕ → Entry) → ℕ → ℕ → Hit
unfolding matches
scan_block flag string old_slots slots zero i = passed
scan_block flag string old_slots slots (suc n) i =
    let rest = scan_block flag string old_slots slots n (suc i) in
    if leb old_slots i
    then (if is_enter flag then room i else passed)
    else if matches flag string (slots i)
    then found i
    else if is_enter flag && (slots i).ino == 0
    then room i
    else rest

-- The next block is searched when the last one was passed.
unfoldable pub go_on : Hit → Hit → Hit
go_on passed rest = rest
go_on (found i) rest = found i
go_on (room i) rest = room i

-- The loop over the blocks, from block k, with n blocks left.
unfoldable pub scan_dir : Flag → List ℕ → ℕ → ℕ → (ℕ → Entry) → ℕ → ℕ → Hit
unfolding scan_block go_on
scan_dir flag string old_slots per_block slots zero k = passed
scan_dir flag string old_slots per_block slots (suc n) k =
    let rest = scan_dir flag string old_slots per_block slots n (suc k) in
    go_on (scan_block flag string old_slots slots per_block (k * per_block)) rest

-- A name in d_name: cut to NAME_MAX bytes and padded with zeros.
unfoldable pub padded : List ℕ → List ℕ
padded string = take name_max (string ++ replicate name_max 0)

-- The four bytes of an ino_t in memory.
abbrev pub bytes_of : ℕ → List ℕ
bytes_of n = n % 256 ∷ n / 256 % 256 ∷ n / 65536 % 256 ∷ n / 16777216 % 256 ∷ []

-- DELETE keeps d_ino in the last four bytes of the name, for recovery.
unfoldable pub erased : Entry → Entry
erased e = record { ino = 0; name = take (name_max - 4) e.name ++ bytes_of e.ino }

unfoldable pub put_slot : ℕ → Entry → (ℕ → Entry) → ℕ → Entry
put_slot i e slots j = if j == i then e else slots j

-- new_block gives a block of zeros, which starts at slot i.
unfoldable pub zero_slots : ℕ → (ℕ → Entry) → ℕ → Entry
zero_slots i slots j = if leb i j then record { ino = 0; name = replicate name_max 0 } else slots j

-- `answer` carries the inode number for LOOK_UP; `no_block` is the error of new_block.
pub data Answer : Type 0 where
  ok enotdir enoent enotempty efbig no_block : Answer
  answer : ℕ → Answer
  denied : Access → Answer

-- What search_dir leaves: the slots, the inode of the directory, and whether rw_inode wrote it to disk.
-- What new_block changes in the zone numbers of the inode is not part of it.
pub record Searched : Type 0 where
  pub result : Answer
  pub slots : ℕ → Entry
  pub rip : Inode
  pub written : Bool

abbrev pub touched : Inode → Inode
touched rip = record rip { update_ctime = true; update_mtime = true; dirt = true }

-- ENTER at slot i, which may lie behind the last one.
unfoldable pub enter_at : SuperBlock → List ℕ → ℕ → Bool → (ℕ → Entry) → Inode → ℕ → Searched
unfolding padded put_slot
enter_at sp string numb extended slots rip i = record {
  result = ok;
  slots = put_slot i (record { ino = conv4 sp.native numb; name = padded string }) slots;
  rip =
      if ltb (rip.size / entry_size) (i + 1)
      then record (touched rip) { size = ((i + 1) * entry_size) % 2 ^ 32 }
      else touched rip;
  written = extended;
}

-- A match: LOOK_UP and DELETE found what they wanted, IS_EMPTY did not.
unfoldable pub found_at : SuperBlock → Flag → (ℕ → Entry) → Inode → ℕ → Searched
unfolding erased put_slot
found_at sp look_up slots rip i = record {
  result = answer (conv4 sp.native (slots i).ino);
  slots = slots;
  rip = rip;
  written = false;
}
found_at sp delete slots rip i = record {
  result = ok;
  slots = put_slot i (erased (slots i)) slots;
  rip = touched rip;
  written = false;
}
found_at sp _ slots rip i = record { result = enotempty; slots = slots; rip = rip; written = false }

-- The slots of the blocks that the loop visits: `for (pos = 0; pos < i_size; pos += block_size)`.
abbrev pub rounds : SuperBlock → Inode → ℕ
rounds sp rip = (rip.size + sp.block_size - 1) / sp.block_size

abbrev pub per_block : SuperBlock → ℕ
per_block sp = sp.block_size / entry_size

-- The whole directory has been searched. `has_block` says that new_block yields a block.
unfoldable pub nothing_found :
    SuperBlock → Flag → List ℕ → ℕ → Bool → (ℕ → Entry) → Inode → Searched
unfolding enter_at zero_slots
nothing_found sp enter string numb has_block slots rip =
    let end = rounds sp rip * per_block sp in
    if (end + 1) % 2 ^ 32 == 0
    then record { result = efbig; slots = slots; rip = rip; written = false }
    else if not has_block
    then record { result = no_block; slots = slots; rip = rip; written = false }
    else enter_at sp string numb true (zero_slots end slots) rip end
nothing_found sp is_empty string numb has_block slots rip = record {
  result = ok;
  slots = slots;
  rip = rip;
  written = false;
}
nothing_found sp _ string numb has_block slots rip = record {
  result = enoent;
  slots = slots;
  rip = rip;
  written = false;
}

-- What follows the loops of search_dir.
unfoldable pub after_scan :
    SuperBlock → Flag → List ℕ → ℕ → Bool → (ℕ → Entry) → Inode → Hit → Searched
unfolding found_at enter_at nothing_found
after_scan sp flag string numb has_block slots rip (found i) = found_at sp flag slots rip i
after_scan sp flag string numb has_block slots rip (room i) =
    enter_at sp string numb false slots rip i
after_scan sp flag string numb has_block slots rip passed =
    nothing_found sp flag string numb has_block slots rip

-- search_dir once access is granted.
unfoldable pub search_slots : SuperBlock → Flag → List ℕ → ℕ → Bool → (ℕ → Entry) → Inode → Searched
unfolding scan_dir after_scan
search_slots sp flag string numb has_block slots rip =
    after_scan sp flag string numb has_block slots rip
      (scan_dir flag string (rip.size / entry_size) (per_block sp) slots (rounds sp rip) 0)

-- The access that a search needs. `exempt` says that the name is the pointer dot1 or dot2.
unfoldable pub access_of : Process → SuperBlock → Bool → Flag → Inode → Access
unfolding forbidden read_only
access_of fp sp exempt is_empty rip = Access.ok
access_of fp sp exempt look_up rip = if exempt then Access.ok else forbidden false fp sp rip 1
access_of fp sp exempt _ rip = if exempt then read_only sp else forbidden false fp sp rip 3

unfoldable pub search_dir :
    Process → SuperBlock → Bool → Flag → List ℕ → ℕ → Bool → (ℕ → Entry) → Inode → Searched
unfolding access_of search_slots
search_dir fp sp exempt flag string numb has_block slots rip =
    if not (type_of rip.mode == i_directory)
    then record { result = enotdir; slots = slots; rip = rip; written = false }
    else elim (access_of fp sp exempt flag rip) [
      | Access.ok ↦ search_slots sp flag string numb has_block slots rip
      | r ↦ record { result = denied r; slots = slots; rip = rip; written = false }
    ]
