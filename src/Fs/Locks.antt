-- ===== src/Fs/Locks.antt =====
-- Advisory file locks: lock_op of sdios/src/minix3fs/servers/fs/lock.c. off_t is unsigned and has 32
-- bits. A slot of the table is `none` when its lock_type is 0.
pub mod Count
pub mod Unlock
pub mod Clear
pub mod Compatible
pub mod Op
pub mod Invariant
mod Tests
use sdios.Prelude.{
  ℕ, zero, suc, ◌+◌, ◌-◌, ◌%◌, ◌^◌, Bool, true, false, ◌&&◌, Option, none, some, List, [], ◌∷◌, not,
  ◌==◌, ltb, leb, if◌then◌else◌, get_elem?, set,
}
use sdios.Fs.Bits.{bit_of}
use sdios.Fs.Inode.{type_of, i_regular, r_bit, w_bit}

-- F_RDLCK is 1, F_WRLCK 2 and F_UNLCK 3.
pub data Kind : Type 0 where
  rdlck wrlck : Kind

pub data Request : Type 0 where
  getlk setlk setlkw : Request

pub record Lock : Type 0 where
  pub kind : Kind
  pub pid : ℕ
  pub inode : ℕ
  pub first : ℕ
  pub last : ℕ

abbrev pub Table : Type 0
Table = List (Option Lock)

-- struct flock
pub record Flock : Type 0 where
  pub l_type : ℕ
  pub whence : ℕ
  pub start : ℕ
  pub len : ℕ
  pub pid : ℕ

-- What lock_op uses of its filp and of the process: filp_mode, filp_ino, filp_pos, the mode and size
-- of the inode, and fp_pid.
pub record Caller : Type 0 where
  pub mode : ℕ
  pub inode : ℕ
  pub pos : ℕ
  pub i_mode : ℕ
  pub i_size : ℕ
  pub pid : ℕ

-- `reply` is the flock that is copied back; `suspended` is SUSPEND after suspend(XLOCK).
pub data Result : Type 0 where
  ok einval ebadf eagain enolck suspended : Result
  reply : Flock → Result

-- The lock table with nr_locks, and the local variable `unlocking`.
pub record State : Type 0 where
  pub table : Table
  pub nr_locks : ℕ
  pub unlocking : Bool

-- How a round of the loop ends: it goes on, or lock_op returns ENOLCK with the table as it is.
pub data Progress : Type 0 where
  next full : State → Progress

-- What a call returns, the table that it leaves, and whether it has called lock_revive.
pub record Outcome : Type 0 where
  pub result : Result
  pub table : Table
  pub nr_locks : ℕ
  pub revived : Bool

abbrev pub nr_slots : ℕ
nr_slots = 8

abbrev pub word : ℕ
word = 2 ^ 32

abbrev pub max_file_pos : ℕ
max_file_pos = 2 ^ 32 - 1

abbrev pub same_kind : Kind → Kind → Bool
same_kind rdlck rdlck = true
same_kind wrlck wrlck = true
same_kind _ _ = false

-- The `switch` on l_whence.
unfoldable pub base_of : Caller → ℕ → Option ℕ
base_of c zero = some 0
base_of c (suc zero) = some c.pos
base_of c (suc (suc zero)) = some c.i_size
base_of c (suc (suc (suc w))) = none

-- The overflow checks and the bounds of the region; `none` is EINVAL. A start of 2 ^ 31 or more is
-- negative as a long.
unfoldable pub region : ℕ → Flock → Option (ℕ × ℕ)
region base fl =
    let first = (base + fl.start) % word in
    let last = if fl.len == 0 then max_file_pos else (first + fl.len + (word - 1)) % word in
    let positive = ltb 0 fl.start && ltb fl.start (2 ^ 31) in
    let negative = leb (2 ^ 31) fl.start in
    if positive && ltb first base
    then none
    else if negative && ltb base first
    then none
    else if ltb last first
    then none
    else some (first, last)

-- The lock lies in the file, and its bytes meet first .. last.
unfoldable pub overlaps : ℕ → ℕ → ℕ → Lock → Bool
overlaps inode first last l = l.inode == inode && (leb l.first last && leb first l.last)

-- An overlapping lock conflicts with a request for a lock of kind k by process pid unless both are
-- read locks or the process holds it itself.
unfoldable pub conflicts : Kind → ℕ → ℕ → ℕ → ℕ → Lock → Bool
unfolding overlaps
conflicts k pid inode first last l =
    overlaps inode first last l
    && (not (same_kind k rdlck && same_kind l.kind rdlck) && not (l.pid == pid))

-- The first slot that conflicts.
unfoldable pub find_conflict : Kind → ℕ → ℕ → ℕ → ℕ → Table → Option Lock
unfolding conflicts
find_conflict k pid inode first last [] = none
find_conflict k pid inode first last (none ∷ t) = find_conflict k pid inode first last t
find_conflict k pid inode first last (some l ∷ t) =
    let rest = find_conflict k pid inode first last t in
    if conflicts k pid inode first last l then some l else rest

-- The first unused slot, or the number of slots.
unfoldable pub first_free : Table → ℕ
first_free [] = 0
first_free (none ∷ t) = 0
first_free (some l ∷ t) = suc (first_free t)

-- What clearing first .. last does at slot i, which holds the overlapping lock l.
unfoldable pub unlock_slot : ℕ → ℕ → ℕ → Lock → State → Progress
unfolding first_free
unlock_slot first last i l s =
    if leb first l.first && leb l.last last
    then next (record s { table = set s.table i none; nr_locks = s.nr_locks - 1 })
    else if leb first l.first
    then next (record s { table = set s.table i (some (record l { first = last + 1 })) })
    else if leb l.last last
    then next (record s { table = set s.table i (some (record l { last = first - 1 })) })
    else if s.nr_locks == nr_slots
    then full s
    else next (record s {
      table =
          set (set s.table (first_free s.table) (some (record l { first = last + 1 }))) i
            (some (record l { last = first - 1 }));
      nr_locks = s.nr_locks + 1;
    })

-- One round of the loop for F_UNLCK, at slot i.
unfoldable pub unlock_round : ℕ → ℕ → ℕ → ℕ → State → Progress
unfolding overlaps
unlock_round inode first last i s = elim (get_elem? s.table i) [
  | none ↦ next s
  | some slot ↦ elim slot [
    | none ↦ next s
    | some l ↦
        if overlaps inode first last l
        then unlock_slot first last i l (record s { unlocking = true })
        else next s
  ]
]

-- The loop from slot i, with n slots left.
unfoldable pub unlock_loop : ℕ → ℕ → ℕ → ℕ → ℕ → State → Progress
unfolding unlock_round
unlock_loop inode first last zero i s = next s
unlock_loop inode first last (suc n) i s = elim (unlock_round inode first last i s) [
  | full s' ↦ full s'
  | next s' ↦ unlock_loop inode first last n (suc i) s'
]

-- F_UNLCK: after the loop, lock_revive if something was unlocked.
unfoldable pub unlock : ℕ → ℕ → ℕ → Table → ℕ → Outcome
unfolding unlock_loop
unlock inode first last t nr =
    elim (unlock_loop inode first last nr_slots 0
      (record { table = t; nr_locks = nr; unlocking = false })) [
        | full s ↦ record {
          result = enolck;
          table = s.table;
          nr_locks = s.nr_locks;
          revived = false;
        }
        | next s ↦ record {
          result = ok;
          table = s.table;
          nr_locks = s.nr_locks;
          revived = s.unlocking;
        }
      ]

-- A lock of kind k by the caller, on a region that does not conflict: the first unused slot takes it.
unfoldable pub store : Kind → Caller → ℕ → ℕ → Table → ℕ → Outcome
unfolding first_free
store k c first last t nr =
    if leb nr_slots (first_free t)
    then record { result = enolck; table = t; nr_locks = nr; revived = false }
    else record {
      result = ok;
      table =
          set t (first_free t)
            (some (record { kind = k; pid = c.pid; inode = c.inode; first = first; last = last }));
      nr_locks = nr + 1;
      revived = false;
    }

abbrev pub unchanged : Result → Table → ℕ → Outcome
unchanged r t nr = record { result = r; table = t; nr_locks = nr; revived = false }

abbrev pub type_code : Kind → ℕ
type_code rdlck = 1
type_code wrlck = 2

-- F_GETLK: the first conflicting lock, or F_UNLCK with the other fields as they were.
unfoldable pub report : Flock → Option Lock → Flock
report fl none = record fl { l_type = 3 }
report fl (some l) = record {
  l_type = type_code l.kind;
  whence = 0;
  start = l.first;
  len = (l.last - l.first + 1) % word;
  pid = l.pid;
}

-- A request for a read or write lock on a region.
unfoldable pub request_lock : Request → Kind → Caller → Flock → ℕ → ℕ → Table → ℕ → Outcome
unfolding find_conflict report store
request_lock req k c fl first last t nr =
    let found = find_conflict k c.pid c.inode first last t in
    elim req [
      | getlk ↦ unchanged (reply (report fl found)) t nr
      | setlk ↦ elim found [ some l ↦ unchanged eagain t nr | none ↦ store k c first last t nr ]
      | setlkw ↦ elim found [ some l ↦ unchanged suspended t nr | none ↦ store k c first last t nr ]
    ]

-- The error checks before the region is computed: `none` is no error.
unfoldable pub check_request : Request → Caller → ℕ → Option Result
check_request req c l_type =
    let get : Bool = elim req [ getlk ↦ true | _ ↦ false ] in
    if not (l_type == 1) && not (l_type == 2) && not (l_type == 3)
    then some einval
    else if get && l_type == 3
    then some einval
    else if not (type_of c.i_mode == i_regular)
    then some einval
    else if not get && l_type == 1 && bit_of c.mode r_bit == 0
    then some ebadf
    else if not get && l_type == 2 && bit_of c.mode w_bit == 0
    then some ebadf
    else none

-- The flock is what sys_datacopy fetched, `none` when it failed.
unfoldable pub lock_op : Request → Caller → Option Flock → Table → ℕ → Outcome
unfolding check_request base_of region unlock request_lock
lock_op req c none t nr = unchanged einval t nr
lock_op req c (some fl) t nr = elim (check_request req c fl.l_type) [
  | some e ↦ unchanged e t nr
  | none ↦ elim (base_of c fl.whence) [
    | none ↦ unchanged einval t nr
    | some base ↦ elim (region base fl) [
      | none ↦ unchanged einval t nr
      | some (first, last) ↦
          if fl.l_type == 3
          then unlock c.inode first last t nr
          else if fl.l_type == 1
          then request_lock req rdlck c fl first last t nr
          else request_lock req wrlck c fl first last t nr
    ]
  ]
]
