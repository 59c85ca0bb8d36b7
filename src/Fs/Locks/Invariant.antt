-- ===== src/Fs/Locks/Invariant.antt =====
-- Every call of lock_op keeps the table of locks sound.
use sdios.Prelude.{
  ℕ, ◌≤◌, ◌≡◌, true, false, Option, none, some, ◌==◌, leb, ◌+◌, set, length-set, ◌∙◌, if◌then◌else◌,
  arith, Bool-cases, Option-cases, inl, inr,
}
use sdios.Fs.Locks.{
  Kind, rdlck, wrlck, Lock, Table, nr_slots, find_conflict, first_free, store, unlock, request_lock,
  Outcome, Caller, Flock, Request, setlk, setlkw, getlk, region, lock_op, check_request, base_of,
}
use sdios.Fs.Locks.Count.{in_use-fill, first_free-full}
use sdios.Fs.Locks.Unlock.{IsTable}
use sdios.Fs.Locks.Clear.{unlock_lem}
use sdios.Fs.Locks.Compatible.{compatible, compatible-fill, find_conflict-agrees_all}
use sdios.Fs.Locks.Op.{unlock-compatible, region-ordered}

-- NR_LOCKS slots, counted by nr_locks, and no two locks of different processes on common bytes of a
-- file unless both are read locks.
pub record IsSound (t : Table) (nr : ℕ) : Type 0 where
  pub shape : IsTable t nr
  pub apart : compatible t ≡ true

abbrev Sound : Outcome → Type 0
Sound out = IsSound out.table out.nr_locks

unlock-Sound :
    (inode first last : ℕ) (t : Table) (nr : ℕ)
    → first ≤ last
    → IsSound t nr
    → Sound (unlock inode first last t nr)
unlock-Sound inode first last t nr r v = record {
  shape = (unlock_lem inode first last t nr r v.shape).0;
  apart = unlock-compatible inode first last t nr r v.shape v.apart;
}

store-Sound :
    (k : Kind) (c : Caller) (first last : ℕ) (t : Table) (nr : ℕ)
    → find_conflict k c.pid c.inode first last t ≡ none
    → IsSound t nr
    → Sound (store k c first last t nr)
unfolding store
store-Sound k c first last t nr free v = elim (Bool-cases (leb nr_slots (first_free t))) [
  | inl all ↦ rw all v
  | inr room ↦ rw room (record {
    shape = stored room;
    apart =
        compatible-fill t _ (find_conflict-agrees_all k c.pid c.inode first last t free) v.apart;
  })
]
  where
    l : Lock
    l = record { kind = k; pid = c.pid; inode = c.inode; first = first; last = last }

    stored : leb nr_slots (first_free t) ≡ false → IsTable (set t (first_free t) (some l)) (nr + 1)
    stored room = record {
      slots = length-set t (first_free t) (some l) ∙ v.shape.slots;
      counted = omega (
        arith,
        v.shape.counted,
        in_use-fill t l (ground (arith, v.shape.slots, first_free-full t)),
      );
    }

request_lock-Sound :
    (req : Request) (k : Kind) (c : Caller) (fl : Flock) (first last : ℕ) (t : Table) (nr : ℕ)
    → IsSound t nr
    → Sound (request_lock req k c fl first last t nr)
unfolding request_lock
request_lock-Sound getlk k c fl first last t nr v = v
request_lock-Sound setlk k c fl first last t nr v =
    elim (Option-cases (find_conflict k c.pid c.inode first last t)) [
      | inl e ↦ rw (e, request_lock) (store-Sound k c first last t nr e v)
      | inr (l, e) ↦ rw (e, request_lock) v
    ]
request_lock-Sound setlkw k c fl first last t nr v =
    elim (Option-cases (find_conflict k c.pid c.inode first last t)) [
      | inl e ↦ rw (e, request_lock) (store-Sound k c first last t nr e v)
      | inr (l, e) ↦ rw (e, request_lock) v
    ]

-- From a sound table, every request of lock_op, of any kind and with any result, leads to a sound
-- table: NR_LOCKS slots counted by nr_locks, and no two locks of different processes on common
-- bytes of a file unless both are read locks.
pub lock_op-IsSound :
    (req : Request) (c : Caller) (fl : Option Flock) (t : Table) (nr : ℕ)
    → IsSound t nr
    → let out = lock_op req c fl t nr in IsSound out.table out.nr_locks
unfolding lock_op
lock_op-IsSound req c none t nr v = v
lock_op-IsSound req c (some fl) t nr v = elim (Option-cases (check_request req c fl.l_type)) [
  | inr (e, bad) ↦ rw (bad, lock_op) v
  | inl fine ↦ elim (Option-cases (base_of c fl.whence)) [
    | inl bad ↦ rw (fine, bad, lock_op) v
    | inr (base, b) ↦ elim (Option-cases (region base fl)) [
      | inl bad ↦ rw (fine, b, bad, lock_op) v
      | inr ((first, last), g) ↦
          rw (fine, b, g, lock_op) (decide first last (region-ordered base fl first last g).0)
    ]
  ]
]
  where
    decide :
        (first last : ℕ)
        → first ≤ last
        → Sound (
            if fl.l_type == 3
            then unlock c.inode first last t nr
            else if fl.l_type == 1
            then request_lock req rdlck c fl first last t nr
            else request_lock req wrlck c fl first last t nr)
    decide first last r = elim (Bool-cases (fl.l_type == 3)) [
      | inl e ↦ rw e (unlock-Sound c.inode first last t nr r v)
      | inr n ↦ rw n (elim (Bool-cases (fl.l_type == 1)) [
        | inl e ↦ rw e (request_lock-Sound req rdlck c fl first last t nr v)
        | inr m ↦ rw m (request_lock-Sound req wrlck c fl first last t nr v)
      ])
    ]
