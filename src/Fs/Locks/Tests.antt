-- ===== src/Fs/Locks/Tests.antt =====
-- A table with three locks on the file of inode 4, and the theorems of the locks on it.
use sdios.Prelude.{ℕ, ◌+◌, ◌≤◌, ◌≡◌, ◌⊎◌, refl, false, none, some, [], ◌∷◌, arith}
use sdios.Fs.Locks.{
  rdlck, wrlck, Lock, Table, setlk, Caller, Flock, ok, enolck, eagain, lock_op, unlock, unlock_slot,
  conflicts, store, nr_slots,
}
use sdios.Fs.Bits.{bit_of}
use sdios.Fs.Locks.Count.{Choice, count, slot_count, in_use}
use sdios.Fs.Locks.Unlock.{IsTable, touched}
use sdios.Fs.Locks.Clear.{unlock_lem}
use sdios.Fs.Locks.Compatible.{compatible}
use sdios.Fs.Locks.Op.{store_lem}
use sdios.Fs.Locks.Invariant.{IsSound, lock_op-IsSound}

abbrev first_half : Lock
first_half = record { kind = wrlck; pid = 7; inode = 4; first = 0; last = 49 }

abbrev middle : Lock
middle = record { kind = rdlck; pid = 8; inode = 4; first = 60; last = 90 }

abbrev also_reads : Lock
also_reads = record { kind = rdlck; pid = 9; inode = 4; first = 80; last = 120 }

abbrev held : Table
held = some first_half ∷ none ∷ some middle ∷ some also_reads ∷ none ∷ none ∷ none ∷ none ∷ []

held-IsTable : IsTable held 3
unfolding in_use
held-IsTable = record { slots = refl; counted = refl }

-- Process 5 clears bytes 10 to 85: the lock of process 7 is cut, those of 8 and 9 are trimmed.
unlock_lem_example :
    let out = unlock 4 10 85 held 3 in
    IsTable out.table out.nr_locks
    × ((o : Choice) (file x : ℕ)
        → touched 4 10 85 file x ≡ false
        → count o file x out.table ≡ count o file x held)
    × (((out.result ≡ ok) × ((o : Choice) (x : ℕ) → 10 ≤ x → x ≤ 85 → count o 4 x out.table ≡ 0))
        ⊎ (out.result ≡ enolck))
unlock_lem_example = unlock_lem 4 10 85 held 3 (omega arith) held-IsTable

unlock_runs :
    (unlock 4 20 30 held 3).table
    ≡ some (record { kind = wrlck; pid = 7; inode = 4; first = 0; last = 19 })
      ∷ some (record { kind = wrlck; pid = 7; inode = 4; first = 31; last = 49 })
      ∷ some middle
      ∷ some also_reads
      ∷ none
      ∷ none
      ∷ none
      ∷ none
      ∷ []
unfolding unlock unlock_slot
unlock_runs = refl

abbrev reader : Caller
reader = record { mode = 6; inode = 4; pos = 0; i_mode = 0x81a4; i_size = 200; pid = 5 }

store_lem_example :
    let out = store rdlck reader 60 70 held 3 in
    ((out.result ≡ ok)
      × IsTable out.table out.nr_locks
      × ((o : Choice) (file x : ℕ)
          → count o file x out.table
            ≡ count o file x held
              + slot_count o file x
                  (some (record { kind = rdlck; pid = 5; inode = 4; first = 60; last = 70 }))))
    ⊎ ((out.result ≡ enolck) × (out.table ≡ held) × (out.nr_locks ≡ 3) × (3 ≡ nr_slots))
store_lem_example = store_lem rdlck reader 60 70 held 3 held-IsTable

-- A write lock on bytes that another process reads is refused.
abbrev write_request : Flock
write_request = record { l_type = 2; whence = 0; start = 70; len = 5; pid = 0 }

refused : (lock_op setlk reader (some write_request) held 3).result ≡ eagain
unfolding lock_op bit_of
refused = refl

held-IsSound : IsSound held 3
unfolding compatible conflicts
held-IsSound = record { shape = held-IsTable; apart = refl }

lock_op-IsSound_example :
    let out = lock_op setlk reader (some write_request) held 3 in IsSound out.table out.nr_locks
lock_op-IsSound_example = lock_op-IsSound setlk reader (some write_request) held 3 held-IsSound
