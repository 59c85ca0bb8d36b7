-- ===== src/Fs/Locks/Op.antt =====
-- lock_op as a whole.
use sdios.Prelude.{
  ℕ, zero, suc, ◌+◌, ◌-◌, ◌≤◌, ◌<◌, ◌≡◌, refl, true, false, none, some, ◌==◌, leb, length,
  get_elem?, set, arith, Bool-cases, Option-cases, inl, inr, ◌∙◌, ◌⊎◌, length-set, ◌^◌,
}
use sdios.Fs.Locks.{
  Kind, Lock, Table, State, Progress, next, full, nr_slots, overlaps, first_free, store, unlock,
  unlock_slot, unlock_round, unlock_loop, ok, enolck, Outcome, Caller, Flock, region,
}
use sdios.Fs.Locks.Count.{
  Choice, slot_count, count, in_use, count-set, first_free_lem, first_free-lt, in_use-fill,
  in_use-le, first_free-full,
}
use sdios.Fs.Locks.Unlock.{IsTable, Cleared, After}
use sdios.Fs.Locks.Clear.{round_After, still_held}
use sdios.Fs.Locks.Compatible.{
  compatible, compatible-fill, compatible-set, compatible-clear, part-agrees_all,
}

-- The table where a loop stops.
pub table_of : Progress → Table
table_of (next s) = s.table
table_of (full s) = s.table

module _ (inode first last : ℕ) (r : first ≤ last) where
  module _ (i : ℕ) (l : Lock) (s : State) (v : IsTable s.table s.nr_locks) (inside : i < nr_slots)
      (c : Cleared inode first last i s.table) (held : get_elem? s.table i ≡ some (some l))
      (hit : overlaps inode first last l ≡ true) (ok_before : compatible s.table ≡ true) where
    slot_compatible :
        compatible (table_of (unlock_slot first last i l (record s { unlocking = true }))) ≡ true
    unfolding unlock_slot table_of overlaps
    slot_compatible = elim (Bool-cases (leb first l.first)) [
      | inl a ↦ elim (Bool-cases (leb l.last last)) [
        | inl b ↦ rw (a, b) (compatible-clear s.table i ok_before)
        | inr b ↦
            rw (a, b)
              (compatible-set l (last + 1) l.last (ground arith) (omega arith) s.table i held
                ok_before)
      ]
      | inr a ↦ elim (Bool-cases (leb l.last last)) [
        | inl b ↦
            rw (a, b)
              (compatible-set l l.first (first - 1) (omega arith) (ground arith) s.table i held
                ok_before)
        | inr b ↦
            rw (a, b)
              (elim (Bool-cases (s.nr_locks == nr_slots)) [
                | inl all ↦ rw all ok_before
                | inr room ↦ rw room (
                    compatible-set l l.first (first - 1) (omega arith) (ground arith)
                      (set s.table (first_free s.table) (some (record l { first = last + 1 }))) i
                      (still_held inode first last i l s r v inside c held hit (ground arith) a b)
                      (compatible-fill s.table (record l { first = last + 1 })
                        (part-agrees_all l (last + 1) l.last (ground arith) (omega arith) s.table i
                          held ok_before)
                        ok_before))
              ])
      ]
    ]

  round_compatible :
      (i : ℕ) (s : State)
      → IsTable s.table s.nr_locks
      → i < nr_slots
      → Cleared inode first last i s.table
      → compatible s.table ≡ true
      → compatible (table_of (unlock_round inode first last i s)) ≡ true
  unfolding unlock_round table_of
  round_compatible i s v inside c before = elim (Option-cases (get_elem? s.table i)) [
    | inl e ↦ rw (e, unlock_round) before
    | inr (none, e) ↦ rw (e, unlock_round) before
    | inr (some l, e) ↦ elim (Bool-cases (overlaps inode first last l)) [
      | inl hit ↦ rw (e, unlock_round, hit) (slot_compatible i l s v inside c e hit before)
      | inr miss ↦ rw (e, unlock_round, miss) before
    ]
  ]

  pub loop_compatible :
      (n i : ℕ) (s : State)
      → i + n ≡ nr_slots
      → IsTable s.table s.nr_locks
      → Cleared inode first last i s.table
      → compatible s.table ≡ true
      → compatible (table_of (unlock_loop inode first last n i s)) ≡ true
  unfolding unlock_loop table_of
  loop_compatible zero i s e v c before = before
  loop_compatible (suc n) i s e v c before =
      go (unlock_round inode first last i s) (round_After inode first last i s r v (omega arith) c)
        (round_compatible i s v (omega arith) c before)
        (λ s' a k b. loop_compatible n (suc i) s' (omega arith) a k b)
    where
      go :
          (p : Progress)
          → After inode first last i s.table p
          → compatible (table_of p) ≡ true
          → ((s' : State)
              → IsTable s'.table s'.nr_locks
              → Cleared inode first last (suc i) s'.table
              → compatible s'.table ≡ true
              → compatible (table_of (unlock_loop inode first last n (suc i) s')) ≡ true)
          → compatible (
              table_of (elim p [
                | full s' ↦ full s'
                | next s' ↦ unlock_loop inode first last n (suc i) s'
              ]))
            ≡ true
      go (full s') a b rest = b
      go (next s') (a, k, m) b rest = rest s' a m b

-- The region of a request is not empty, and ends at or before MAX_FILE_POS.
pub region-ordered :
    (base : ℕ) (fl : Flock) (first last : ℕ)
    → region base fl ≡ some (first, last)
    → (first ≤ last) × (last < 2 ^ 32)
unfolding region
region-ordered base fl first last e = ground arith

-- On a table of NR_LOCKS slots whose use nr_locks counts, storing a lock either returns OK, leaves
-- such a table and locks each byte as often as before and once more where the new lock covers it, or
-- returns ENOLCK, and then all slots are in use and the table and nr_locks are unchanged.
pub store_lem :
    (k : Kind) (c : Caller) (first last : ℕ) (t : Table) (nr : ℕ)
    → IsTable t nr
    → let out = store k c first last t nr in
      let l : Lock = record {
        kind = k;
        pid = c.pid;
        inode = c.inode;
        first = first;
        last = last;
      } in
      ((out.result ≡ ok)
        × IsTable out.table out.nr_locks
        × ((o : Choice) (file x : ℕ)
            → count o file x out.table ≡ count o file x t + slot_count o file x (some l)))
      ⊎ ((out.result ≡ enolck) × (out.table ≡ t) × (out.nr_locks ≡ nr) × (nr ≡ nr_slots))
unfolding store
store_lem k c first last t nr v = elim (Bool-cases (leb nr_slots (first_free t))) [
  | inl none_free ↦
      rw none_free
        (inr (refl, refl, refl, ground (arith, v.counted, v.slots, in_use-le t, first_free-lt t)))
  | inr free ↦ rw free (
      inl (
        refl,
        record {
          slots = length-set t (first_free t) _ ∙ v.slots;
          counted = omega (arith, v.counted, in_use-fill t l (spare_slot free));
        },
        λ o file x. omega (
          arith,
          count-set o file x t (first_free t) none (some l) (first_free_lem t (spare_slot free)),
          none_count o file x,
        ),
      ))
]
  where
    l : Lock
    l = record { kind = k; pid = c.pid; inode = c.inode; first = first; last = last }

    spare_slot : leb nr_slots (first_free t) ≡ false → in_use t < length t
    spare_slot e = ground (arith, v.slots, first_free-full t)

    none_count : (o : Choice) (file x : ℕ) → slot_count o file x none ≡ 0
    none_count o file x = unfold slot_count in refl

-- Clearing a region keeps a table compatible.
pub unlock-compatible :
    (inode first last : ℕ) (t : Table) (nr : ℕ)
    → first ≤ last
    → IsTable t nr
    → compatible t ≡ true
    → compatible (unlock inode first last t nr).table ≡ true
unfolding unlock
unlock-compatible inode first last t nr r v before =
    go (unlock_loop inode first last nr_slots 0 start) (
      loop_compatible inode first last r nr_slots 0 start refl v (λ j l h e. absurd (omega arith))
        before)
  where
    start : State
    start = record { table = t; nr_locks = nr; unlocking = false }

    finish : Progress → Outcome
    finish p = elim p [
      | full s ↦ record { result = enolck; table = s.table; nr_locks = s.nr_locks; revived = false }
      | next s ↦ record {
        result = ok;
        table = s.table;
        nr_locks = s.nr_locks;
        revived = s.unlocking;
      }
    ]

    go : (p : Progress) → compatible (table_of p) ≡ true → compatible (finish p).table ≡ true
    go (full s) e = unfold table_of in e
    go (next s) e = unfold table_of in e
