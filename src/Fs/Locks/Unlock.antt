-- ===== src/Fs/Locks/Unlock.antt =====
-- What clearing a region does to the table of locks.
use sdios.Prelude.{
  ℕ, suc, ◌+◌, ◌-◌, ◌≤◌, ◌<◌, ◌≡◌, refl, Bool, true, false, ◌&&◌, Option, none, some, ◌==◌, leb,
  length, get_elem?, set, arith, ◌∙◌, length-set, get_elem?-set_self, get_elem?-set_ne, ℕ_discrete,
}
use sdios.Fs.Locks.{Lock, Table, State, Progress, next, full, nr_slots, overlaps}
use sdios.Fs.Locks.Count.{
  Choice, slot_count, count, in_use, count-set, in_use-clear, in_use-replace,
}

-- The table has NR_LOCKS slots, and nr_locks counts those in use.
pub record IsTable (t : Table) (nr : ℕ) : Type 0 where
  pub slots : length t ≡ nr_slots
  pub counted : nr ≡ in_use t

module _ (inode first last : ℕ) where
  -- Byte x of the file `file` lies in the region that is cleared.
  abbrev pub touched : ℕ → ℕ → Bool
  touched file x = file == inode && (leb first x && leb x last)

  -- Outside the region each byte is locked as often as before, in each way.
  abbrev pub Keeps : Table → Table → Type 0
  Keeps t t' =
      (o : Choice) (file x : ℕ) → touched file x ≡ false → count o file x t' ≡ count o file x t

  -- The first i slots hold no lock that meets the region.
  abbrev pub Cleared : ℕ → Table → Type 0
  Cleared i t =
      (j : ℕ) (l : Lock)
      → j < i
      → get_elem? t j ≡ some (some l)
      → overlaps inode first last l ≡ false

  module _ (l : Lock) (hit : overlaps inode first last l ≡ true) (o : Choice) (file x : ℕ)
      (out : touched file x ≡ false) where
    whole_count :
        leb first l.first ≡ true → leb l.last last ≡ true → slot_count o file x (some l) ≡ 0
    unfolding slot_count overlaps
    whole_count a b = ground arith

    pub tail_count :
        leb first l.first ≡ true
        → slot_count o file x (some (record l { first = last + 1 })) ≡ slot_count o file x (some l)
    unfolding slot_count overlaps
    tail_count a = ground arith

    pub head_count :
        leb first l.first ≡ false
        → leb l.last last ≡ true
        → slot_count o file x (some (record l { last = first - 1 })) ≡ slot_count o file x (some l)
    unfolding slot_count overlaps
    head_count a b = ground arith

    pub split_count :
        first ≤ last
        → leb first l.first ≡ false
        → leb l.last last ≡ false
        → slot_count o file x (some (record l { last = first - 1 }))
            + slot_count o file x (some (record l { first = last + 1 }))
          ≡ slot_count o file x (some l)
    unfolding slot_count overlaps
    split_count r a b = ground arith

  pub Cleared-set :
      (t : Table) (i f : ℕ) (v : Option Lock)
      → f < length t
      → Cleared i t
      → ((k : Lock) → v ≡ some k → overlaps inode first last k ≡ false)
      → Cleared i (set t f v)
  Cleared-set t i f v l c new j k h e = elim (ℕ_discrete f j) [
    | yes here ↦ new k (ground (arith, here, get_elem?-set_self t f v l))
    | no there ↦ c j k h (ground (arith, get_elem?-set_ne t {i = f} {j = j} v there))
  ]

  pub Cleared-suc :
      (t : Table) (i : ℕ)
      → Cleared i t
      → ((k : Lock) → get_elem? t i ≡ some (some k) → overlaps inode first last k ≡ false)
      → Cleared (suc i) t
  Cleared-suc t i c here j k h e = elim (ℕ_discrete j i) [
    | yes same ↦ here k (ground (arith, same))
    | no other ↦ c j k (omega arith) e
  ]

  -- Slot i is overwritten by v, which holds no lock that meets the region.
  pub Cleared-replace :
      (t : Table) (i : ℕ) (v : Option Lock)
      → i < length t
      → Cleared i t
      → ((k : Lock) → v ≡ some k → overlaps inode first last k ≡ false)
      → Cleared (suc i) (set t i v)
  Cleared-replace t i v l c new =
      Cleared-suc (set t i v) i (Cleared-set t i i v l c new)
        (λ k e. new k (ground (arith, get_elem?-set_self t i v l)))

  abbrev pub After : ℕ → Table → Progress → Type 0
  After i t (full s') = IsTable s'.table s'.nr_locks × Keeps t s'.table
  After i t (next s') = IsTable s'.table s'.nr_locks × Keeps t s'.table × Cleared (suc i) s'.table

  module _ (i : ℕ) (l : Lock) (s : State) (r : first ≤ last) (v : IsTable s.table s.nr_locks)
      (inside : i < nr_slots) (c : Cleared i s.table) (held : get_elem? s.table i ≡ some (some l))
      (hit : overlaps inode first last l ≡ true) where
    pub whole_After :
        leb first l.first ≡ true
        → leb l.last last ≡ true
        → After i s.table
            (next (record s { table = set s.table i none; nr_locks = s.nr_locks - 1 }))
    whole_After a b = (
      record {
        slots = length-set s.table i none ∙ v.slots;
        counted = omega (arith, v.counted, in_use-clear s.table i l held);
      },
      λ o file x out. ground (
        arith,
        count-set o file x s.table i (some l) none held,
        whole_count l hit o file x out a b,
        none_count o file x,
      ),
      Cleared-replace s.table i none (omega (arith, v.slots)) c (λ k e. cc),
    )
      where
        none_count : (o : Choice) (file x : ℕ) → slot_count o file x none ≡ 0
        none_count o file x = unfold slot_count in refl

    pub trim_After :
        (k : Lock)
        → overlaps inode first last k ≡ false
        → ((o : Choice) (file x : ℕ)
            → touched file x ≡ false
            → slot_count o file x (some k) ≡ slot_count o file x (some l))
        → After i s.table (next (record s { table = set s.table i (some k) }))
    trim_After k miss same = (
      record {
        slots = length-set s.table i (some k) ∙ v.slots;
        counted = omega (arith, v.counted, in_use-replace s.table i l k held);
      },
      λ o file x out.
          omega (arith, count-set o file x s.table i (some l) (some k) held, same o file x out),
      Cleared-replace s.table i (some k) (omega (arith, v.slots)) c (λ m e. ground (arith, miss)),
    )
