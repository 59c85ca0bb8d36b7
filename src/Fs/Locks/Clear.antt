-- ===== src/Fs/Locks/Clear.antt =====
-- The loop of F_UNLCK as a whole.
use sdios.Prelude.{
  ℕ, zero, suc, ◌+◌, ◌-◌, ◌≤◌, ◌<◌, ◌≡◌, ◌≢◌, refl, true, false, none, some, [], ◌∷◌, ◌==◌, leb,
  length, get_elem?, set, arith, Bool-cases, Option-cases, inl, inr, ◌∙◌, length-set,
  get_elem?-set_ne, ◌⊎◌,
}
use sdios.Fs.Locks.{
  Lock, Table, State, Progress, next, full, nr_slots, overlaps, first_free, unlock_slot,
  unlock_round, unlock_loop, unlock, ok, enolck, Outcome,
}
use sdios.Fs.Locks.Count.{
  Choice, covers, slot_count, count, in_use, count-set, in_use-replace, first_free_lem,
  first_free-lt, in_use-fill, in_use-le,
}
use sdios.Fs.Locks.Unlock.{
  IsTable, touched, Keeps, Cleared, After, whole_After, trim_After, Cleared-set, Cleared-suc,
  Cleared-replace, tail_count, head_count, split_count,
}

module _ (inode first last : ℕ) where
  module _ (i : ℕ) (l : Lock) (s : State) (r : first ≤ last) (v : IsTable s.table s.nr_locks)
      (inside : i < nr_slots) (c : Cleared inode first last i s.table)
      (held : get_elem? s.table i ≡ some (some l)) (hit : overlaps inode first last l ≡ true) where
    abbrev high : Lock
    high = record l { first = last + 1 }

    abbrev low : Lock
    low = record l { last = first - 1 }

    abbrev f : ℕ
    f = first_free s.table

    abbrev two : Table
    two = set (set s.table f (some high)) i (some low)

    module _ (room : s.nr_locks ≢ nr_slots) (a : leb first l.first ≡ false)
        (b : leb l.last last ≡ false) where
      pub spare : in_use s.table < length s.table
      spare = omega (arith, v.counted, v.slots, room, in_use-le s.table)

      apart : f ≢ i
      apart e = elim_free (first_free_lem s.table spare)
        where
          elim_free : get_elem? s.table f ≡ some none → ⊥
          elim_free g = ground (arith, e, held)

      pub still_held : get_elem? (set s.table f (some high)) i ≡ some (some l)
      still_held = get_elem?-set_ne s.table (some high) apart ∙ held

      split_After :
          After inode first last i s.table
            (next (record s { table = two; nr_locks = s.nr_locks + 1 }))
      unfolding overlaps
      split_After = (
        record {
          slots = length-set _ i (some low) ∙ (length-set s.table f (some high) ∙ v.slots);
          counted = omega (
            arith,
            v.counted,
            in_use-fill s.table high spare,
            in_use-replace (set s.table f (some high)) i l low still_held,
          );
        },
        λ o file x out. omega (
          arith,
          count-set o file x s.table f none (some high) (first_free_lem s.table spare),
          count-set o file x (set s.table f (some high)) i (some l) (some low) still_held,
          split_count inode first last l hit o file x out r a b,
          none_count o file x,
        ),
        Cleared-replace inode first last (set s.table f (some high)) i (some low)
            (omega (arith, length-set s.table f (some high), v.slots))
            (Cleared-set inode first last s.table i f (some high) (first_free-lt s.table spare) c
              (λ k e. ground arith))
            (λ k e. ground arith),
      )
        where
          none_count : (o : Choice) (file x : ℕ) → slot_count o file x none ≡ 0
          none_count o file x = unfold slot_count in refl

    pub slot_After :
        After inode first last i s.table
          (unlock_slot first last i l (record s { unlocking = true }))
    unfolding unlock_slot overlaps
    slot_After = elim (Bool-cases (leb first l.first)) [
      | inl a ↦ elim (Bool-cases (leb l.last last)) [
        | inl b ↦ rw (a, b) (whole_After inode first last i l s r v inside c held hit a b)
        | inr b ↦
            rw (a, b)
              (trim_After inode first last i l s r v inside c held hit high (ground arith)
                (λ o file x out. tail_count inode first last l hit o file x out a))
      ]
      | inr a ↦ elim (Bool-cases (leb l.last last)) [
        | inl b ↦
            rw (a, b)
              (trim_After inode first last i l s r v inside c held hit low (ground arith)
                (λ o file x out. head_count inode first last l hit o file x out a b))
        | inr b ↦
            rw (a, b)
              (elim (Bool-cases (s.nr_locks == nr_slots)) [
                | inl all ↦ rw all (v, λ o file x out. refl)
                | inr some_left ↦ rw some_left (split_After (ground arith) a b)
              ])
      ]
    ]

  pub round_After :
      (i : ℕ) (s : State)
      → first ≤ last
      → IsTable s.table s.nr_locks
      → i < nr_slots
      → Cleared inode first last i s.table
      → After inode first last i s.table (unlock_round inode first last i s)
  unfolding unlock_round
  round_After i s r v inside c = elim (Option-cases (get_elem? s.table i)) [
    | inl e ↦ rw (e, unlock_round) (still (λ k h. cc))
    | inr (none, e) ↦ rw (e, unlock_round) (still (λ k h. absurd (ground arith)))
    | inr (some l, e) ↦ elim (Bool-cases (overlaps inode first last l)) [
      | inl hit ↦ rw (e, unlock_round, hit) (slot_After i l s r v inside c e hit)
      | inr miss ↦ rw (e, unlock_round, miss) (still (λ k h. ground (arith, e, miss)))
    ]
  ]
    where
      still :
          ((k : Lock) → get_elem? s.table i ≡ some (some k) → overlaps inode first last k ≡ false)
          → After inode first last i s.table (next s)
      still none_here =
          (v, λ o file x out. refl, Cleared-suc inode first last s.table i c none_here)

  -- what holds where the loop stops
  abbrev pub Done : Table → Progress → Type 0
  Done t (full s') = IsTable s'.table s'.nr_locks × Keeps inode first last t s'.table
  Done t (next s') =
      IsTable s'.table s'.nr_locks
      × Keeps inode first last t s'.table
      × Cleared inode first last nr_slots s'.table

  Keeps-trans :
      (t u w : Table)
      → Keeps inode first last t u
      → Keeps inode first last u w
      → Keeps inode first last t w
  Keeps-trans t u w p q o file x out = q o file x out ∙ p o file x out

  Done-trans : (t u : Table) (p : Progress) → Keeps inode first last t u → Done u p → Done t p
  Done-trans t u (full s) k (v, k') = (v, Keeps-trans t u s.table k k')
  Done-trans t u (next s) k (v, k', c) = (v, Keeps-trans t u s.table k k', c)

  pub loop_Done :
      (n i : ℕ) (s : State)
      → first ≤ last
      → i + n ≡ nr_slots
      → IsTable s.table s.nr_locks
      → Cleared inode first last i s.table
      → Done s.table (unlock_loop inode first last n i s)
  unfolding unlock_loop
  loop_Done zero i s r e v c = (v, λ o file x out. refl, λ j l h held. c j l (omega arith) held)
  loop_Done (suc n) i s r e v c =
      go (unlock_round inode first last i s) (round_After i s r v (omega arith) c)
        (λ s' a k. loop_Done n (suc i) s' r (omega arith) a k)
    where
      go :
          (p : Progress)
          → After inode first last i s.table p
          → ((s' : State)
              → IsTable s'.table s'.nr_locks
              → Cleared inode first last (suc i) s'.table
              → Done s'.table (unlock_loop inode first last n (suc i) s'))
          → Done s.table
              (elim p [ full s' ↦ full s' | next s' ↦ unlock_loop inode first last n (suc i) s' ])
      go (full s') (a, k) rest = (a, k)
      go (next s') (a, k, m) rest = Done-trans _ _ _ k (rest s' a m)

-- Slots none of which meets the region lock none of its bytes.
count_cleared :
    (inode first last : ℕ) (o : Choice) (x : ℕ) (t : Table)
    → ((j : ℕ) (l : Lock)
        → j < length t
        → get_elem? t j ≡ some (some l)
        → overlaps inode first last l ≡ false)
    → first ≤ x
    → x ≤ last
    → count o inode x t ≡ 0
unfolding count covers overlaps slot_count
count_cleared inode first last o x [] c a b = refl
count_cleared inode first last o x (none ∷ t) c a b =
    omega (arith, count_cleared inode first last o x t (λ j l h e. c (suc j) l (omega arith) e) a b)
count_cleared inode first last o x (some l ∷ t) c a b = ground (
  arith,
  c 0 l (omega arith) refl,
  count_cleared inode first last o x t (λ j l h e. c (suc j) l (omega arith) e) a b,
)

-- Given a table of NR_LOCKS slots whose use nr_locks counts, and first no greater than last, clearing
-- first .. last of a file leaves such a table, and every byte outside the region, and every byte of
-- another file, stays locked as often as it was by the locks of any kind and process; when the
-- result is OK, no lock of any process covers a byte of the region, and otherwise it is ENOLCK.
pub unlock_lem :
    (inode first last : ℕ) (t : Table) (nr : ℕ)
    → first ≤ last
    → IsTable t nr
    → let out = unlock inode first last t nr in
      IsTable out.table out.nr_locks
      × ((o : Choice) (file x : ℕ)
          → touched inode first last file x ≡ false
          → count o file x out.table ≡ count o file x t)
      × (((out.result ≡ ok)
            × ((o : Choice) (x : ℕ) → first ≤ x → x ≤ last → count o inode x out.table ≡ 0))
          ⊎ (out.result ≡ enolck))
unfolding unlock
unlock_lem inode first last t nr r v =
    go
      (unlock_loop inode first last nr_slots 0
        (record { table = t; nr_locks = nr; unlocking = false }))
      (loop_Done inode first last nr_slots 0
        (record { table = t; nr_locks = nr; unlocking = false }) r refl v
        (λ j l h e. absurd (omega arith)))
  where
    finish : Progress → Outcome
    finish p = elim p [
      | full s ↦ record { result = enolck; table = s.table; nr_locks = s.nr_locks; revived = false }
      | next s ↦ record {
        result = ok;
        table = s.table;
        nr_locks = s.nr_locks;
        revived = s.unlocking;
      }
    ]

    go :
        (p : Progress)
        → Done inode first last t p
        → let out = finish p in
          IsTable out.table out.nr_locks
          × Keeps inode first last t out.table
          × (((out.result ≡ ok)
                × ((o : Choice) (x : ℕ) → first ≤ x → x ≤ last → count o inode x out.table ≡ 0))
              ⊎ (out.result ≡ enolck))
    go (full s) (a, k) = (a, k, inr refl)
    go (next s) (a, k, c) = (
      a,
      k,
      inl (
        refl,
        λ o x lo hi.
            count_cleared inode first last o x s.table (λ j l h e. c j l (omega (arith, a.slots)) e)
              lo hi,
      ),
    )
