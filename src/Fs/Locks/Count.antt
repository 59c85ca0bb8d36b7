-- ===== src/Fs/Locks/Count.antt =====
-- How often a byte is locked, counted over the table, for any choice of the locks to count.
use sdios.Prelude.{
  ℕ, zero, suc, ◌+◌, ◌≤◌, ◌<◌, ◌≡◌, refl, Bool, ◌&&◌, Option, none, some, [], ◌∷◌, ◌==◌, leb,
  if◌then◌else◌, length, get_elem?, set, arith,
}
use sdios.Fs.Locks.{Kind, Lock, Table, first_free}

-- Whose locks are counted: a test on the kind and the process.
abbrev pub Choice : Type 0
Choice = Kind → ℕ → Bool

unfoldable pub covers : Choice → ℕ → ℕ → Lock → Bool
covers o inode x l = l.inode == inode && (leb l.first x && (leb x l.last && o l.kind l.pid))

unfoldable pub slot_count : Choice → ℕ → ℕ → Option Lock → ℕ
unfolding covers
slot_count o inode x none = 0
slot_count o inode x (some l) = if covers o inode x l then 1 else 0

unfoldable pub count : Choice → ℕ → ℕ → Table → ℕ
unfolding slot_count
count o inode x [] = 0
count o inode x (slot ∷ t) = slot_count o inode x slot + count o inode x t

-- The slots in use.
unfoldable pub in_use : Table → ℕ
in_use [] = 0
in_use (none ∷ t) = in_use t
in_use (some l ∷ t) = suc (in_use t)

module _ (o : Choice) (inode x : ℕ) where
  -- A write to a slot takes away what the slot counted, and adds what the new one counts.
  pub count-set :
      (t : Table) (i : ℕ) (old new : Option Lock)
      → get_elem? t i ≡ some old
      → count o inode x (set t i new) + slot_count o inode x old
        ≡ count o inode x t + slot_count o inode x new
  unfolding count
  count-set [] i old new e = cc
  count-set (slot ∷ t) zero old new e =
      let same : slot ≡ old = ground arith in rw (← same) (omega arith)
  count-set (slot ∷ t) (suc i) old new e = omega (arith, count-set t i old new e)

pub in_use-clear :
    (t : Table) (i : ℕ) (l : Lock)
    → get_elem? t i ≡ some (some l)
    → in_use (set t i none) + 1 ≡ in_use t
unfolding in_use
in_use-clear [] i l e = cc
in_use-clear (none ∷ t) zero l e = absurd (ground arith)
in_use-clear (some k ∷ t) zero l e = omega arith
in_use-clear (none ∷ t) (suc i) l e = in_use-clear t i l e
in_use-clear (some k ∷ t) (suc i) l e = omega (arith, in_use-clear t i l e)

pub in_use-replace :
    (t : Table) (i : ℕ) (l k : Lock)
    → get_elem? t i ≡ some (some l)
    → in_use (set t i (some k)) ≡ in_use t
unfolding in_use
in_use-replace [] i l k e = refl
in_use-replace (none ∷ t) zero l k e = absurd (ground arith)
in_use-replace (some m ∷ t) zero l k e = refl
in_use-replace (none ∷ t) (suc i) l k e = in_use-replace t i l k e
in_use-replace (some m ∷ t) (suc i) l k e = omega (arith, in_use-replace t i l k e)

-- A table with fewer locks than slots has a free slot, and first_free finds it.
pub first_free_lem : (t : Table) → in_use t < length t → get_elem? t (first_free t) ≡ some none
unfolding in_use first_free
first_free_lem [] h = absurd (omega arith)
first_free_lem (none ∷ t) h = refl
first_free_lem (some l ∷ t) h = first_free_lem t (omega arith)

pub first_free-lt : (t : Table) → in_use t < length t → first_free t < length t
unfolding in_use first_free
first_free-lt [] h = absurd (omega arith)
first_free-lt (none ∷ t) h = omega arith
first_free-lt (some l ∷ t) h = omega (arith, first_free-lt t (omega arith))

pub in_use-fill :
    (t : Table) (k : Lock)
    → in_use t < length t
    → in_use (set t (first_free t) (some k)) ≡ in_use t + 1
unfolding in_use first_free
in_use-fill [] k h = absurd (omega arith)
in_use-fill (none ∷ t) k h = omega arith
in_use-fill (some l ∷ t) k h = omega (arith, in_use-fill t k (omega arith))

pub in_use-le : (t : Table) → in_use t ≤ length t
unfolding in_use
in_use-le [] = omega arith
in_use-le (none ∷ t) = omega (arith, in_use-le t)
in_use-le (some l ∷ t) = omega (arith, in_use-le t)

-- When every slot is in use, first_free is the number of slots.
pub first_free-full : (t : Table) → length t ≤ in_use t → first_free t ≡ length t
unfolding in_use first_free
first_free-full [] h = refl
first_free-full (none ∷ t) h = absurd (omega (arith, in_use-le t))
first_free-full (some l ∷ t) h = omega (arith, first_free-full t (omega arith))
