-- ===== src/Fs/Locks/Compatible.antt =====
-- No two locks of a table conflict: what storing, shrinking and removing a lock keep.
use sdios.Prelude.{
  ℕ, zero, suc, ◌≤◌, ◌≡◌, refl, Bool, true, ◌&&◌, none, some, [], ◌∷◌, get_elem?, set, arith, not,
  ◌||◌, ◌==◌, ltb,
}
use sdios.Fs.Locks.{
  Kind, rdlck, same_kind, Lock, Table, overlaps, conflicts, find_conflict, first_free,
}

-- Two locks may stand side by side: they do not meet, or belong to one process, or both read.
unfoldable pub agree : Lock → Lock → Bool
agree l m =
    not (l.inode == m.inode)
    || l.pid == m.pid
    || (same_kind l.kind rdlck && same_kind m.kind rdlck)
    || ltb l.last m.first
    || ltb m.last l.first

unfoldable pub agrees_all : Lock → Table → Bool
unfolding agree
agrees_all m [] = true
agrees_all m (none ∷ t) = agrees_all m t
agrees_all m (some l ∷ t) = agree l m && agrees_all m t

-- Each lock agrees with every lock in a later slot.
unfoldable pub compatible : Table → Bool
unfolding agrees_all
compatible [] = true
compatible (none ∷ t) = compatible t
compatible (some l ∷ t) = agrees_all l t && compatible t

pub agree_symm : (l m : Lock) → agree l m ≡ agree m l
unfolding agree
agree_symm l m = ground arith

-- find_conflict finds nothing exactly when the new lock agrees with all.
pub find_conflict-agrees_all :
    (k : Kind) (pid inode first last : ℕ) (t : Table)
    → find_conflict k pid inode first last t ≡ none
    → agrees_all (record { kind = k; pid = pid; inode = inode; first = first; last = last }) t
      ≡ true
unfolding find_conflict agrees_all conflicts overlaps agree
find_conflict-agrees_all k pid inode first last [] e = refl
find_conflict-agrees_all k pid inode first last (none ∷ t) e =
    find_conflict-agrees_all k pid inode first last t e
find_conflict-agrees_all k pid inode first last (some l ∷ t) e =
    ground (arith, find_conflict-agrees_all k pid inode first last t)

agrees_all-fill :
    (t : Table) (l m : Lock)
    → agree m l ≡ true
    → agrees_all l t ≡ true
    → agrees_all l (set t (first_free t) (some m)) ≡ true
unfolding agrees_all first_free
agrees_all-fill [] l m a b = refl
agrees_all-fill (none ∷ t) l m a b = ground arith
agrees_all-fill (some k ∷ t) l m a b = ground (arith, agrees_all-fill t l m)

-- A lock that agrees with all may be put into the first free slot.
pub compatible-fill :
    (t : Table) (m : Lock)
    → agrees_all m t ≡ true
    → compatible t ≡ true
    → compatible (set t (first_free t) (some m)) ≡ true
unfolding compatible first_free
compatible-fill [] m a c = refl
compatible-fill (none ∷ t) m a c = ground arith
compatible-fill (some l ∷ t) m a c =
    ground (arith, compatible-fill t m, agrees_all-fill t l m, agree_symm l m)

module _ (l : Lock) (a b : ℕ) (lo : l.first ≤ a) (hi : b ≤ l.last) where
  -- a part of the lock
  abbrev pub part : Lock
  part = record l { first = a; last = b }

  agree-part : (m : Lock) → agree l m ≡ true → agree part m ≡ true
  unfolding agree conflicts overlaps
  agree-part m e = ground arith

  agree-part_self : agree l part ≡ true
  unfolding agree conflicts overlaps
  agree-part_self = ground arith

  agrees_all-part : (t : Table) → agrees_all l t ≡ true → agrees_all part t ≡ true
  unfolding agrees_all
  agrees_all-part [] e = refl
  agrees_all-part (none ∷ t) e = agrees_all-part t e
  agrees_all-part (some m ∷ t) e =
      ground (arith, agrees_all-part t, agree-part m, agree_symm m l, agree_symm m part)

  agrees_all-set :
      (m : Lock) (t : Table) (i : ℕ)
      → get_elem? t i ≡ some (some l)
      → agrees_all m t ≡ true
      → agrees_all m (set t i (some part)) ≡ true
  unfolding agrees_all
  agrees_all-set m [] i e c = refl
  agrees_all-set m (none ∷ t) zero e c = absurd (ground arith)
  agrees_all-set m (some k ∷ t) zero e c = ground (arith, agree-part m)
  agrees_all-set m (none ∷ t) (suc i) e c = agrees_all-set m t i e c
  agrees_all-set m (some k ∷ t) (suc i) e c = ground (arith, agrees_all-set m t i)

  -- Shrinking a lock keeps a table compatible.
  pub compatible-set :
      (t : Table) (i : ℕ)
      → get_elem? t i ≡ some (some l)
      → compatible t ≡ true
      → compatible (set t i (some part)) ≡ true
  unfolding compatible
  compatible-set [] i e c = refl
  compatible-set (none ∷ t) zero e c = absurd (ground arith)
  compatible-set (some k ∷ t) zero e c = ground (arith, agrees_all-part t)
  compatible-set (none ∷ t) (suc i) e c = compatible-set t i e c
  compatible-set (some k ∷ t) (suc i) e c = ground (arith, compatible-set t i, agrees_all-set k t i)

  -- A part of a lock agrees with every lock of the table, the lock itself included.
  pub part-agrees_all :
      (t : Table) (i : ℕ)
      → get_elem? t i ≡ some (some l)
      → compatible t ≡ true
      → agrees_all part t ≡ true
  unfolding compatible agrees_all
  part-agrees_all [] i e c = cc
  part-agrees_all (none ∷ t) zero e c = absurd (ground arith)
  part-agrees_all (some k ∷ t) zero e c = ground (arith, agrees_all-part t, agree-part_self)
  part-agrees_all (none ∷ t) (suc i) e c = part-agrees_all t i e c
  part-agrees_all (some k ∷ t) (suc i) e c =
      ground (arith, part-agrees_all t i, member k t i, agree-part k, agree_symm k part)
    where
      member :
          (k : Lock) (t : Table) (i : ℕ)
          → get_elem? t i ≡ some (some l)
          → agrees_all k t ≡ true
          → agree l k ≡ true
      member k [] i e c = cc
      member k (none ∷ t) zero e c = absurd (ground arith)
      member k (some m ∷ t) zero e c = ground arith
      member k (none ∷ t) (suc i) e c = member k t i e c
      member k (some m ∷ t) (suc i) e c = ground (arith, member k t i)

agrees_all-clear :
    (m : Lock) (t : Table) (i : ℕ) → agrees_all m t ≡ true → agrees_all m (set t i none) ≡ true
unfolding agrees_all
agrees_all-clear m [] i c = refl
agrees_all-clear m (none ∷ t) zero c = c
agrees_all-clear m (some k ∷ t) zero c = ground arith
agrees_all-clear m (none ∷ t) (suc i) c = agrees_all-clear m t i c
agrees_all-clear m (some k ∷ t) (suc i) c = ground (arith, agrees_all-clear m t i)

-- Removing a lock keeps a table compatible.
pub compatible-clear : (t : Table) (i : ℕ) → compatible t ≡ true → compatible (set t i none) ≡ true
unfolding compatible
compatible-clear [] i c = refl
compatible-clear (none ∷ t) zero c = c
compatible-clear (some k ∷ t) zero c = ground arith
compatible-clear (none ∷ t) (suc i) c = compatible-clear t i c
compatible-clear (some k ∷ t) (suc i) c =
    ground (arith, compatible-clear t i, agrees_all-clear k t i)
