-- ===== src/Fs/InodeTable/Put.antt =====
-- put_inode undoes a get_inode of an inode that is in use.
use sdios.Prelude.{
  inl, inr, true, ℕ, zero, suc, ◌-◌, ◌<◌, ◌≡◌, ◌≢◌, refl, some, List, [], ◌∷◌, get_elem?, set,
  arith, ap, sym, ◌∙◌, ==_no,
}
use mathlib.Core.Option.{some-injective}
use sdios.Fs.Inode.{Inode}
use sdios.Fs.Volume.{Volume}
use sdios.Fs.InodeTable.{is_held, put_slot, dup_inode, put_inode, get_inode}
use sdios.Fs.InodeTable.Search.{get_inode_cases}
use sdios.Fs.InodeTable.Get.{get_elem?-set_at}

set-set : (table : List Inode) (i : ℕ) (a b : Inode) → set (set table i a) i b ≡ set table i b
set-set [] i a b = refl
set-set (x ∷ table) zero a b = refl
set-set (x ∷ table) (suc i) a b = ap (λ (t : List Inode). x ∷ t) (set-set table i a b)

set_same :
    (table : List Inode) (i : ℕ) (a : Inode) → get_elem? table i ≡ some a → set table i a ≡ table
set_same [] i a e = refl
set_same (x ∷ table) zero a e = ap (λ (y : Inode). y ∷ table) (sym (some-injective _ _ e))
set_same (x ∷ table) (suc i) a e = ap (λ (t : List Inode). x ∷ t) (set_same table i a e)

-- A slot with more than one user loses one.
put_inode-more :
    (now i : ℕ) (rip : Inode) (v : Volume)
    → get_elem? v.inodes i ≡ some rip
    → rip.count ≢ 1
    → put_inode now i v ≡ some (put_slot i (record rip { count = rip.count - 1 }) v)
unfolding put_inode
put_inode-more now i rip v e ne = rw (e, ==_no rip.count 1 ne) refl

dup_inode_less : (rip : Inode) → record (dup_inode rip) { count = (dup_inode rip).count - 1 } ≡ rip
unfolding dup_inode
dup_inode_less rip = ap (λ (n : ℕ). record rip { count = n }) (omega arith)

dup_inode_count : (rip : Inode) → 0 < rip.count → (dup_inode rip).count ≢ 1
unfolding dup_inode
dup_inode_count rip h e = omega (arith, h, e)

put_inode-dup_inode :
    (now i : ℕ) (rip : Inode) (v : Volume)
    → get_elem? v.inodes i ≡ some rip
    → 0 < rip.count
    → put_inode now i (put_slot i (dup_inode rip) v) ≡ some v
put_inode-dup_inode now i rip v e used =
    put_inode-more now i (dup_inode rip) (put_slot i (dup_inode rip) v)
      (get_elem?-set_at v.inodes i (dup_inode rip) rip e) (dup_inode_count rip used)
    ∙ ap (λ (t : List Inode). some (record v { inodes = t }))
        (set-set v.inodes i (dup_inode rip) _
          ∙ ap (λ (r : Inode). set v.inodes i r) (dup_inode_less rip)
          ∙ set_same v.inodes i rip e)

-- When a slot in use holds an inode, get_inode returns a slot for it, and a put_inode of this slot
-- gives back the whole state as it was: nothing is read, written or freed.
pub put_inode-get_inode :
    (now dev numb d : ℕ) (rip : Inode) (v : Volume)
    → get_elem? v.inodes d ≡ some rip
    → is_held dev numb rip ≡ true
    → (i : ℕ) × (v' : Volume) × (get_inode dev numb v ≡ some (some i, v'))
      × (put_inode now i v' ≡ some v)
put_inode-get_inode now dev numb d rip v e hit = elim (get_inode_cases dev numb v) [
  | inl (k, r, at, (same, out)) ↦
      (k, put_slot k (dup_inode r) v, out, put_inode-dup_inode now k r v at (ground (arith, same)))
  | inr (none_held, rest) ↦ absurd (ground (arith, none_held d rip e, hit))
]
