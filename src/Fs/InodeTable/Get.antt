-- ===== src/Fs/InodeTable/Get.antt =====
-- get_inode keeps at most one slot in use for an inode.
use sdios.Prelude.{
  ℕ, zero, suc, ◌<◌, ◌≡◌, ◌≢◌, inl, inr, refl, true, false, Option, some, List, [], ◌∷◌, ◌==◌,
  if◌then◌else◌, get_elem?, set, get_elem?-set_ne, >>=-some, arith, ap, sym, subst, ◌∙◌, Bool-cases,
  ℕ_discrete,
}
use mathlib.Core.Option.{some-injective}
use sdios.Fs.Super.{SuperBlock}
use sdios.Fs.Inode.{Inode}
use sdios.Fs.Inode.Copy.{read_old, read_new}
use sdios.Fs.Volume.{Volume, super_of, read_inode, read_copy}
use sdios.Fs.InodeTable.{is_held, put_slot, load, dup_inode, get_inode}
use sdios.Fs.InodeTable.Search.{get_inode_cases}

-- No two slots in use hold the same inode.
abbrev pub Unique : List Inode → Type 0
Unique table =
    (i j : ℕ) (a b : Inode)
    → get_elem? table i ≡ some a
    → get_elem? table j ≡ some b
    → 0 < a.count
    → 0 < b.count
    → a.dev ≡ b.dev
    → a.num ≡ b.num
    → i ≡ j

pub get_elem?-set_here :
    (table : List Inode) (i : ℕ) (new a : Inode) → get_elem? (set table i new) i ≡ some a → new ≡ a
get_elem?-set_here [] i new a e = absurd (ground (arith, e))
get_elem?-set_here (x ∷ table) zero new a e = some-injective _ _ e
get_elem?-set_here (x ∷ table) (suc i) new a e = get_elem?-set_here table i new a e

pub get_elem?-set_at :
    (table : List Inode) (i : ℕ) (new old : Inode)
    → get_elem? table i ≡ some old
    → get_elem? (set table i new) i ≡ some new
get_elem?-set_at [] i new old e = absurd (ground (arith, e))
get_elem?-set_at (x ∷ table) zero new old e = refl
get_elem?-set_at (x ∷ table) (suc i) new old e = get_elem?-set_at table i new old e

-- Slot i may take an inode that no other slot in use holds.
module _ (table : List Inode) (i : ℕ) (new : Inode) (u : Unique table)
    (fresh : (j : ℕ) (b : Inode)
      → j ≢ i
      → get_elem? table j ≡ some b
      → 0 < new.count
      → 0 < b.count
      → new.dev ≡ b.dev
      → new.num ≢ b.num) where
  -- One of the two slots is i.
  not_both :
      (j : ℕ) (a b : Inode)
      → j ≢ i
      → get_elem? (set table i new) i ≡ some a
      → get_elem? (set table i new) j ≡ some b
      → 0 < a.count
      → 0 < b.count
      → a.dev ≡ b.dev
      → a.num ≢ b.num
  not_both j a b ne ea eb ua ub dev num =
      let same = get_elem?-set_here table i new a ea in
      fresh j b ne (sym (get_elem?-set_ne table new (λ e. ne (sym e))) ∙ eb)
        (subst (λ (x : Inode). 0 < x.count) (sym same) ua) ub (ap (λ (x : Inode). x.dev) same ∙ dev)
        (ap (λ (x : Inode). x.num) same ∙ num)

  old :
      (j : ℕ) (a : Inode)
      → j ≢ i
      → get_elem? (set table i new) j ≡ some a
      → get_elem? table j ≡ some a
  old j a ne e = sym (get_elem?-set_ne table new (λ q. ne (sym q))) ∙ e

  pub set-Unique : Unique (set table i new)
  set-Unique j k a b ea eb ua ub dev num = elim (ℕ_discrete j i) [
    | yes same ↦ elim (ℕ_discrete k i) [
      | yes same' ↦ same ∙ sym same'
      | no other' ↦ absurd (
          not_both k a b other' (ap (get_elem? (set table i new)) (sym same) ∙ ea) eb ua ub dev num)
    ]
    | no other ↦ elim (ℕ_discrete k i) [
      | yes same' ↦ absurd (
          not_both j b a other (ap (get_elem? (set table i new)) (sym same') ∙ eb) ea ub ua
            (sym dev) (sym num))
      | no other' ↦ u j k a b (old j a other ea) (old k b other' eb) ua ub dev num
    ]
  ]

-- The disk copy of an inode says nothing about where it is held.
read_copy_place :
    (k : ℕ) (sp : SuperBlock) (rip : Inode) (v : Volume)
    → ((read_copy k sp rip v).dev ≡ rip.dev)
      × ((read_copy k sp rip v).num ≡ rip.num)
      × ((read_copy k sp rip v).count ≡ rip.count)
unfolding read_copy read_old read_new
read_copy_place k sp rip v = elim (Bool-cases (sp.version == 1)) [
  | inl old ↦ rw old (refl, refl, refl)
  | inr new ↦ rw new (refl, refl, refl)
]

-- A slot for inode `numb` of device `dev` that has one user.
abbrev pub IsLoaded : ℕ → ℕ → Inode → Type 0
IsLoaded dev numb rip = (rip.dev ≡ dev) × (rip.num ≡ numb) × (rip.count ≡ 1)

read_inode-IsLoaded :
    (dev numb : ℕ) (rip rip' : Inode) (v : Volume)
    → IsLoaded dev numb rip
    → (if dev == 0 then some rip else read_inode rip v) ≡ some rip'
    → IsLoaded dev numb rip'
unfolding read_inode
read_inode-IsLoaded dev numb rip rip' v (a, b, c) e = elim (Bool-cases (dev == 0)) [
  | inl none_dev ↦ subst (IsLoaded dev numb) (some-injective _ _ (rw none_dev at e)) (a, b, c)
  | inr some_dev ↦
      let (p, is, out) =
        >>=-some (super_of rip.dev v) (λ (p : ℕ × SuperBlock). some (read_copy p.0 p.1 rip v))
          (rw some_dev at e) in
      let (d, n, k) = read_copy_place p.0 p.1 rip v in
      subst (IsLoaded dev numb) (some-injective _ _ out) (d ∙ a, n ∙ b, k ∙ c)
]

pub load-IsLoaded :
    (dev numb i : ℕ) (xp : Inode) (v v' : Volume)
    → load dev numb i xp v ≡ some v'
    → (rip : Inode) × (put_slot i rip v ≡ v') × IsLoaded dev numb rip
unfolding load
load-IsLoaded dev numb i xp v v' e =
    let start = record xp { dev = dev; num = numb; count = 1 } in
    let fresh = λ (r : Inode). record r {
      update_atime = false;
      update_ctime = false;
      update_mtime = false;
    } in
    let (rip, is, out) =
      >>=-some (if dev == 0 then some start else read_inode start v)
        (λ r. some (put_slot i (fresh r) v)) e in
    (
      fresh rip,
      some-injective _ _ out,
      read_inode-IsLoaded dev numb start rip v (refl, refl, refl) is,
    )

-- What get_inode leaves when it returns slot i: the slot is in use and holds the inode, the other
-- slots are as they were, and again no two slots in use hold the same inode.
abbrev pub HasGotten : ℕ → ℕ → ℕ → Volume → Volume → Type 0
HasGotten dev numb i v v' =
    Unique v'.inodes
    × ((rip : Inode) × (get_elem? v'.inodes i ≡ some rip) × (is_held dev numb rip ≡ true))
    × ((j : ℕ) → j ≢ i → get_elem? v'.inodes j ≡ get_elem? v.inodes j)

is_held_parts :
    (dev numb : ℕ) (rip : Inode)
    → is_held dev numb rip ≡ true
    → (0 < rip.count) × (rip.dev ≡ dev) × (rip.num ≡ numb)
is_held_parts dev numb rip h = ground arith

held_of_parts :
    (dev numb : ℕ) (rip : Inode)
    → 0 < rip.count
    → rip.dev ≡ dev
    → rip.num ≡ numb
    → is_held dev numb rip ≡ true
held_of_parts dev numb rip a b c = ground arith

-- A slot takes an inode that no other slot in use holds.
put_slot-HasGotten :
    (dev numb i : ℕ) (v : Volume) (old rip : Inode)
    → Unique v.inodes
    → get_elem? v.inodes i ≡ some old
    → is_held dev numb rip ≡ true
    → ((j : ℕ) (b : Inode)
        → j ≢ i
        → get_elem? v.inodes j ≡ some b
        → 0 < b.count
        → dev ≡ b.dev
        → numb ≢ b.num)
    → HasGotten dev numb i v (put_slot i rip v)
put_slot-HasGotten dev numb i v old rip u e hit only =
    let (used, d, n) = is_held_parts dev numb rip hit in
    (
      set-Unique v.inodes i rip u
          (λ j b ne eb _ ub ed en. only j b ne eb ub (sym d ∙ ed) (sym n ∙ en)),
      (rip, get_elem?-set_at v.inodes i rip old e, hit),
      λ j ne. get_elem?-set_ne v.inodes rip (λ q. ne (sym q)),
    )

dup_inode_held :
    (dev numb : ℕ) (rip : Inode)
    → is_held dev numb rip ≡ true
    → is_held dev numb (dup_inode rip) ≡ true
unfolding dup_inode
dup_inode_held dev numb rip h = ground arith

-- The slot and the state of a result.
HasGotten-there :
    (dev numb i k : ℕ) (v v' w : Volume)
    → ◌≡◌ {A = Option (Option ℕ × Volume)} (some (some k, w)) (some (some i, v'))
    → HasGotten dev numb k v w
    → HasGotten dev numb i v v'
HasGotten-there dev numb i k v v' w q h =
    let pair = some-injective {A = Option ℕ × Volume} (some k, w) (some i, v') q in
    let same : k ≡ i = some-injective _ _ (ap (λ (p : Option ℕ × Volume). p.0) pair) in
    subst (λ (j : ℕ). HasGotten dev numb j v v') same
      (subst (HasGotten dev numb k v) (ap (λ (p : Option ℕ × Volume). p.1) pair) h)

-- When no two slots in use hold the same inode and get_inode returns a slot, that slot is in use and
-- holds the inode asked for, all other slots are as they were, and again no two slots in use hold the
-- same inode.
pub get_inode-Unique :
    (dev numb i : ℕ) (v v' : Volume)
    → Unique v.inodes
    → get_inode dev numb v ≡ some (some i, v')
    → HasGotten dev numb i v v'
get_inode-Unique dev numb i v v' u e = elim (get_inode_cases dev numb v) [
  | inl (k, rip, at, (hit, out)) ↦
      let (used, d, n) = is_held_parts dev numb rip hit in
      HasGotten-there dev numb i k v v' _ (sym out ∙ e) (
        put_slot-HasGotten dev numb k v rip (dup_inode rip) u at (dup_inode_held dev numb rip hit)
          (λ j b ne eb ub ed en. ne (u j k b rip eb at ub used (sym ed ∙ sym d) (sym en ∙ sym n))))
  | inr (none_held, inl (full, out)) ↦ absurd (ground (arith, out, e))
  | inr (none_held, inr (k, xp, at, (free, out))) ↦
      let (w, is, q) = >>=-some (load dev numb k xp v) (λ w. some (some k, w)) (sym out ∙ e) in
      let (rip, put, (d, n, c)) = load-IsLoaded dev numb k xp v w is in
      HasGotten-there dev numb i k v v' w q (
        subst (HasGotten dev numb k v) put (
          put_slot-HasGotten dev numb k v xp rip u at
            (held_of_parts dev numb rip (omega (arith, c)) d n)
            (λ j b ne eb ub ed en. unheld j b eb ub ed en (none_held j b eb))))
]
  where
    unheld :
        (j : ℕ) (b : Inode)
        → get_elem? v.inodes j ≡ some b
        → 0 < b.count
        → dev ≡ b.dev
        → numb ≡ b.num
        → is_held dev numb b ≢ false
    unheld j b eb ub ed en miss =
        ground (arith, held_of_parts dev numb b ub (sym ed) (sym en), miss)
