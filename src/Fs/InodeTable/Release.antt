-- ===== src/Fs/InodeTable/Release.antt =====
-- put_inode gives up one use of one slot.
use sdios.Prelude.{
  ℕ, suc, ◌-◌, ◌<◌, ◌≡◌, ◌≢◌, refl, true, false, ◌||◌, Option, some, List, ◌==◌, ltb, if◌then◌else◌,
  get_elem?, set, get_elem?-set_ne, ◌>>=◌, >>=-some, arith, ap, sym, subst, ◌∙◌, inl, inr,
  Bool-cases,
}
use mathlib.Core.Option.{some-injective}
use sdios.Fs.Super.{SuperBlock}
use sdios.Fs.Inode.{Inode}
use sdios.Fs.Bitmap.{Store, imap, free_bit}
use sdios.Fs.Volume.{Volume, super_of, write_inode, write_copy, timed, update_times, has_update}
use sdios.Fs.Truncate.{truncate, put_maps}
use sdios.Fs.Truncate.Kept.{SameTable, SamePlace, SamePlace-trans, Kept, truncate-Kept, either_of}
use sdios.Fs.InodeTable.{put_slot, free_inode, erase, let_go, write_back, release, put_inode}
use sdios.Fs.InodeTable.Get.{Unique, set-Unique, get_elem?-set_at}

free_inode-SameTable :
    (dev inumb : ℕ) (v v' : Volume) → free_inode dev inumb v ≡ some v' → SameTable v v'
unfolding free_inode
free_inode-SameTable dev inumb v v' e =
    let done : ℕ × SuperBlock → Store → Volume = λ p s. record v {
      supers =
          if ltb inumb p.1.isearch
          then set v.supers p.0 (record p.1 { isearch = inumb })
          else v.supers;
      maps = put_maps dev s v.maps;
    } in
    let after : ℕ × SuperBlock → Option Volume =
      λ p. free_bit p.1 imap inumb (v.maps dev) >>= λ s. some (done p s) in
    let (p, is, out) =
      >>=-some (super_of dev v)
        (λ p. if inumb == 0 || ltb p.1.ninodes inumb then some v else after p) e in
    either_of _ (some v) (after p) (some v') (SameTable v v') out
      (λ q. ap (λ (x : Volume). x.inodes) (some-injective _ _ q))
      (λ q.
        let (s, is', out') =
          >>=-some (free_bit p.1 imap inumb (v.maps dev)) (λ s. some (done p s)) q in
        ap (λ (x : Volume). x.inodes) (some-injective _ _ out'))

erase-Kept : (rip : Inode) (v : Volume) (r : Inode × Volume) → erase rip v ≡ some r → Kept rip v r
unfolding erase
erase-Kept rip v r e =
    let after : Inode × Volume → Option (Inode × Volume) =
      λ q. free_inode q.0.dev q.0.num q.1 >>= λ w. some (record q.0 { mode = 0; dirt = true }, w) in
    let (q, is, out) = >>=-some (truncate rip v) after e in
    let (w, is', out') =
      >>=-some (free_inode q.0.dev q.0.num q.1)
        (λ w. some (record q.0 { mode = 0; dirt = true }, w)) out in
    let (place, table) = truncate-Kept rip v q is in
    subst (Kept rip v) (some-injective _ _ out')
      (place, table ∙ free_inode-SameTable q.0.dev q.0.num q.1 w is')

let_go-Kept : (rip : Inode) (v : Volume) (r : Inode × Volume) → let_go rip v ≡ some r → Kept rip v r
unfolding let_go
let_go-Kept rip v r e =
    either_of _ (erase rip v) (if rip.pipe then truncate rip v else some (rip, v)) (some r)
      (Kept rip v r) e (erase-Kept rip v r)
      (λ q.
        either_of rip.pipe (truncate rip v) (some (rip, v)) (some r) (Kept rip v r) q
          (truncate-Kept rip v r)
          (λ q'. subst (Kept rip v) (some-injective _ _ q') ((refl, refl, refl), refl)))

timed-SamePlace :
    (k : ℕ) (sp : SuperBlock) (now : ℕ) (rip : Inode) → SamePlace rip (timed k sp now rip)
unfolding timed update_times
timed-SamePlace k sp now rip = elim (Bool-cases (has_update rip)) [
  | inl some_time ↦ elim (Bool-cases sp.rd_only) [
    | inl only ↦ rw (some_time, only) (refl, refl, refl)
    | inr writable ↦ rw (some_time, writable) (refl, refl, refl)
  ]
  | inr no_time ↦ rw no_time (refl, refl, refl)
]

write_inode-Kept :
    (now : ℕ) (rip : Inode) (v : Volume) (r : Inode × Volume)
    → write_inode now rip v ≡ some r
    → Kept rip v r
unfolding write_inode write_copy
write_inode-Kept now rip v r e =
    let done : ℕ × SuperBlock → Inode × Volume = λ p.
      (record (timed p.0 p.1 now rip) { dirt = false }, write_copy p.1 (timed p.0 p.1 now rip) v) in
    let (p, is, out) = >>=-some (super_of rip.dev v) (λ p. some (done p)) e in
    subst (Kept rip v) (some-injective _ _ out) (timed-SamePlace p.0 p.1 now rip, refl)

write_back-Kept :
    (now : ℕ) (rip : Inode) (v : Volume) (r : Inode × Volume)
    → write_back now rip v ≡ some r
    → Kept rip v r
unfolding write_back
write_back-Kept now rip v r e =
    either_of rip.dirt (write_inode now rip v) (some (rip, v)) (some r) (Kept rip v r) e
      (write_inode-Kept now rip v r)
      (λ q. subst (Kept rip v) (some-injective _ _ q) ((refl, refl, refl), refl))

release-Kept :
    (now i : ℕ) (rip : Inode) (v v' : Volume)
    → release now i rip v ≡ some v'
    → (rip' : Inode) × SamePlace rip rip' × (set v.inodes i rip' ≡ v'.inodes)
unfolding release
release-Kept now i rip v v' e =
    let closed : Inode → Inode = λ r. record r { pipe = false } in
    let (q, is, out) =
      >>=-some (let_go rip v)
        (λ q. write_back now (closed q.0) q.1 >>= λ w. some (put_slot i w.0 w.1)) e in
    let (w, is', out') =
      >>=-some (write_back now (closed q.0) q.1) (λ w. some (put_slot i w.0 w.1)) out in
    let (place, table) = let_go-Kept rip v q is in
    let (place', table') = write_back-Kept now (closed q.0) q.1 w is' in
    (
      w.0,
      SamePlace-trans rip q.0 w.0 place place',
      ap (λ (t : List Inode). set t i w.0) (table ∙ table')
          ∙ ap (λ (x : Volume). x.inodes) (some-injective _ _ out'),
    )

-- What put_inode leaves of the table: slot i holds the same inode with one user less.
abbrev pub HasPut : ℕ → Inode → Volume → Volume → Type 0
HasPut i rip v v' =
    Unique v'.inodes
    × ((rip' : Inode) × (get_elem? v'.inodes i ≡ some rip')
        × (rip'.dev ≡ rip.dev)
        × (rip'.num ≡ rip.num)
        × (suc rip'.count ≡ rip.count))
    × ((j : ℕ) → j ≢ i → get_elem? v'.inodes j ≡ get_elem? v.inodes j)

set-HasPut :
    (i : ℕ) (rip rip' : Inode) (v v' : Volume)
    → Unique v.inodes
    → get_elem? v.inodes i ≡ some rip
    → 0 < rip.count
    → SamePlace (record rip { count = rip.count - 1 }) rip'
    → set v.inodes i rip' ≡ v'.inodes
    → HasPut i rip v v'
set-HasPut i rip rip' v v' u at used (d, n, c) e =
    subst
      (λ (t : List Inode).
        Unique t
        × ((r : Inode) × (get_elem? t i ≡ some r)
            × (r.dev ≡ rip.dev)
            × (r.num ≡ rip.num)
            × (suc r.count ≡ rip.count))
        × ((j : ℕ) → j ≢ i → get_elem? t j ≡ get_elem? v.inodes j))
      e
      (
        set-Unique v.inodes i rip' u
            (λ j b ne eb _ ub ed en. ne (u j i b rip eb at ub used (sym (d ∙ ed)) (sym (n ∙ en)))),
        (rip', get_elem?-set_at v.inodes i rip' rip at, sym d, sym n, omega (arith, c, used)),
        λ j ne. get_elem?-set_ne v.inodes rip' (λ q. ne (sym q)),
      )

-- When no two slots in use hold the same inode and a put_inode of a slot in use does not panic, the slot
-- holds the same inode with one user less, also when the inode was truncated, freed or written, all
-- other slots are as they were, and again no two slots in use hold the same inode.
pub put_inode-Unique :
    (now i : ℕ) (rip : Inode) (v v' : Volume)
    → Unique v.inodes
    → get_elem? v.inodes i ≡ some rip
    → 0 < rip.count
    → put_inode now i v ≡ some v'
    → HasPut i rip v v'
unfolding put_inode
put_inode-Unique now i rip v v' u at used e =
    let less = record rip { count = rip.count - 1 } in
    let step : Inode → Option Volume = λ r.
      if r.count == 1
      then release now i (record r { count = r.count - 1 }) v
      else some (put_slot i (record r { count = r.count - 1 }) v) in
    let here : step rip ≡ some v' = sym (ap (λ (o : Option Inode). o >>= step) at) ∙ e in
    either_of (rip.count == 1) (release now i less v) (some (put_slot i less v)) (some v')
      (HasPut i rip v v') here
      (λ q.
        let (rip', place, table) = release-Kept now i less v v' q in
        set-HasPut i rip rip' v v' u at used place table)
      (λ q.
        set-HasPut i rip less v v' u at used (refl, refl, refl)
          (ap (λ (x : Volume). x.inodes) (some-injective _ _ q)))
