-- ===== src/Fs/Directory/Enter/Slot.antt =====
-- A new entry in a free slot, or in the slot behind the last one.
use sdios.Prelude.{
  ℕ, suc, ◌+◌, ◌^◌, ◌<◌, ◌≡◌, ◌≢◌, ◌⊎◌, inl, inr, refl, Bool, true, false, none, some, List, arith,
  ap, sym, subst, ◌∙◌, ℕ_discrete, Bool-cases, ltb_no, lt→ltb,
}
use sdios.Fs.Name.{name_max}
use sdios.Fs.Super.{SuperBlock}
use sdios.Fs.Inode.{Inode}
use sdios.Fs.Words.{conv4, conv4-conv4}
use sdios.Fs.Directory.{Entry, look_up, same_name, matches, enter_at, padded, Searched}
use sdios.Fs.Directory.Names.{same_name_symm, same_name_trans, same_name-padded}
use sdios.Fs.Directory.View.{IsWhole, old_slots, view, view-IsFirst}
use sdios.Fs.Directory.Change.{
  Placed, Distinct, view-placed_self, view-placed_other, view-none, live_same,
}
use sdios.Fs.Directory.Update.{Updated, put_slot_self, put_slot_other}
use sdios.Fs.Directory.Change.{free_not_live}

conv4_zero : (n : Bool) → conv4 n 0 ≡ 0
unfolding conv4
conv4_zero true = refl
conv4_zero false = refl

conv4_not_zero : (n : Bool) (x : ℕ) → x < 2 ^ 32 → x ≢ 0 → conv4 n x ≢ 0
conv4_not_zero n x l ne e = ne (sym (conv4-conv4 n x l) ∙ ap (conv4 n) e ∙ conv4_zero n)

-- Equal names stand for the same nothing.
view_same :
    (sp : SuperBlock) (slots : ℕ → Entry) (rip : Inode) (name other : List ℕ)
    → same_name name_max name other ≡ true
    → view sp slots rip name ≡ none
    → view sp slots rip other ≡ none
view_same sp slots rip name other same e = view-IsFirst sp slots rip other none (λ j l.
    elim (ℕ_discrete (slots j).ino 0) [
      | yes free ↦ free_not_live other (slots j) free
      | no used ↦
          live_same other (slots j) used
          ∙ same_name_symm name_max (slots j).name other
          ∙ same_name_trans name_max name other (slots j).name same
          ∙ same_name_symm name_max name (slots j).name
          ∙ sym (live_same name (slots j) used)
          ∙ view-none sp slots rip name e j l
    ])

-- ENTER at slot i of `slots'`, which agrees with `slots` below the size.
module _ (sp : SuperBlock) (name : List ℕ) (numb : ℕ) (extended : Bool) (slots slots' : ℕ → Entry)
    (rip : Inode) (i : ℕ) (w : IsWhole sp rip)
    (agree : (j : ℕ) → j < old_slots rip → slots' j ≡ slots j)
    (at : ((i < old_slots rip) × ((slots i).ino ≡ 0)) ⊎ (i ≡ old_slots rip)) where
  entry : Entry
  entry = record { ino = conv4 sp.native numb; name = padded name }

  unfoldable pub entered : Searched
  entered = enter_at sp name numb extended slots' rip i

  size_within : i < old_slots rip → old_slots entered.rip ≡ old_slots rip
  unfolding entered enter_at
  size_within l = rw (ltb_no (old_slots rip) (i + 1) (omega (arith, l))) refl

  size_behind : i ≡ old_slots rip → old_slots entered.rip ≡ suc (old_slots rip)
  unfolding entered enter_at
  size_behind e =
      rw (lt→ltb (old_slots rip) (i + 1) (omega (arith, e))) (omega (arith, e, w.fits, w.size))

  entered-Placed : Placed slots entered.slots rip entered.rip i entry
  unfolding entered enter_at entry
  entered-Placed = record {
    size = elim at [
      | inl (l, free) ↦ inl (l, free, size_within l)
      | inr e ↦ inr (e, size_behind e)
    ];
    here = put_slot_self i entry slots';
    others = λ j l ne. put_slot_other i j entry slots' ne ∙ agree j l;
  }

  module _ (d : Distinct slots rip) (used : numb ≢ 0) (small : numb < 2 ^ 32)
      (new : view sp slots rip name ≡ none) where
    entry_used : entry.ino ≢ 0
    unfolding entry
    entry_used = conv4_not_zero sp.native numb small used

    entry_live : (other : List ℕ) → matches look_up other entry ≡ same_name name_max name other
    unfolding entry
    entry_live other = live_same other entry entry_used ∙ same_name-padded name other

    -- Below the new size, a slot is the new one or an old one.
    old_slot :
        (j : ℕ)
        → j < old_slots entered.rip
        → j ≢ i
        → (j < old_slots rip) × (entered.slots j ≡ slots j)
    old_slot j l ne =
        let old : j < old_slots rip = elim at [
          | inl (a, b) ↦ omega (arith, l, size_within a)
          | inr e ↦ omega (arith, l, size_behind e, ne, e)
        ] in
        (old, entered-Placed.others j old ne)

    -- The name is that of no old slot.
    new_name :
        (j : ℕ)
        → j < old_slots entered.rip
        → j ≢ i
        → (entered.slots j).ino ≢ 0
        → same_name name_max entry.name (entered.slots j).name ≡ false
    unfolding entry
    new_name j l ne used_j =
        let (old, same) = old_slot j l ne in
        let used_j' : (slots j).ino ≢ 0 = subst (λ (e : Entry). e.ino ≢ 0) same used_j in
        same_name-padded name (entered.slots j).name
        ∙ ap (λ (e : Entry). same_name name_max name e.name) same
        ∙ same_name_symm name_max name (slots j).name
        ∙ sym (live_same name (slots j) used_j')
        ∙ view-none sp slots rip name new j old

    entered-Distinct : Distinct entered.slots entered.rip
    entered-Distinct j k a b ne used_j used_k = elim (ℕ_discrete j i) [
      | yes e ↦
          ap (λ (q : ℕ). same_name name_max (entered.slots q).name (entered.slots k).name) e
          ∙ ap (λ (q : Entry). same_name name_max q.name (entered.slots k).name) entered-Placed.here
          ∙ new_name k b (λ e'. ne (e ∙ sym e')) used_k
      | no nj ↦ elim (ℕ_discrete k i) [
        | yes e ↦
            ap (λ (q : ℕ). same_name name_max (entered.slots j).name (entered.slots q).name) e
            ∙ ap (λ (q : Entry). same_name name_max (entered.slots j).name q.name)
                entered-Placed.here
            ∙ same_name_symm name_max (entered.slots j).name entry.name
            ∙ new_name j a nj used_j
        | no nk ↦
            let (lj, sj) = old_slot j a nj in
            let (lk, sk) = old_slot k b nk in
            ap (λ (q : Entry). same_name name_max q.name (entered.slots k).name) sj
            ∙ ap (λ (q : Entry). same_name name_max (slots j).name q.name) sk
            ∙ d j k lj lk ne (subst (λ (q : Entry). q.ino ≢ 0) sj used_j)
                (subst (λ (q : Entry). q.ino ≢ 0) sk used_k)
      ]
    ]

    pub entered-Updated : Updated sp slots rip name (some numb) entered.slots entered.rip
    unfolding entry
    entered-Updated = (
      λ other. elim (Bool-cases (same_name name_max name other)) [
        | inl same ↦ rw same (
            view-placed_self sp slots entered.slots rip entered.rip i entry entered-Placed other
              (entry_live other ∙ same) (view_same sp slots rip name other same new)
            ∙ ap some (conv4-conv4 sp.native numb small))
        | inr apart ↦ rw apart (
            view-placed_other sp slots entered.slots rip entered.rip i entry entered-Placed other
              (entry_live other ∙ apart))
      ],
      entered-Distinct,
    )
