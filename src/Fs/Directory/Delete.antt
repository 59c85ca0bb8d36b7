-- ===== src/Fs/Directory/Delete.antt =====
-- DELETE as the removal of a name from a finite map.
use sdios.Prelude.{
  ℕ, ◌<◌, ◌≡◌, ◌≢◌, ◌⊎◌, inl, inr, refl, Bool, true, false, Option, none, some, List, ap, sym,
  subst, ◌∙◌, Bool-cases,
}
use sdios.Fs.Name.{name_max}
use sdios.Fs.Super.{SuperBlock}
use sdios.Fs.Inode.{Inode}
use sdios.Fs.Directory.{
  Entry, look_up, delete, same_name, matches, search_slots, after_scan, erased, put_slot, touched,
  rounds, per_block, ok, enoent, Searched, found,
}
use sdios.Fs.Directory.Scan.{IsFirst, scan_dir-search, hits}
use sdios.Fs.Directory.Names.{same_name_trans}
use sdios.Fs.Directory.View.{
  IsWhole, old_slots, live, view, view-IsFirst, old-le-rounds, search_slots-after,
}
use sdios.Fs.Directory.Change.{
  Dropped, Distinct, view-dropped_self, view-dropped_other, live_same, live_parts,
}
use sdios.Fs.Directory.Update.{Updated, put_slot_self, put_slot_other}

module _ (sp : SuperBlock) (name : List ℕ) (slots : ℕ → Entry) (rip : Inode) (i : ℕ)
    (d : Distinct slots rip) (l : i < old_slots rip) (hit : live name slots i ≡ true) where
  slots_erased : ℕ → Entry
  unfolding erased put_slot
  slots_erased = put_slot i (erased (slots i)) slots

  erased-Dropped : Dropped slots slots_erased rip (touched rip) i
  unfolding slots_erased erased
  erased-Dropped = record {
    size = refl;
    here = ap (λ (e : Entry). e.ino) (put_slot_self i (erased (slots i)) slots);
    others = λ j ne. put_slot_other i j (erased (slots i)) slots ne;
  }

  hit_same : (other : List ℕ) → live other slots i ≡ same_name name_max name other
  hit_same other =
      let (used, same) = live_parts name (slots i) hit in
      live_same other (slots i) used ∙ sym (same_name_trans name_max (slots i).name name other same)

  erased-Distinct : Distinct slots_erased (touched rip)
  erased-Distinct j k a b ne used used' =
      let p = erased-Dropped in
      let nj : j ≢ i = λ e. used (ap (λ (q : ℕ). (slots_erased q).ino) e ∙ p.here) in
      let nk : k ≢ i = λ e. used' (ap (λ (q : ℕ). (slots_erased q).ino) e ∙ p.here) in
      let ej = p.others j nj in
      let ek = p.others k nk in
      ap (λ (e : Entry). same_name name_max e.name (slots_erased k).name) ej
      ∙ ap (λ (e : Entry). same_name name_max (slots j).name e.name) ek
      ∙ d j k a b ne (subst (λ (e : Entry). e.ino ≢ 0) ej used)
          (subst (λ (e : Entry). e.ino ≢ 0) ek used')

  erased-Updated : Updated sp slots rip name none slots_erased (touched rip)
  erased-Updated = (
    λ other. elim (Bool-cases (same_name name_max name other)) [
      | inl same ↦ rw same (
          view-dropped_self sp slots slots_erased rip (touched rip) i erased-Dropped other d l
            (hit_same other ∙ same))
      | inr apart ↦ rw apart (
          view-dropped_other sp slots slots_erased rip (touched rip) i erased-Dropped other
            (hit_same other ∙ apart))
    ],
    erased-Distinct,
  )

  deleted :
      (numb : ℕ) (has_block : Bool)
      → after_scan sp delete name numb has_block slots rip (hits found (some i))
        ≡ record { result = ok; slots = slots_erased; rip = touched rip; written = false }
  unfolding after_scan hits slots_erased
  deleted numb has_block = refl

live_delete : (name : List ℕ) (e : Entry) → matches delete name e ≡ matches look_up name e
unfolding matches
live_delete name e = refl

free_everywhere :
    (name : List ℕ) (slots : ℕ → Entry) (rip : Inode)
    → IsFirst (old_slots rip) (λ j. matches delete name (slots j)) none
    → IsFirst (old_slots rip) (live name slots) none
free_everywhere name slots rip h j l = sym (live_delete name (slots j)) ∙ h j l

not_deleted :
    (sp : SuperBlock) (name : List ℕ) (numb : ℕ) (has_block : Bool) (slots : ℕ → Entry)
    (rip : Inode)
    → after_scan sp delete name numb has_block slots rip (hits found none)
      ≡ record { result = enoent; slots = slots; rip = rip; written = false }
unfolding after_scan hits
not_deleted sp name numb has_block slots rip = refl

-- What DELETE leaves: nothing has changed, or the name has gone.
abbrev pub Deleted : SuperBlock → List ℕ → (ℕ → Entry) → Inode → Searched → Type 0
Deleted sp name slots rip out =
    ((view sp slots rip name ≡ none)
      × (out ≡ record { result = enoent; slots = slots; rip = rip; written = false }))
    ⊎ ((out.result ≡ ok) × Updated sp slots rip name none out.slots out.rip)

-- DELETE in a directory without two slots of one name: either the name stands for nothing, the answer is
-- ENOENT and nothing changes; or the answer is OK, afterwards the name stands for nothing, every
-- other name for what it stood for, and again no two slots have one name.
pub search_slots-delete :
    (sp : SuperBlock) (name : List ℕ) (numb : ℕ) (has_block : Bool) (slots : ℕ → Entry)
    (rip : Inode)
    → IsWhole sp rip
    → Distinct slots rip
    → Deleted sp name slots rip (search_slots sp delete name numb has_block slots rip)
search_slots-delete sp name numb has_block slots rip w d =
    let (r, is, at) =
      scan_dir-search delete name (old_slots rip) (per_block sp) slots (rounds sp rip) refl
        (old-le-rounds sp rip w) in
    go r at (search_slots-after sp delete name numb has_block slots rip (hits found r) is)
  where
    go :
        (r : Option ℕ)
        → IsFirst (old_slots rip) (λ j. matches delete name (slots j)) r
        → search_slots sp delete name numb has_block slots rip
          ≡ after_scan sp delete name numb has_block slots rip (hits found r)
        → Deleted sp name slots rip (search_slots sp delete name numb has_block slots rip)
    go none h e = inl (
      view-IsFirst sp slots rip name none (free_everywhere name slots rip h),
      e ∙ not_deleted sp name numb has_block slots rip,
    )
    go (some i) (l, hit, low) e =
        let hit' : live name slots i ≡ true = sym (live_delete name (slots i)) ∙ hit in
        let q : search_slots sp delete name numb has_block slots rip ≡ _ =
          e ∙ deleted sp name slots rip i d l hit' numb has_block in
        subst (λ (out : Searched). Deleted sp name slots rip out) (sym q)
          (inr (refl, erased-Updated sp name slots rip i d l hit'))
