-- ===== src/Fs/Directory/Change.antt =====
-- How the view of a directory changes when one slot does.
use sdios.Prelude.{
  ℕ, suc, ◌<◌, ◌≡◌, ◌≢◌, ◌⊎◌, inl, inr, refl, true, false, Option, none, some, List, arith, ap, sym,
  ◌∙◌, ℕ_discrete,
}
use sdios.Fs.Name.{name_max}
use sdios.Fs.Super.{SuperBlock}
use sdios.Fs.Inode.{Inode}
use sdios.Fs.Words.{conv4}
use sdios.Fs.Directory.{Entry, look_up, same_name, matches}
use sdios.Fs.Directory.Scan.{first, IsFirst, first-IsFirst}
use sdios.Fs.Directory.Names.{same_name_symm, same_name_trans}
use sdios.Fs.Directory.View.{old_slots, live, view, view-IsFirst}

-- A name that stands for nothing is that of no slot in use.
pub view-none :
    (sp : SuperBlock) (slots : ℕ → Entry) (rip : Inode) (name : List ℕ)
    → view sp slots rip name ≡ none
    → (j : ℕ) → j < old_slots rip
    → live name slots j ≡ false
view-none sp slots rip name e =
    go (first (old_slots rip) (live name slots) (old_slots rip) 0) refl
      (first-IsFirst (old_slots rip) (live name slots))
  where
    go :
        (r : Option ℕ)
        → first (old_slots rip) (live name slots) (old_slots rip) 0 ≡ r
        → IsFirst (old_slots rip) (live name slots) r
        → (j : ℕ) → j < old_slots rip
        → live name slots j ≡ false
    go none q h = h
    go (some i) q h = absurd (ground (arith, view-IsFirst sp slots rip name (some i) h, e))

pub free_not_live : (name : List ℕ) (e : Entry) → e.ino ≡ 0 → matches look_up name e ≡ false
unfolding matches
free_not_live name e z = rw z refl

-- Slot i takes entry e: it was free, or it is the slot behind the last one.
pub record Placed (slots slots' : ℕ → Entry) (rip rip' : Inode) (i : ℕ) (e : Entry) : Type 0 where
  pub size :
      ((i < old_slots rip) × ((slots i).ino ≡ 0) × (old_slots rip' ≡ old_slots rip))
      ⊎ ((i ≡ old_slots rip) × (old_slots rip' ≡ suc (old_slots rip)))
  pub here : slots' i ≡ e
  pub others : (j : ℕ) → j < old_slots rip → j ≢ i → slots' j ≡ slots j

module _ (sp : SuperBlock) (slots slots' : ℕ → Entry) (rip rip' : Inode) (i : ℕ) (e : Entry)
    (p : Placed slots slots' rip rip' i e) (name : List ℕ) where
  -- Below the new size, a slot is the new one or an old one.
  placed_cases :
      (j : ℕ)
      → j < old_slots rip'
      → ((j ≡ i) × (live name slots' j ≡ matches look_up name e))
        ⊎ ((j ≢ i) × (j < old_slots rip) × (live name slots' j ≡ live name slots j))
  placed_cases j l = elim (ℕ_discrete j i) [
    | yes same ↦
        inl (same, ap (λ (k : ℕ). live name slots' k) same ∙ ap (matches look_up name) p.here)
    | no other ↦
        let old : j < old_slots rip = elim p.size [
          | inl (a, b, c) ↦ omega (arith, l, c)
          | inr (a, b) ↦ omega (arith, l, b, other, a)
        ] in
        inr (other, old, ap (matches look_up name) (p.others j old other))
  ]

  below : i < old_slots rip'
  below = elim p.size [ inl (a, b, c) ↦ omega (arith, a, c) | inr (a, b) ↦ omega (arith, a, b) ]

  below_old : (j : ℕ) → j < i → j < old_slots rip
  below_old j l = elim p.size [
    | inl (a, b, c) ↦ omega (arith, a, l)
    | inr (a, b) ↦ omega (arith, a, l)
  ]

  pub view-placed_self :
      matches look_up name e ≡ true
      → view sp slots rip name ≡ none
      → view sp slots' rip' name ≡ some (conv4 sp.native e.ino)
  view-placed_self hit unused =
      view-IsFirst sp slots' rip' name (some i) (
        below,
        ap (matches look_up name) p.here ∙ hit,
        λ j l.
            ap (matches look_up name) (p.others j (below_old j l) (omega (arith, l)))
            ∙ view-none sp slots rip name unused j (below_old j l),
      )
      ∙ ap (λ (q : Entry). some (conv4 sp.native q.ino)) p.here

  pub view-placed_other :
      matches look_up name e ≡ false → view sp slots' rip' name ≡ view sp slots rip name
  view-placed_other miss =
      go (first (old_slots rip) (live name slots) (old_slots rip) 0)
        (first-IsFirst (old_slots rip) (live name slots))
    where
      at :
          (j : ℕ)
          → j < old_slots rip'
          → (j < old_slots rip → live name slots j ≡ false)
          → live name slots' j ≡ false
      at j l h = elim (placed_cases j l) [ inl (a, b) ↦ b ∙ miss | inr (a, b, c) ↦ c ∙ h b ]

      not_here :
          (k : ℕ) → k < old_slots rip → live name slots k ≡ true → (k ≢ i) × (k < old_slots rip')
      not_here k l hit = elim p.size [
        | inl (a, free, b) ↦ (
          λ same.
              absurd
                (ground (arith, hit, ap (live name slots) same, free_not_live name (slots i) free)),
          omega (arith, l, b),
        )
        | inr (a, b) ↦ (omega (arith, a, l), omega (arith, l, b))
      ]

      go :
          (r : Option ℕ)
          → IsFirst (old_slots rip) (live name slots) r
          → view sp slots' rip' name ≡ view sp slots rip name
      go none h =
          view-IsFirst sp slots' rip' name none (λ j l. at j l (h j))
          ∙ sym (view-IsFirst sp slots rip name none h)
      go (some k) (l, hit, low) =
          let (ne, l') = not_here k l hit in
          view-IsFirst sp slots' rip' name (some k) (
            l',
            ap (matches look_up name) (p.others k l ne) ∙ hit,
            λ j d. at j (omega (arith, d, l')) (λ _. low j d),
          )
          ∙ ap (λ (q : Entry). some (conv4 sp.native q.ino)) (p.others k l ne)
          ∙ sym (view-IsFirst sp slots rip name (some k) (l, hit, low))

-- Slot i, which is in use, is erased.
pub record Dropped (slots slots' : ℕ → Entry) (rip rip' : Inode) (i : ℕ) : Type 0 where
  pub size : old_slots rip' ≡ old_slots rip
  pub here : (slots' i).ino ≡ 0
  pub others : (j : ℕ) → j ≢ i → slots' j ≡ slots j

-- No two slots in use have the same name.
abbrev pub Distinct : (ℕ → Entry) → Inode → Type 0
Distinct slots rip =
    (i j : ℕ)
    → i < old_slots rip
    → j < old_slots rip
    → i ≢ j
    → (slots i).ino ≢ 0
    → (slots j).ino ≢ 0
    → same_name name_max (slots i).name (slots j).name ≡ false

pub live_parts :
    (name : List ℕ) (e : Entry)
    → matches look_up name e ≡ true
    → (e.ino ≢ 0) × (same_name name_max e.name name ≡ true)
unfolding matches
live_parts name e h = ground arith

pub live_same :
    (name : List ℕ) (e : Entry)
    → e.ino ≢ 0
    → matches look_up name e ≡ same_name name_max e.name name
unfolding matches
live_same name e h = ground arith

module _ (sp : SuperBlock) (slots slots' : ℕ → Entry) (rip rip' : Inode) (i : ℕ)
    (p : Dropped slots slots' rip rip' i) (name : List ℕ) where
  dropped_at : (j : ℕ) → (j ≢ i → live name slots j ≡ false) → live name slots' j ≡ false
  dropped_at j h = elim (ℕ_discrete j i) [
    | yes same ↦ ap (live name slots') same ∙ free_not_live name (slots' i) p.here
    | no other ↦ ap (matches look_up name) (p.others j other) ∙ h other
  ]

  pub view-dropped_self :
      Distinct slots rip
      → i < old_slots rip
      → live name slots i ≡ true
      → view sp slots' rip' name ≡ none
  view-dropped_self d l hit =
      view-IsFirst sp slots' rip' name none
        (λ j k. dropped_at j (only j (omega (arith, k, p.size))))
    where
      only : (j : ℕ) → j < old_slots rip → j ≢ i → live name slots j ≡ false
      only j k ne = elim (ℕ_discrete (slots j).ino 0) [
        | yes free ↦ free_not_live name (slots j) free
        | no used ↦
            let (used_i, same_i) = live_parts name (slots i) hit in
            let apart : same_name name_max (slots j).name (slots i).name ≡ false =
              d j i k l ne used used_i in
            live_same name (slots j) used
            ∙ same_name_symm name_max (slots j).name name
            ∙ same_name_trans name_max (slots i).name name (slots j).name same_i
            ∙ same_name_symm name_max (slots i).name (slots j).name
            ∙ apart
      ]

  pub view-dropped_other :
      live name slots i ≡ false → view sp slots' rip' name ≡ view sp slots rip name
  view-dropped_other miss =
      go (first (old_slots rip) (live name slots) (old_slots rip) 0)
        (first-IsFirst (old_slots rip) (live name slots))
    where
      go :
          (r : Option ℕ)
          → IsFirst (old_slots rip) (live name slots) r
          → view sp slots' rip' name ≡ view sp slots rip name
      go none h =
          view-IsFirst sp slots' rip' name none
            (λ j l. dropped_at j (λ _. h j (omega (arith, l, p.size))))
          ∙ sym (view-IsFirst sp slots rip name none h)
      go (some k) (l, hit, low) =
          let ne : k ≢ i = λ same. absurd (ground (arith, hit, ap (live name slots) same, miss)) in
          view-IsFirst sp slots' rip' name (some k) (
            omega (arith, l, p.size),
            ap (matches look_up name) (p.others k ne) ∙ hit,
            λ j d. dropped_at j (λ _. low j d),
          )
          ∙ ap (λ (q : Entry). some (conv4 sp.native q.ino)) (p.others k ne)
          ∙ sym (view-IsFirst sp slots rip name (some k) (l, hit, low))
