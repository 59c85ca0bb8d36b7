-- ===== src/Fs/Directory/Tests.antt =====
-- A directory of two entries, and the theorems on directories on it.
use sdios.Prelude.{
  ℕ, ◌≡◌, ◌<◌, ◌⊎◌, refl, true, false, List, [], ◌∷◌, arith, get_or, subst, ◌∙◌, sym, ℕ_discrete,
}
use sdios.Fs.Name.{name_max}
use sdios.Fs.Inode.Tests.{home}
use sdios.Fs.Super.Tests.{filled}
use sdios.Fs.Directory.{Entry, same_name, search_slots, look_up, delete, is_empty, ok, enotempty}
use sdios.Fs.Directory.View.{
  IsWhole, view, answer_of, IsSpare, IsNamed, search_slots-look_up, search_slots-is_empty,
}
use sdios.Fs.Directory.Change.{Distinct}
use sdios.Fs.Directory.Names.{same_name_symm}
use sdios.Fs.Directory.Delete.{Deleted, search_slots-delete}

abbrev letters : List ℕ
letters = b'a' ∷ b'b' ∷ []

abbrev other_letters : List ℕ
other_letters = b'a' ∷ b'c' ∷ []

abbrev entries : ℕ → Entry
entries i =
    get_or
      (record { ino = 20; name = b'.' ∷ [] } ∷ record { ino = 21; name = b'a' ∷ b'b' ∷ [] } ∷ []) i
      (record { ino = 0; name = [] })

home-IsWhole : IsWhole filled home
home-IsWhole = record { blocks = refl; some_block = omega arith; size = refl; fits = omega arith }

apart : same_name name_max (entries 0).name (entries 1).name ≡ false
unfolding same_name
apart = refl

entries-Distinct : Distinct entries home
entries-Distinct i j a b ne used used' = elim (ℕ_discrete i 0) [
  | yes e ↦ at 0 1 e (omega (arith, b, ne, e)) apart
  | no i_not ↦
      at 1 0 (omega (arith, a, i_not)) (omega (arith, a, b, ne, i_not))
        (same_name_symm name_max (entries 1).name (entries 0).name ∙ apart)
]
  where
    at :
        (k l : ℕ)
        → i ≡ k
        → j ≡ l
        → same_name name_max (entries k).name (entries l).name ≡ false
        → same_name name_max (entries i).name (entries j).name ≡ false
    at k l p q h =
        subst (λ (x : ℕ). same_name name_max (entries x).name (entries j).name ≡ false) (sym p)
          (subst (λ (x : ℕ). same_name name_max (entries k).name (entries x).name ≡ false) (sym q)
            h)

search_slots-look_up_example : search_slots filled look_up letters 0 true entries home ≡ record {
  result = answer_of (view filled entries home letters);
  slots = entries;
  rip = home;
  written = false;
}
search_slots-look_up_example = search_slots-look_up filled letters 0 true entries home home-IsWhole

search_slots-is_empty_example :
    (((j : ℕ) → j < 2 → IsSpare (entries j))
      × (search_slots filled is_empty [] 0 true entries home
          ≡ record { result = ok; slots = entries; rip = home; written = false }))
    ⊎ (((j : ℕ) × (j < 2) × IsNamed (entries j))
        × (search_slots filled is_empty [] 0 true entries home
            ≡ record { result = enotempty; slots = entries; rip = home; written = false }))
search_slots-is_empty_example = search_slots-is_empty filled [] 0 true entries home home-IsWhole

search_slots-delete_example :
    Deleted filled letters entries home (search_slots filled delete letters 0 true entries home)
search_slots-delete_example =
    search_slots-delete filled letters 0 true entries home home-IsWhole entries-Distinct
