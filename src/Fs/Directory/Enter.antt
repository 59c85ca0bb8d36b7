-- ===== src/Fs/Directory/Enter.antt =====
-- ENTER as the addition of a name to a finite map.
pub mod Slot
use sdios.Prelude.{
  ℕ, suc, ◌*◌, ◌<◌, ◌≡◌, ◌≢◌, ◌⊎◌, Bool, false, some, List, ap, ◌∙◌, ℕ_discrete, Bool-cases, ltb_no,
  lt→ltb,
}
use sdios.Fs.Name.{name_max}
use sdios.Fs.Super.{SuperBlock}
use sdios.Fs.Inode.{Inode}
use sdios.Fs.Words.{conv4, conv4-conv4}
use sdios.Fs.Directory.{
  Entry, look_up, same_name, matches, padded, rounds, per_block, ok, no_block, Searched,
}
use sdios.Fs.Directory.Names.{same_name_symm, same_name_trans, same_name-padded}
use sdios.Fs.Directory.View.{IsWhole, old_slots, view-IsFirst}
use sdios.Fs.Directory.Change.{Placed, view-placed_self, view-placed_other, view-none, live_same}
use sdios.Fs.Directory.Update.{Updated, put_slot_self, put_slot_other}
use sdios.Fs.Directory.Change.{free_not_live}

-- What ENTER leaves: the name stands for the number, or no slot was free and no block to be had.
abbrev pub Entered : SuperBlock → List ℕ → ℕ → Bool → (ℕ → Entry) → Inode → Searched → Type 0
Entered sp name numb has_block slots rip out =
    ((out.result ≡ ok) × Updated sp slots rip name (some numb) out.slots out.rip)
    ⊎ ((has_block ≡ false)
        × ((j : ℕ) → j < old_slots rip → (slots j).ino ≢ 0)
        × (out ≡ record { result = no_block; slots = slots; rip = rip; written = false }))

-- No slot of the blocks has room: they are all in use.
module _ (sp : SuperBlock) (slots : ℕ → Entry) (rip : Inode) (w : IsWhole sp rip) where
  abbrev end : ℕ
  end = rounds sp rip * per_block sp
