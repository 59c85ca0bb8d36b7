-- ===== src/Fs/Directory/Update.antt =====
-- What ENTER and DELETE do to a directory as a finite map from names to inode numbers.
use sdios.Prelude.{ℕ, ◌≡◌, ◌≢◌, Option, List, if◌then◌else◌, arith}
use sdios.Fs.Name.{name_max}
use sdios.Fs.Super.{SuperBlock}
use sdios.Fs.Inode.{Inode}
use sdios.Fs.Directory.{Entry, same_name, put_slot}
use sdios.Fs.Directory.View.{view}
use sdios.Fs.Directory.Change.{Distinct}

pub put_slot_self : (i : ℕ) (e : Entry) (slots : ℕ → Entry) → put_slot i e slots i ≡ e
unfolding put_slot
put_slot_self i e slots = ground arith

pub put_slot_other :
    (i j : ℕ) (e : Entry) (slots : ℕ → Entry) → j ≢ i → put_slot i e slots j ≡ slots j
unfolding put_slot
put_slot_other i j e slots ne = ground arith

-- A directory in which names stand for what they stood for, except those equal to `name`.
abbrev pub Updated :
    SuperBlock → (ℕ → Entry) → Inode → List ℕ → Option ℕ → (ℕ → Entry) → Inode → Type 0
Updated sp slots rip name value slots' rip' =
    ((other : List ℕ)
      → view sp slots' rip' other
        ≡ (if same_name name_max name other then value else view sp slots rip other))
    × Distinct slots' rip'
