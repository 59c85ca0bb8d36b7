-- ===== src/Fs/InodeTable/Tests.antt =====
-- The theorems on the inode table, on a table of three slots.
use sdios.Prelude.{ℕ, zero, suc, ◌≡◌, ◌<◌, refl, Option, none, some, arith, get_elem?, ap, sym, ◌∙◌}
use mathlib.Core.Option.{some-injective}
use sdios.Fs.Inode.{Inode}
use sdios.Fs.Super.{get_super, find_super}
use sdios.Fs.Volume.{Volume, super_of, read_inode}
use sdios.Fs.Volume.Tests.{volume, noted}
use sdios.Fs.Protect.{Process}
use sdios.Fs.Bitmap.{imap, alloc_bit, bit_blocks, start_block}
use sdios.Fs.Bitmap.Tests.{floppy, fresh, fresh-IsMap}
use sdios.Fs.Bitmap.Alloc.{map_bit}
use sdios.Fs.Bitmap.Scan.{used}
use sdios.Fs.Bits.{set_bit, bit_of, lowest_clear}
use sdios.Fs.Words.{conv2}
use sdios.Fs.Volume.Tests.{volume_super}
use sdios.Fs.InodeTable.{Allocated, slot, alloc_inode, take_bit, fill_slot}
use sdios.Prelude.{[], ◌∷◌}
use sdios.Fs.InodeTable.{enfile, put_inode}
use sdios.Fs.InodeTable.Full.{IsKept, alloc_inode-enfile}
use sdios.Fs.Bitmap.{free_bit, write_block}
use sdios.Fs.Truncate.{put_maps}
use sdios.Fs.InodeTable.{release, let_go, write_back}
use sdios.Fs.Volume.{write_inode}
use sdios.Fs.InodeTable.Release.{HasPut, put_inode-Unique}
use sdios.Fs.InodeTable.Alloc.{IsAllocated, Marked, HaveDevice, alloc_inode-IsAllocated}
use sdios.Fs.InodeTable.{get_inode, search_inodes, take_seen, load, dup_inode}
use sdios.Fs.InodeTable.Get.{Unique, HasGotten, get_inode-Unique}

-- Slot 2 is the free slot seen last.
abbrev after_miss : Option (Option ℕ × Volume)
after_miss = get_inode 0x301 6 volume

slot_of : Option (Option ℕ × Volume) → Option ℕ
slot_of none = none
slot_of (some (i, v)) = i

volume_of : Option (Option ℕ × Volume) → Volume
volume_of none = volume
volume_of (some (i, v)) = v

miss : get_inode 0x301 6 volume ≡ some (some 2, volume_of after_miss)
unfolding get_inode search_inodes take_seen load read_inode super_of get_super find_super volume_of
miss = refl

full : slot_of (get_inode 0x301 5 volume) ≡ some 1
unfolding get_inode search_inodes take_seen dup_inode slot_of
full = refl

volume-Unique : Unique volume.inodes
volume-Unique i j a b ea eb ua ub dev num = only i a ea ua ∙ sym (only j b eb ub)
  where
    only : (i : ℕ) (a : Inode) → get_elem? volume.inodes i ≡ some a → 0 < a.count → i ≡ 1
    only zero a e u = absurd (ground (arith, e, u))
    only (suc zero) a e u = refl
    only (suc (suc zero)) a e u = absurd (ground (arith, e, u))
    only (suc (suc (suc i))) a e u = absurd (ground (arith, e))

get_inode-Unique_example : HasGotten 0x301 6 2 volume (volume_of after_miss)
get_inode-Unique_example =
    get_inode-Unique 0x301 6 2 volume (volume_of after_miss) volume-Unique miss

abbrev user : Process
user = record { umask = 0; realuid = 5; effuid = 5; realgid = 4; effgid = 4 }

abbrev allocated : Option (Allocated × Volume)
allocated = alloc_inode user 0x301 33188 volume

then_volume : Option (Allocated × Volume) → Volume
then_volume none = volume
then_volume (some (r, v)) = v

allocates : alloc_inode user 0x301 33188 volume ≡ some (slot 2, then_volume allocated)
unfolding then_volume alloc_inode super_of get_super find_super alloc_bit conv2 lowest_clear
    take_bit get_inode search_inodes take_seen load fill_slot
allocates = refl

-- Only slot 1 is in use.
only_noted : (j : ℕ) (b : Inode) → get_elem? volume.inodes j ≡ some b → 0 < b.count → noted ≡ b
only_noted zero b e u = absurd (ground (arith, e, u))
only_noted (suc zero) b e u = some-injective _ _ e
only_noted (suc (suc zero)) b e u = absurd (ground (arith, e, u))
only_noted (suc (suc (suc j))) b e u = absurd (ground (arith, e))

volume-HaveDevice : HaveDevice volume.inodes
volume-HaveDevice j b e u z =
    absurd (ground (arith, ap (λ (r : Inode). r.dev) (only_noted j b e u), z))

noted_bit : map_bit floppy imap fresh 5 ≡ 1
unfolding map_bit used conv2 bit_of bit_blocks start_block
noted_bit = refl

volume-Marked : Marked 0x301 floppy volume
volume-Marked j b e u d =
    ap (λ (r : Inode). map_bit floppy imap fresh r.num) (sym (only_noted j b e u)) ∙ noted_bit

alloc_inode-IsAllocated_example :
    (rip : Inode) × IsAllocated user 0x301 33188 1 floppy 2 volume (then_volume allocated) rip
alloc_inode-IsAllocated_example =
    alloc_inode-IsAllocated user 0x301 33188 1 2 floppy volume (then_volume allocated) volume_super
      fresh-IsMap volume-Unique volume-HaveDevice volume-Marked allocates

-- The same state with no slot free.
abbrev crowded : Volume
crowded = record volume { inodes = noted ∷ [] }

abbrev refused : Option (Allocated × Volume)
refused = alloc_inode user 0x301 33188 crowded

crowded_super : super_of 0x301 crowded ≡ some (1, floppy)
unfolding super_of get_super find_super
crowded_super = refl

refuses : alloc_inode user 0x301 33188 crowded ≡ some (enfile, then_volume refused)
unfolding then_volume alloc_inode super_of get_super find_super alloc_bit free_bit conv2
    lowest_clear bit_of take_bit get_inode search_inodes take_seen fill_slot put_maps write_block
    set_bit
refuses = refl

zero_set : map_bit floppy imap fresh 0 ≡ 1
unfolding map_bit used conv2 bit_of bit_blocks start_block
zero_set = refl

alloc_inode-enfile_example : IsKept 0x301 floppy crowded (then_volume refused)
alloc_inode-enfile_example =
    alloc_inode-enfile user 0x301 33188 1 floppy crowded (then_volume refused) crowded_super refl
      fresh-IsMap zero_set refuses

-- The last use of an inode with links: its access time is set and it is written to disk.
abbrev put_away : Option Volume
put_away = put_inode 1300000000 1 volume

put_volume : Option Volume → Volume
put_volume none = volume
put_volume (some v) = v

puts : put_inode 1300000000 1 volume ≡ some (put_volume put_away)
unfolding put_volume put_inode release let_go write_back write_inode super_of get_super find_super
puts = refl

put_inode-Unique_example : HasPut 1 noted volume (put_volume put_away)
put_inode-Unique_example =
    put_inode-Unique 1300000000 1 noted volume (put_volume put_away) volume-Unique refl
      (omega arith) puts
