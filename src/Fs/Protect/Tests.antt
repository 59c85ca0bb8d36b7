-- ===== src/Fs/Protect/Tests.antt =====
-- A user and a file of the user's, and the theorems of protection on them.
use sdios.Prelude.{◌≡◌, ◌≢◌, ◌⊎◌, refl, true, false, ◌+◌}
use sdios.Fs.Inode.{Inode}
use sdios.Fs.Inode.Tests.{home}
use sdios.Fs.Bitmap.Tests.{floppy}
use sdios.Fs.Protect.{
  Process, ok, eacces, do_chmod, do_chown, do_access, new_mode, no_setgid, read_only,
}
use sdios.Fs.Protect.Owner.{Changed, Given, do_chmod_lem, do_chown_lem}

abbrev user : Process
user = record { umask = 65517; realuid = 5; effuid = 5; realgid = 7; effgid = 7 }

abbrev root : Process
root = record user { effuid = 0 }

abbrev other : Process
other = record user { effuid = 6; realuid = 6 }

-- The mode 02640 on a directory of group 4: the set-group-id bit is dropped.
abbrev closed : Inode
closed = record home { mode = 16384 + 416; update_ctime = true; dirt = true }

chmod_closed : do_chmod user floppy 1440 home ≡ (ok, closed)
unfolding do_chmod new_mode no_setgid read_only
chmod_closed = refl

-- A directory without its X bits is not searched by its owner; nor by another user.
access_other : do_access other floppy closed 4 ≡ eacces
unfolding do_access
access_other = refl

do_chmod_lem_example :
    ((ok ≢ ok) × (closed ≡ home))
    ⊎ ((ok ≡ ok)
        × (floppy.rd_only ≡ false)
        × ((home.uid ≡ user.effuid) ⊎ (user.effuid ≡ 0))
        × Changed user 1440 home closed)
do_chmod_lem_example = do_chmod_lem user floppy 1440 home closed ok chmod_closed

-- The owner gives the directory to group 7.
abbrev moved : Inode
moved = record home { gid = 7; update_ctime = true; dirt = true }

chown_moved : do_chown user floppy 5 7 home ≡ (ok, moved)
unfolding do_chown read_only
chown_moved = refl

do_chown_lem_example :
    ((ok ≢ ok) × (moved ≡ home)) ⊎ ((ok ≡ ok) × (floppy.rd_only ≡ false) × Given user 7 home moved)
do_chown_lem_example = do_chown_lem user floppy 5 7 home moved ok chown_moved
