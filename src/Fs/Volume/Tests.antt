-- ===== src/Fs/Volume/Tests.antt =====
-- A state with one device and one inode in use, and the theorem on rw_inode on it.
use sdios.Prelude.{◌≡◌, ◌≢◌, ◌≤◌, refl, true, false, some, [], ◌∷◌, arith, replicate}
use sdios.Fs.Inode.{Inode}
use sdios.Fs.Inode.Tests.{home}
use sdios.Fs.Bitmap.Tests.{floppy, fresh}
use sdios.Fs.Super.{get_super, find_super}
use sdios.Fs.Volume.{Volume, super_of, read_inode, write_inode, timed}
use sdios.Fs.Volume.Copies.{write_inode_lem}

-- An inode of the device, whose access time is due.
abbrev pub noted : Inode
noted = record home { dev = 0x301; num = 5; ndzones = 7; nindirs = 256; update_atime = true }

-- Slot 1 is in use, the other two are free.
abbrev pub volume : Volume
volume = record {
  inodes = record home { count = 0 } ∷ noted ∷ record home { count = 0 } ∷ [];
  supers = record floppy { dev = 0 } ∷ floppy ∷ [];
  maps = λ dev. fresh;
  entries = λ dev b i. 0;
  d1_inode =
      λ dev b i. record { mode = 0; uid = 0; size = 0; mtime = 0; gid = 0; nlinks = 0; zone = [] };
  d2_inode = λ dev b i. record {
    mode = 0;
    nlinks = 0;
    uid = 0;
    gid = 0;
    size = 0;
    atime = 0;
    mtime = 0;
    ctime = 0;
    zone = replicate 10 0;
  };
  stale = λ dev b. false;
}

pub volume_super : super_of 0x301 volume ≡ some (1, floppy)
unfolding super_of get_super find_super
volume_super = refl

write_inode_lem_example :
    let rip' = record (timed 1 floppy 1300000000 noted) { dirt = false } in
    (v' : Volume) × (write_inode 1300000000 noted volume ≡ some (rip', v'))
    × (read_inode rip' v' ≡ some rip')
    × ((other : Inode)
        → 1 ≤ other.num
        → (other.dev ≡ 0x301 → other.num ≢ 5)
        → read_inode other v' ≡ read_inode other volume)
write_inode_lem_example =
    write_inode_lem 1300000000 1 floppy noted volume volume_super (omega arith, refl) (omega arith)
      (record {
        mode = omega arith;
        uid = omega arith;
        nlinks = omega arith;
        gid = omega arith;
        size = omega arith;
        atime = omega arith;
        ctime = omega arith;
        mtime = omega arith;
        zones = ground arith;
        ten = refl;
      })
      (omega arith) refl refl (omega arith)
