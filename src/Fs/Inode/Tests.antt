-- ===== src/Fs/Inode/Tests.antt =====
-- The inode of a directory, and how it comes back from the disk.
use sdios.Prelude.{◌≡◌, refl, true, false, none, [], ◌∷◌}
use sdios.Fs.Inode.{Inode}
use sdios.Fs.Inode.Copy.{read_new, write_new}
use sdios.Fs.Words.{conv2, conv4}

abbrev pub home : Inode
home = record {
  mode = 16877;
  nlinks = 3;
  uid = 5;
  gid = 4;
  size = 128;
  atime = 1200000000;
  mtime = 1190000000;
  ctime = 1195000000;
  zone = 70 ∷ 71 ∷ 0 ∷ 0 ∷ 0 ∷ 0 ∷ 0 ∷ 90 ∷ 0 ∷ 0 ∷ [];
  dev = 0x200;
  num = 20;
  count = 1;
  ndzones = 0;
  nindirs = 0;
  sp = none;
  dirt = true;
  pipe = false;
  mount = false;
  seek = false;
  update_atime = false;
  update_ctime = false;
  update_mtime = false;
}

-- On a disk of the other byte order the inode comes back with the sizes that the disk does not hold.
home_back :
    read_new false 1024 (write_new false home) home ≡ record home { ndzones = 7; nindirs = 256 }
unfolding read_new write_new conv2 conv4
home_back = refl
