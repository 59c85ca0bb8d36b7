-- ===== src/Fs/Inode/Copy.antt =====
-- The disk copies of an inode: old_icopy, new_icopy and the address computed by rw_inode, of
-- sdios/src/minix3fs/servers/fs/inode.c, with d1_inode and d2_inode of type.h.
use sdios.Prelude.{
  ℕ, ◌+◌, ◌-◌, ◌/◌, ◌%◌, ◌^◌, Bool, List, map, take, drop, ◌++◌, ◌==◌, if◌then◌else◌, leb,
}
use sdios.Fs.Words.{conv2, conv4}
use sdios.Fs.Inode.{Inode}
use sdios.Fs.Super.{SuperBlock, v1_inode_size, v2_inode_size, static_block_size}

pub record D1Inode : Type 0 where
  pub mode : ℕ
  pub uid : ℕ
  pub size : ℕ
  pub mtime : ℕ
  pub gid : ℕ
  pub nlinks : ℕ
  pub zone : List ℕ

pub record D2Inode : Type 0 where
  pub mode : ℕ
  pub nlinks : ℕ
  pub uid : ℕ
  pub gid : ℕ
  pub size : ℕ
  pub atime : ℕ
  pub mtime : ℕ
  pub ctime : ℕ
  pub zone : List ℕ

-- old_icopy with READING: nine zone numbers are read, and the tenth stays.
unfoldable pub read_old : Bool → D1Inode → Inode → Inode
read_old norm dip rip = record rip {
  mode = conv2 norm dip.mode;
  uid = conv2 norm dip.uid;
  size = conv4 norm dip.size;
  mtime = conv4 norm dip.mtime;
  atime = conv4 norm dip.mtime;
  ctime = conv4 norm dip.mtime;
  nlinks = dip.nlinks;
  gid = dip.gid;
  ndzones = 7;
  nindirs = static_block_size / 2;
  zone = map (conv2 norm) (take 9 dip.zone) ++ drop 9 rip.zone;
}

-- old_icopy with WRITING: the link count and the group are stored in one byte each.
unfoldable pub write_old : Bool → Inode → D1Inode
write_old norm rip = record {
  mode = conv2 norm rip.mode;
  uid = conv2 norm rip.uid;
  size = conv4 norm rip.size;
  mtime = conv4 norm rip.mtime;
  nlinks = rip.nlinks % 2 ^ 8;
  gid = rip.gid % 2 ^ 8;
  zone = map (conv2 norm) (take 9 rip.zone);
}

-- new_icopy with READING, from a disk with blocks of `block_size` bytes.
unfoldable pub read_new : Bool → ℕ → D2Inode → Inode → Inode
read_new norm block_size dip rip = record rip {
  mode = conv2 norm dip.mode;
  uid = conv2 norm dip.uid;
  nlinks = conv2 norm dip.nlinks;
  gid = conv2 norm dip.gid % 2 ^ 8;
  size = conv4 norm dip.size;
  atime = conv4 norm dip.atime;
  ctime = conv4 norm dip.ctime;
  mtime = conv4 norm dip.mtime;
  ndzones = 7;
  nindirs = block_size / 4;
  zone = map (conv4 norm) (take 10 dip.zone);
}

-- A group is a signed 8-bit number; this is its 16-bit pattern.
abbrev pub wide_gid : ℕ → ℕ
wide_gid gid = if leb 128 gid then gid + (2 ^ 16 - 2 ^ 8) else gid

-- new_icopy with WRITING
unfoldable pub write_new : Bool → Inode → D2Inode
write_new norm rip = record {
  mode = conv2 norm rip.mode;
  uid = conv2 norm rip.uid;
  nlinks = conv2 norm rip.nlinks;
  gid = conv2 norm (wide_gid rip.gid);
  size = conv4 norm rip.size;
  atime = conv4 norm rip.atime;
  ctime = conv4 norm rip.ctime;
  mtime = conv4 norm rip.mtime;
  zone = map (conv4 norm) (take 10 rip.zone);
}

-- The block of inode `num` in rw_inode, and its index there.
unfoldable pub inode_block : SuperBlock → ℕ → ℕ
inode_block sp num = (num - 1) / sp.inodes_per_block + (sp.imap_blocks + sp.zmap_blocks + 2)

unfoldable pub inode_index : SuperBlock → ℕ → ℕ
inode_index sp num =
    if sp.version == 1
    then (num - 1) % (static_block_size / v1_inode_size)
    else (num - 1) % (sp.block_size / v2_inode_size)
