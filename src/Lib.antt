-- ===== src/Lib.antt =====
-- SDIOS, a multi-server system on the L4 microkernel. This library models the file server
-- sdios/src/minix3fs/servers/fs (the MINIX 3 file server built as an SDIOS program).
--
-- Parts and files, with the code that they stand for:
--   Fs/Words      conv2 and conv4 of utility.c: byte order of 16- and 32-bit words
--   Fs/Bits       the bit operations on a bit map word
--   Fs/Super      the super block table of super.h, and get_super, get_block_size, mounted and
--                 read_super of super.c
--   Fs/Bitmap     alloc_bit and free_bit of super.c, the inode and zone maps
--   Fs/Inode      struct inode of inode.h and the mode words; Fs/Inode/Copy has the disk copies
--                 and addresses of inode.c
--   Fs/Zones      alloc_zone and free_zone of cache.c, on the zone map
--   Fs/Mapping    read_map and rd_indir of read.c, write_map and wr_indir of write.c
--   Fs/Protect    protect.c: chmod, chown, umask, access and the test of permissions
--   Fs/Filedes    get_fd and get_filp of filedes.c
--   Fs/Name       get_name of path.c and the loop of last_dir over the components of a path
--   Fs/Directory  search_dir of path.c: look up, enter, delete and is-empty
--   Fs/Volume     the state that inodes live in, and rw_inode, update_times and wipe_inode of inode.c
--   Fs/Truncate   truncate of link.c
--   Fs/InodeTable get_inode, dup_inode, put_inode, alloc_inode and free_inode of inode.c
--   Fs/Seek       do_lseek of open.c
--   Fs/Pipe       pipe_check of pipe.c and find_filp of filedes.c
--   Fs/Cache      the buffer cache: get_block, put_block, rw_block, invalidate, flushall, rw_scattered and
--                 rm_lru of cache.c, struct buf of buf.h and buf_pool of main.c
--   Fs/Locks      lock_op of lock.c, the table of advisory locks
-- Each part has its definitions in the file of its name, its theorems in the files below it,
-- and its concrete inputs in the file Tests below it.
--
-- Numbers are native naturals; where the code wraps at 32 bits the wrap is written out. Table
-- slots are list positions and pointers into tables are slot numbers. panic() is the result `none`.
-- The loops over words, blocks and slots recur on the words, rounds or slots left, so no fuel is
-- chosen for them; the search for a clear bit takes the sixteen bits of a word as its fuel;
-- the loop of last_dir takes the rounds as its fuel, and one more than the path has characters are
-- enough for every path below PATH_MAX.
--
-- In Fs/Cache a pointer to a buffer is its slot; the searches of a hash chain take the number of buffers
-- as their fuel, and a chain of a well-formed cache is no longer; the loops of rw_scattered take the
-- number of its buffers. dev_io and the drivers behind it are a parameter (Driver): the answer to a transfer
-- of one block, and how many blocks of a run are transferred. The source counts the users of a buffer
-- in a char and positions on a device in 32 bits; the model has no such bounds, so it is for fewer than
-- 128 users of a buffer and for devices that a 32-bit position reaches.
-- The other files see a block as what it holds, without the buffers.
--
-- Not modelled: the message loop, drivers, the kernel calls and the other servers of the
-- repository.
pub mod Prelude
pub mod Fs
