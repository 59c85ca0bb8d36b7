-- ===== src/Fs/Protect.antt =====
-- Protection: protect.c of sdios/src/minix3fs/servers/fs. The calls are given the inode that
-- eat_path finds; when there is none they return its error and change nothing. uid_t is a signed
-- number of 16 bits and gid_t one of 8 bits.
pub mod Rights
pub mod Owner
mod Tests
use sdios.Prelude.{
  ℕ, suc, ◌+◌, ◌-◌, ◌*◌, ◌/◌, ◌%◌, ◌^◌, Bool, true, false, not, Option, none, some, List, [], ◌∷◌,
  ◌==◌, leb, ltb, ◌&&◌, ◌||◌, if◌then◌else◌,
}
use sdios.Fs.Super.{SuperBlock}
use sdios.Fs.Inode.{Inode, type_of, i_directory}

-- The fields of fproc that protection reads or writes.
pub record Process : Type 0 where
  pub umask : ℕ
  pub realuid : ℕ
  pub effuid : ℕ
  pub realgid : ℕ
  pub effgid : ℕ

pub data Access : Type 0 where
  ok eperm eacces erofs einval : Access

abbrev pub super_user : Process → Bool
super_user fp = fp.effuid == 0

unfoldable pub read_only : SuperBlock → Access
read_only sp = if sp.rd_only then erofs else ok

-- The three bits R, W and X that a mode grants to a user and a group on an inode.
unfoldable pub perm_bits : ℕ → ℕ → Inode → ℕ
perm_bits uid gid rip =
    let executable =
      not (rip.mode % 8 % 2 == 0) || not (rip.mode / 8 % 2 == 0) || not (rip.mode / 64 % 2 == 0) in
    if uid == 0
    then (if type_of rip.mode == i_directory || executable then 7 else 6)
    else if uid == rip.uid
    then rip.mode / 64 % 8
    else if gid == rip.gid
    then rip.mode / 8 % 8
    else rip.mode % 8

-- `(perm | desired) == perm` for three permission bits.
unfoldable pub granted : ℕ → ℕ → Bool
granted perm desired =
    ltb desired 8
    && leb (desired % 2) (perm % 2)
    && leb (desired / 2 % 2) (perm / 2 % 2)
    && leb (desired / 4 % 2) (perm / 4 % 2)

-- `super_block[1]` and the slots after it: the device that is mounted on an inode.
unfoldable pub find_mount : ℕ → List SuperBlock → Option ℕ
find_mount slot [] = none
find_mount slot (sp ∷ table) =
    let rest = find_mount slot table in
    elim sp.imount [ none ↦ rest | some i ↦ if i == slot then some sp.dev else rest ]

-- On the inode that permissions are read from: the root of the mounted device where one is mounted,
-- the inode itself elsewhere. `access` says that the call is ACCESS, which tests the real ids.
unfoldable pub forbidden : Bool → Process → SuperBlock → Inode → ℕ → Access
unfolding perm_bits granted read_only
forbidden access fp sp rip desired =
    let uid = if access then fp.realuid else fp.effuid in
    let gid = if access then fp.realgid else fp.effgid in
    if not (granted (perm_bits uid gid rip) desired)
    then eacces
    else if desired / 2 % 2 == 0
    then ok
    else read_only sp

-- `(i_mode & ~ALL_MODES) | (mode & ALL_MODES)`: all bits but the type and bit 9 are replaced.
unfoldable pub new_mode : ℕ → ℕ → ℕ
new_mode old mode =
    (old / 4096) * 4096 + (mode / 1024 % 4) * 1024 + (old / 512 % 2) * 512 + mode % 512

-- `mode & ~I_SET_GID_BIT`
unfoldable pub no_setgid : ℕ → ℕ
no_setgid mode = mode - (mode / 1024 % 2) * 1024

unfoldable pub do_chmod : Process → SuperBlock → ℕ → Inode → Access × Inode
unfolding read_only new_mode no_setgid
do_chmod fp sp mode rip =
    let changed = new_mode rip.mode mode in
    let kept =
      if not (super_user fp) && not (rip.gid == fp.effgid) then no_setgid changed else changed in
    if not (rip.uid == fp.effuid) && not (super_user fp)
    then (eperm, rip)
    else elim (read_only sp) [
      | ok ↦ (ok, record rip { mode = kept; update_ctime = true; dirt = true })
      | r ↦ (r, rip)
    ]

-- The 32-bit patterns of a user and a group, as the integers of a message have them.
abbrev pub wide_uid : ℕ → ℕ
wide_uid uid = if leb (2 ^ 15) uid then uid + (2 ^ 32 - 2 ^ 16) else uid

abbrev pub int_of_gid : ℕ → ℕ
int_of_gid gid = if leb (2 ^ 7) gid then gid + (2 ^ 32 - 2 ^ 8) else gid

-- The tests on a caller other than the super user.
abbrev pub refused : Process → ℕ → ℕ → Inode → Bool
refused fp owner group rip =
    not (rip.uid == fp.effuid)
    || not (wide_uid rip.uid == owner)
    || not (int_of_gid fp.effgid == group)

-- The two bits I_SET_UID_BIT and I_SET_GID_BIT are cleared when the call succeeds.
unfoldable pub do_chown : Process → SuperBlock → ℕ → ℕ → Inode → Access × Inode
unfolding read_only
do_chown fp sp owner group rip =
    let given = record rip {
      gid = group % 2 ^ 8;
      mode = rip.mode - (rip.mode / 1024 % 4) * 1024;
      update_ctime = true;
      dirt = true;
    } in
    elim (read_only sp) [
      | ok ↦
          if super_user fp
          then (ok, record given { uid = owner % 2 ^ 16 })
          else if refused fp owner group rip
          then (eperm, rip)
          else (ok, given)
      | r ↦ (r, rip)
    ]

-- The complement of the old mask, as a 16-bit number, and the new one.
unfoldable pub do_umask : ℕ → Process → ℕ × Process
do_umask co_mode fp = (65535 - fp.umask, record fp { umask = 65535 - co_mode % 512 })

-- `mode & ~(R_OK | W_OK | X_OK)` is not 0, or else the real ids are tested.
unfoldable pub do_access : Process → SuperBlock → Inode → ℕ → Access
unfolding forbidden
do_access fp sp rip mode = if ltb 7 mode then einval else forbidden true fp sp rip mode
