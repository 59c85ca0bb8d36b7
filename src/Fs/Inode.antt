-- ===== src/Fs/Inode.antt =====
-- The in-core inode of sdios/src/minix3fs/servers/fs/inode.h, and the mode words.
pub mod Copy
pub mod RoundTrip
pub mod Tests
use sdios.Prelude.{ℕ, ◌/◌, ◌%◌, Bool, List, Option}

-- A struct inode. `sp` is a slot of the super block table; flags are Booleans, and the three bits of
-- i_update are three fields. `dev` 0 is NO_DEV.
-- uid and gid are the bit patterns of signed numbers of 16 and 8 bits.
pub record Inode : Type 0 where
  pub mode : ℕ
  pub nlinks : ℕ
  pub uid : ℕ
  pub gid : ℕ
  pub size : ℕ
  pub atime : ℕ
  pub mtime : ℕ
  pub ctime : ℕ
  pub zone : List ℕ
  pub dev : ℕ
  pub num : ℕ
  pub count : ℕ
  pub ndzones : ℕ
  pub nindirs : ℕ
  pub sp : Option ℕ
  pub dirt : Bool
  pub pipe : Bool
  pub mount : Bool
  pub seek : Bool
  pub update_atime : Bool
  pub update_ctime : Bool
  pub update_mtime : Bool

-- `mode & I_TYPE`, shifted down by twelve: the upper four bits of a 16-bit mode.
abbrev pub type_of : ℕ → ℕ
type_of mode = (mode / 4096) % 16

abbrev pub i_regular : ℕ
i_regular = 8

abbrev pub i_block_special : ℕ
i_block_special = 6

abbrev pub i_directory : ℕ
i_directory = 4

abbrev pub i_char_special : ℕ
i_char_special = 2

abbrev pub i_named_pipe : ℕ
i_named_pipe = 1

-- The bit numbers of R_BIT, W_BIT and X_BIT.
abbrev pub r_bit : ℕ
r_bit = 2

abbrev pub w_bit : ℕ
w_bit = 1

abbrev pub x_bit : ℕ
x_bit = 0
