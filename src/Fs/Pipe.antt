-- ===== src/Fs/Pipe.antt =====
-- pipe_check of sdios/src/minix3fs/servers/fs/pipe.c, and find_filp of filedes.c. The calls of suspend,
-- release and sys_kill are listed as the effects of a check, in their order.
pub mod Room
mod Tests
use sdios.Prelude.{
  ℕ, ◌+◌, ◌-◌, ◌*◌, ◌/◌, ◌%◌, Bool, true, false, not, ◌&&◌, ◌||◌, Option, none, some, List, [], ◌∷◌,
  ◌++◌, ◌==◌, ltb, leb, if◌then◌else◌,
}
use sdios.Fs.Filedes.{Filp}

-- One of R_BIT and W_BIT.
pub data End : Type 0 where
  reading writing : End

abbrev pub has_end : End → ℕ → Bool
has_end reading mode = not (mode / 4 % 2 == 0)
has_end writing mode = not (mode / 2 % 2 == 0)

abbrev pub is_slot : Option ℕ → ℕ → Bool
is_slot none slot = false
is_slot (some i) slot = i == slot

-- Whether find_filp finds a filp of the inode in the slot.
unfoldable pub find_filp : ℕ → End → List Filp → Bool
find_filp slot bits [] = false
find_filp slot bits (f ∷ filps) =
    let rest = find_filp slot bits filps in
    if not (f.count == 0) && is_slot f.ino slot && has_end bits f.mode then true else rest

pub data Effect : Type 0 where
  suspend_caller kill_caller : Effect
  release : End → Effect

pub data Reply : Type 0 where
  proceed empty eagain suspended epipe : Reply

-- `canwrite` is what is stored there, if anything; 0 stands for numbers below 0 as well.
pub record Checked : Type 0 where
  pub reply : Reply
  pub canwrite : Option ℕ
  pub effects : List Effect

-- PIPE_SIZE
abbrev pub pipe_size : ℕ → ℕ
pipe_size block_size = 7 * block_size

-- Effects that `notouch` leaves out.
abbrev pub unless : Bool → List Effect → List Effect
unless notouch es = if notouch then [] else es

-- A read from an empty pipe. `waiting` says that susp_count is positive; suspend counts up.
unfoldable pub check_empty : Bool → Bool → Bool → Bool → Checked
check_empty writer nonblock notouch waiting =
    let woken = λ (w : Bool). if w then release writing ∷ [] else [] in
    if not writer
    then record { reply = empty; canwrite = none; effects = [] }
    else if nonblock
    then record { reply = eagain; canwrite = none; effects = unless notouch (woken waiting) }
    else record {
      reply = suspended;
      canwrite = none;
      effects = unless notouch (suspend_caller ∷ woken true);
    }

-- A write that the pipe has no room for.
unfoldable pub check_full : Bool → Bool → ℕ → ℕ → ℕ → Checked
check_full nonblock notouch size bytes position =
    let left = size - position in
    let stop : Option ℕ → Checked = λ c. record {
      reply = suspended;
      canwrite = c;
      effects = unless notouch (suspend_caller ∷ []);
    } in
    if nonblock && ltb bytes size
    then record { reply = eagain; canwrite = none; effects = [] }
    else if nonblock && ltb size bytes
    then (if ltb 0 left
        then record {
          reply = proceed;
          canwrite = some left;
          effects = unless notouch (release reading ∷ []);
        }
        else record { reply = eagain; canwrite = some left; effects = [] })
    else if ltb size bytes
    then (if ltb 0 left
        then record { reply = proceed; canwrite = some left; effects = release reading ∷ [] }
        else stop (some left))
    else stop none

-- A write, with what find_filp says of readers.
unfoldable pub check_write : Bool → Bool → Bool → ℕ → ℕ → ℕ → Checked
unfolding check_full
check_write reader nonblock notouch size bytes position =
    if not reader
    then record { reply = epipe; canwrite = none; effects = unless notouch (kill_caller ∷ []) }
    else if ltb size (position + bytes)
    then check_full nonblock notouch size bytes position
    else record {
      reply = proceed;
      canwrite = some 0;
      effects = if position == 0 then unless notouch (release reading ∷ []) else [];
    }

-- pipe_check on the pipe of `size` bytes in a slot of the inode table, whose i_size is `filled`.
unfoldable pub pipe_check : ℕ → End → Bool → ℕ → ℕ → Bool → Bool → ℕ → ℕ → List Filp → Checked
unfolding find_filp check_empty check_write
pipe_check slot reading nonblock bytes position notouch waiting filled size filps =
    if leb filled position
    then check_empty (find_filp slot writing filps) nonblock notouch waiting
    else record { reply = proceed; canwrite = some 0; effects = [] }
pipe_check slot writing nonblock bytes position notouch waiting filled size filps =
    check_write (find_filp slot reading filps) nonblock notouch size bytes position
