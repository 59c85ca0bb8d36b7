-- ===== src/Fs/Pipe/Room.antt =====
-- What a checked write may do.
use sdios.Prelude.{ℕ, ◌+◌, ◌≤◌, ◌<◌, ◌≡◌, ◌≢◌, ◌⊎◌, Bool, true, false, Option, some}
use sdios.Fs.Pipe.{Checked, Reply, proceed, eagain, suspended, epipe, empty}

-- What the reply to a write means, with what is stored in canwrite.
abbrev pub Meaning : Bool → Bool → ℕ → ℕ → ℕ → Reply → Option ℕ → Type 0
Meaning reader nonblock size bytes position epipe c = reader ≡ false
Meaning reader nonblock size bytes position proceed c =
    (reader ≡ true)
    × (((c ≡ some 0) × (position + bytes ≤ size))
        ⊎ ((n : ℕ) × (c ≡ some n) × (0 < n) × (position + n ≡ size) × (n < bytes)))
Meaning reader nonblock size bytes position eagain c =
    (reader ≡ true) × (nonblock ≡ true) × (size < position + bytes)
Meaning reader nonblock size bytes position suspended c =
    (reader ≡ true) × (size < position + bytes) × (nonblock ≡ true → bytes ≡ size)
Meaning reader nonblock size bytes position empty c = reader ≢ reader

module _ (notouch : Bool) (size bytes position : ℕ) (over : size < position + bytes) where
  abbrev IsRight : Bool → Checked → Type 0
  IsRight nonblock r = Meaning true nonblock size bytes position r.reply r.canwrite
