-- ===== src/Fs/Seek/Range.antt =====
-- Which positions do_lseek reaches.
use sdios.Prelude.{
  ℕ, ◌+◌, ◌%◌, ◌^◌, ◌≤◌, ◌<◌, ◌≡◌, ◌⊎◌, inl, inr, refl, Bool, true, false, Option, none, some, List,
  if◌then◌else◌, get_elem?, set, ◌>>=◌, arith, ap, ◌∙◌, dec_lt,
}
use sdios.Fs.Inode.{Inode}
use sdios.Fs.Filedes.{Filp, get_filp}
use sdios.Fs.Seek.{
  biased, start_of, add_offset, set_pos, settle, seek_in, seek_slot, do_lseek, Outcome, ok, einval,
}

-- The exact sum of two longs is a long.
abbrev pub InRange : ℕ → ℕ → Type 0
InRange pos offset =
    (2 ^ 31 ≤ biased pos + biased offset) × (biased pos + biased offset < 2 ^ 31 + 2 ^ 32)

-- What comes of a sum of longs: the exact sum, or none when it is no long.
abbrev pub Sum : ℕ → ℕ → Option ℕ → Type 0
Sum pos offset r =
    (InRange pos offset
      × ((p : ℕ) × (r ≡ some p) × (p < 2 ^ 32) × (biased p + 2 ^ 31 ≡ biased pos + biased offset)))
    ⊎ ((biased pos + biased offset < 2 ^ 31 ⊎ 2 ^ 31 + 2 ^ 32 ≤ biased pos + biased offset)
        × (r ≡ none))

add_offset-Sum :
    (pos offset : ℕ) → pos < 2 ^ 32 → offset < 2 ^ 32 → Sum pos offset (add_offset pos offset)
unfolding add_offset
add_offset-Sum pos offset a b = elim (dec_lt (biased pos + biased offset) (2 ^ 31)) [
  | yes low ↦ inr (inl low, ground (arith, a, b, low))
  | no above ↦ elim (dec_lt (biased pos + biased offset) (2 ^ 31 + 2 ^ 32)) [
    | yes below ↦ inl (
      (omega (arith, above), below),
      (
        (pos + offset) % 2 ^ 32,
        ground (arith, a, b, above, below),
        omega arith,
        omega (arith, a, b, above, below),
      ),
    )
    | no high ↦ inr (inr (omega (arith, high)), ground (arith, a, b, high))
  ]
]

if_no {ℓ} : {A : Type ℓ} (c : Bool) (a b : A) → c ≡ false → (if c then a else b) ≡ b
if_no true a b e = absurd (ground (arith, e))
if_no false a b e = refl

-- What a call leaves: the position at the exact sum and the result that position, or nothing changed.
abbrev pub Moved : ℕ → Filp → ℕ → ℕ → List Filp → List Inode → Option Outcome → Type 0
Moved i f pos offset filps inodes r =
    (InRange pos offset
      × ((p : ℕ) × (out : Outcome) × (r ≡ some out)
          × (out.result ≡ ok p)
          × (out.filps ≡ set filps i (record f { pos = p }))
          × (p < 2 ^ 32)
          × (biased p + 2 ^ 31 ≡ biased pos + biased offset)))
    ⊎ ((biased pos + biased offset < 2 ^ 31 ⊎ 2 ^ 31 + 2 ^ 32 ≤ biased pos + biased offset)
        × (r ≡ some (record { result = einval; filps = filps; inodes = inodes })))

module _ (whence offset : ℕ) (filps : List Filp) (inodes : List Inode) (i : ℕ) (f : Filp) (k : ℕ)
    (rip : Inode) (pos : ℕ) (file : rip.pipe ≡ false)
    (start : start_of whence f rip ≡ some pos) where
  seek_in-settle :
      (r : Option ℕ)
      → add_offset pos offset ≡ r
      → seek_in i f k rip whence offset filps inodes ≡ settle i f k rip filps inodes r
  unfolding seek_in
  seek_in-settle r e =
      if_no rip.pipe _ _ file
      ∙ ap (settle i f k rip filps inodes)
          (ap (λ (o : Option ℕ). o >>= λ q. add_offset q offset) start ∙ e)

do_lseek-seek_in :
    (fd whence offset : ℕ) (fds : List (Option ℕ)) (filps : List Filp) (inodes : List Inode) (i : ℕ)
    (f : Filp) (k : ℕ) (rip : Inode)
    → get_filp fd fds ≡ some i
    → get_elem? filps i ≡ some f
    → f.ino ≡ some k
    → get_elem? inodes k ≡ some rip
    → do_lseek fd whence offset fds filps inodes
      ≡ some (seek_in i f k rip whence offset filps inodes)
unfolding do_lseek seek_slot
do_lseek-seek_in fd whence offset fds filps inodes i f k rip a b c d =
    ap (seek_slot whence offset filps inodes) a
    ∙ ap
        (λ (o : Option Filp). o >>= λ f. f.ino >>= λ k.
          get_elem? inodes k >>= λ rip. some (seek_in i f k rip whence offset filps inodes))
        b
    ∙ ap
        (λ (o : Option ℕ). o >>= λ k.
          get_elem? inodes k >>= λ rip. some (seek_in i f k rip whence offset filps inodes))
        c
    ∙ ap (λ (o : Option Inode). o >>= λ rip. some (seek_in i f k rip whence offset filps inodes)) d

-- On a descriptor of a file that is no pipe, with a start that `whence` names and the position, the size and
-- the offset longs, do_lseek either moves the position of the filp slot to the exact sum of start and
-- offset and returns it, or, exactly when this sum is not a long, answers EINVAL and changes
-- nothing. A sum below 0 is not refused.
pub do_lseek_lem :
    (fd whence offset : ℕ) (fds : List (Option ℕ)) (filps : List Filp) (inodes : List Inode) (i : ℕ)
    (f : Filp) (k : ℕ) (rip : Inode) (pos : ℕ)
    → get_filp fd fds ≡ some i
    → get_elem? filps i ≡ some f
    → f.ino ≡ some k
    → get_elem? inodes k ≡ some rip
    → rip.pipe ≡ false
    → start_of whence f rip ≡ some pos
    → pos < 2 ^ 32
    → offset < 2 ^ 32
    → Moved i f pos offset filps inodes (do_lseek fd whence offset fds filps inodes)
unfolding set_pos settle
do_lseek_lem fd whence offset fds filps inodes i f k rip pos a b c d file start lp lo =
    let at = do_lseek-seek_in fd whence offset fds filps inodes i f k rip a b c d in
    elim (add_offset-Sum pos offset lp lo) [
      | inl (range, (p, e, small, exact)) ↦ inl (
        range,
        (
          p,
          set_pos i f k rip p filps inodes,
          at
              ∙ ap some
                  (seek_in-settle whence offset filps inodes i f k rip pos file start (some p) e),
          refl,
          refl,
          small,
          exact,
        ),
      )
      | inr (outside, e) ↦ inr (
        outside,
        at ∙ ap some (seek_in-settle whence offset filps inodes i f k rip pos file start none e),
      )
    ]
