-- ===== src/Fs/Directory/View.antt =====
-- A directory as a finite map from names to inode numbers, and LOOK_UP and IS_EMPTY on it.
use sdios.Prelude.{
  ℕ, ◌+◌, ◌-◌, ◌*◌, ◌/◌, ◌%◌, ◌^◌, ◌≤◌, ◌<◌, ◌≡◌, ◌⊎◌, inl, inr, refl, Bool, true, false, Option,
  none, some, List, [], ◌∷◌, arith, ap, sym, subst, ◌∙◌, ◌≢◌, ◌↔◌, ℕ_discrete, Bool-cases,
}
use mathlib.Core.Option
use sdios.Fs.Super.{SuperBlock}
use sdios.Fs.Inode.{Inode}
use sdios.Fs.Words.{conv4}
use sdios.Fs.Directory.{
  Entry, entry_size, Flag, same_name, dot, dot_dot, look_up, is_empty, matches, found, Answer, ok,
  enoent, enotempty, answer, search_slots, after_scan, Hit, rounds, per_block, scan_dir,
}
use sdios.Fs.Name.{name_max}
use sdios.Fs.Directory.Names.{text, same_name-text}
use sdios.Fs.Directory.Scan.{first, IsFirst, IsFirst-unique, first-IsFirst, scan_dir-search, hits}

-- A block holds some entries exactly, a directory some entries exactly, and one more entry leaves
-- its size a positive off_t.
pub record IsWhole (sp : SuperBlock) (rip : Inode) : Type 0 where
  pub blocks : sp.block_size % entry_size ≡ 0
  pub some_block : entry_size ≤ sp.block_size
  pub size : rip.size % entry_size ≡ 0
  pub fits : rip.size + entry_size < 2 ^ 31

abbrev pub old_slots : Inode → ℕ
old_slots rip = rip.size / entry_size

-- Slot j is in use and has the name.
abbrev pub live : List ℕ → (ℕ → Entry) → ℕ → Bool
live name slots j = matches look_up name (slots j)

abbrev pub number_at : SuperBlock → (ℕ → Entry) → Option ℕ → Option ℕ
number_at sp slots r = Option.map (λ i. conv4 sp.native (slots i).ino) r

-- The inode number that a name stands for.
unfoldable pub view : SuperBlock → (ℕ → Entry) → Inode → List ℕ → Option ℕ
view sp slots rip name =
    number_at sp slots (first (old_slots rip) (live name slots) (old_slots rip) 0)

-- The first slot in use with the name determines the view.
pub view-IsFirst :
    (sp : SuperBlock) (slots : ℕ → Entry) (rip : Inode) (name : List ℕ) (r : Option ℕ)
    → IsFirst (old_slots rip) (live name slots) r
    → view sp slots rip name ≡ number_at sp slots r
unfolding view
view-IsFirst sp slots rip name r h = ap (number_at sp slots) (
    IsFirst-unique (old_slots rip) (live name slots) _ r
      (first-IsFirst (old_slots rip) (live name slots)) h)

div_up : (x d : ℕ) → 0 < d → x ≤ ((x + d - 1) / d) * d
div_up x d h = grind arith

scale : (r s p : ℕ) → s * 64 ≤ r * (p * 64) → s ≤ r * p
scale r s p h = grind arith

-- The blocks of a directory hold all its slots.
pub old-le-rounds :
    (sp : SuperBlock) (rip : Inode) → IsWhole sp rip → old_slots rip ≤ rounds sp rip * per_block sp
old-le-rounds sp rip w =
    let p = per_block sp in
    let e : sp.block_size ≡ p * 64 = omega (arith, w.blocks) in
    let s : rip.size ≡ old_slots rip * 64 = omega (arith, w.size) in
    scale (rounds sp rip) (old_slots rip) p (
      subst (λ (d : ℕ). old_slots rip * 64 ≤ rounds sp rip * d) e
        (subst (λ (x : ℕ). x ≤ rounds sp rip * sp.block_size) s
          (div_up rip.size sp.block_size (omega (arith, w.some_block)))))

abbrev pub answer_of : Option ℕ → Answer
answer_of none = enoent
answer_of (some n) = answer n

pub search_slots-after :
    (sp : SuperBlock) (flag : Flag) (name : List ℕ) (numb : ℕ) (has_block : Bool)
    (slots : ℕ → Entry) (rip : Inode) (h : Hit)
    → scan_dir flag name (old_slots rip) (per_block sp) slots (rounds sp rip) 0 ≡ h
    → search_slots sp flag name numb has_block slots rip
      ≡ after_scan sp flag name numb has_block slots rip h
unfolding search_slots
search_slots-after sp flag name numb has_block slots rip h e =
    ap (after_scan sp flag name numb has_block slots rip) e

module _ (sp : SuperBlock) (name : List ℕ) (numb : ℕ) (has_block : Bool) (slots : ℕ → Entry)
    (rip : Inode) where
  looked :
      (r : Option ℕ)
      → after_scan sp look_up name numb has_block slots rip (hits found r) ≡ record {
        result = answer_of (number_at sp slots r);
        slots = slots;
        rip = rip;
        written = false;
      }
  unfolding after_scan hits
  looked none = refl
  looked (some i) = refl

  emptied :
      after_scan sp is_empty name numb has_block slots rip (hits found none)
      ≡ record { result = ok; slots = slots; rip = rip; written = false }
  unfolding after_scan hits
  emptied = refl

  kept :
      (i : ℕ)
      → after_scan sp is_empty name numb has_block slots rip (hits found (some i))
        ≡ record { result = enotempty; slots = slots; rip = rip; written = false }
  unfolding after_scan hits
  kept i = refl

-- LOOK_UP answers what the name stands for, or ENOENT when it stands for nothing, and changes nothing.
pub search_slots-look_up :
    (sp : SuperBlock) (name : List ℕ) (numb : ℕ) (has_block : Bool) (slots : ℕ → Entry)
    (rip : Inode)
    → IsWhole sp rip
    → search_slots sp look_up name numb has_block slots rip ≡ record {
      result = answer_of (view sp slots rip name);
      slots = slots;
      rip = rip;
      written = false;
    }
search_slots-look_up sp name numb has_block slots rip w =
    let (r, is, at) =
      scan_dir-search look_up name (old_slots rip) (per_block sp) slots (rounds sp rip) refl
        (old-le-rounds sp rip w) in
    search_slots-after sp look_up name numb has_block slots rip (hits found r) is
    ∙ looked sp name numb has_block slots rip r
    ∙ ap
        (λ (n : Option ℕ). record {
          result = answer_of n;
          slots = slots;
          rip = rip;
          written = false;
        })
        (sym (view-IsFirst sp slots rip name r at))

-- An entry that an empty directory may have: a free one, or one of the names "." and "..".
abbrev pub IsSpare : Entry → Type 0
IsSpare e = (e.ino ≡ 0) ⊎ ((text e.name ≡ b'.' ∷ []) ⊎ (text e.name ≡ b'.' ∷ b'.' ∷ []))

-- An entry in use with a name of its own.
abbrev pub IsNamed : Entry → Type 0
IsNamed e = (e.ino ≢ 0) × (text e.name ≢ b'.' ∷ []) × (text e.name ≢ b'.' ∷ b'.' ∷ [])

module _ (e : Entry) where
  is_dot : (same_name (name_max + 1) e.name dot ≡ true) ↔ (text e.name ≡ b'.' ∷ [])
  is_dot = same_name-text (name_max + 1) e.name dot (omega arith) (omega arith)

  is_dot_dot : (same_name (name_max + 1) e.name dot_dot ≡ true) ↔ (text e.name ≡ b'.' ∷ b'.' ∷ [])
  is_dot_dot = same_name-text (name_max + 1) e.name dot_dot (omega arith) (omega arith)

  matches-IsNamed : (string : List ℕ) → matches is_empty string e ≡ true → IsNamed e
  unfolding matches
  matches-IsNamed string h = (
    λ free. ground (arith, h, free),
    λ named. ground (arith, h, is_dot.1 named),
    λ named. ground (arith, h, is_dot_dot.1 named),
  )

  matches-IsSpare : (string : List ℕ) → matches is_empty string e ≡ false → IsSpare e
  unfolding matches
  matches-IsSpare string h = elim (ℕ_discrete e.ino 0) [
    | yes free ↦ inl free
    | no used ↦ elim (Bool-cases (same_name (name_max + 1) e.name dot)) [
      | inl hit ↦ inr (inl (is_dot.0 hit))
      | inr miss ↦ inr (inr (is_dot_dot.0 (ground (arith, h, used, miss))))
    ]
  ]

-- In a directory of whole entries and blocks, IS_EMPTY answers OK when every slot is free or holds the
-- name "." or "..", and ENOTEMPTY when some slot is in use under another name; it changes nothing. The
-- name that a slot holds is what stands in d_name before the first NUL.
pub search_slots-is_empty :
    (sp : SuperBlock) (name : List ℕ) (numb : ℕ) (has_block : Bool) (slots : ℕ → Entry)
    (rip : Inode)
    → IsWhole sp rip
    → (((j : ℕ) → j < old_slots rip → IsSpare (slots j))
        × (search_slots sp is_empty name numb has_block slots rip
            ≡ record { result = ok; slots = slots; rip = rip; written = false }))
      ⊎ (((j : ℕ) × (j < old_slots rip) × IsNamed (slots j))
          × (search_slots sp is_empty name numb has_block slots rip
              ≡ record { result = enotempty; slots = slots; rip = rip; written = false }))
search_slots-is_empty sp name numb has_block slots rip w =
    let (r, is, at) =
      scan_dir-search is_empty name (old_slots rip) (per_block sp) slots (rounds sp rip) refl
        (old-le-rounds sp rip w) in
    go r at (search_slots-after sp is_empty name numb has_block slots rip (hits found r) is)
  where
    go :
        (r : Option ℕ)
        → IsFirst (old_slots rip) (λ j. matches is_empty name (slots j)) r
        → search_slots sp is_empty name numb has_block slots rip
          ≡ after_scan sp is_empty name numb has_block slots rip (hits found r)
        → (((j : ℕ) → j < old_slots rip → IsSpare (slots j))
            × (search_slots sp is_empty name numb has_block slots rip
                ≡ record { result = ok; slots = slots; rip = rip; written = false }))
          ⊎ (((j : ℕ) × (j < old_slots rip) × IsNamed (slots j))
              × (search_slots sp is_empty name numb has_block slots rip
                  ≡ record { result = enotempty; slots = slots; rip = rip; written = false }))
    go none at e = inl (
      λ j l. matches-IsSpare (slots j) name (at j l),
      e ∙ emptied sp name numb has_block slots rip,
    )
    go (some i) (l, hit, low) e =
        inr
          ((i, l, matches-IsNamed (slots i) name hit), e ∙ kept sp name numb has_block slots rip i)
