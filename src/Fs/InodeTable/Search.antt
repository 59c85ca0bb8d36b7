-- ===== src/Fs/InodeTable/Search.antt =====
-- What the search of the inode table finds.
use sdios.Prelude.{
  ℕ, zero, suc, ◌+◌, ◌<◌, ◌≡◌, ◌⊎◌, inl, inr, refl, true, false, Option, none, some, List, [], ◌∷◌,
  ltb, if◌then◌else◌, get_elem?, ◌>>=◌, arith, ap, subst, ◌∙◌, Bool-cases, ltb→lt,
}
use mathlib.Core.Option.{some-injective}
use sdios.Fs.Inode.{Inode}
use sdios.Fs.Volume.{Volume}
use sdios.Fs.InodeTable.{
  Seen, held, unused, is_held, search_inodes, put_slot, load, dup_inode, take_seen, get_inode,
}

-- No slot of the table holds the inode.
abbrev pub NotHeld : ℕ → ℕ → List Inode → Type 0
NotHeld dev numb table =
    (d : ℕ) (rip : Inode) → get_elem? table d ≡ some rip → is_held dev numb rip ≡ false

-- A slot of the table, as a distance from its start, with a property of what it holds.
abbrev pub SlotWith : List Inode → (ℕ → Inode → Type 0) → Type 0
SlotWith table P = (d : ℕ) × (rip : Inode) × (get_elem? table d ≡ some rip) × P d rip

-- What a search from slot i on, with the free slot xp seen before, has seen.
abbrev Finding : ℕ → ℕ → List Inode → ℕ → Option ℕ → Seen → Type 0
Finding dev numb table i xp (held k) =
    SlotWith table (λ d rip. (k ≡ i + d) × (is_held dev numb rip ≡ true))
Finding dev numb table i xp (unused r) =
    NotHeld dev numb table
    × (((r ≡ xp) × ((d : ℕ) (rip : Inode) → get_elem? table d ≡ some rip → 0 < rip.count))
        ⊎ SlotWith table (λ d rip. (r ≡ some (i + d)) × (rip.count ≡ 0)))

module _ (dev numb : ℕ) (rip : Inode) (table : List Inode) (i : ℕ) (xp : Option ℕ) where
  at_later :
      (miss : is_held dev numb rip ≡ false)
      → (seen : Seen) → Finding dev numb table (suc i) (if ltb 0 rip.count then xp else some i) seen
      → Finding dev numb (rip ∷ table) i xp seen
  at_later miss (held k) (d, q, e, (at, hit)) = (suc d, q, e, (omega (arith, at), hit))
  at_later miss (unused r) (none_held, free) = (
    not_held,
    elim free [
      | inl (same, full) ↦ last_free (Bool-cases (ltb 0 rip.count)) same full
      | inr (d, q, e, (at, z)) ↦ inr (suc d, q, e, (at ∙ ap {A = ℕ} some (omega arith), z))
    ],
  )
    where
      not_held : NotHeld dev numb (rip ∷ table)
      not_held zero q e =
          subst (λ (x : Inode). is_held dev numb x ≡ false) (some-injective _ _ e) miss
      not_held (suc d) q e = none_held d q e

      all_used :
          0 < rip.count
          → ((d : ℕ) (q : Inode) → get_elem? table d ≡ some q → 0 < q.count)
          → (d : ℕ) (q : Inode) → get_elem? (rip ∷ table) d ≡ some q
          → 0 < q.count
      all_used u full zero q e = subst (λ (x : Inode). 0 < x.count) (some-injective _ _ e) u
      all_used u full (suc d) q e = full d q e

      last_free :
          (ltb 0 rip.count ≡ true) ⊎ (ltb 0 rip.count ≡ false)
          → r ≡ (if ltb 0 rip.count then xp else some i)
          → ((d : ℕ) (q : Inode) → get_elem? table d ≡ some q → 0 < q.count)
          → ((r ≡ xp) × ((d : ℕ) (q : Inode) → get_elem? (rip ∷ table) d ≡ some q → 0 < q.count))
            ⊎ SlotWith (rip ∷ table) (λ d q. (r ≡ some (i + d)) × (q.count ≡ 0))
      last_free (inl u) same full =
          inl (ground (arith, same, u), all_used (ltb→lt 0 rip.count u) full)
      last_free (inr z) same full =
          inr (0, rip, refl, (same ∙ rw z (ap {A = ℕ} some (omega arith)), ground (arith, z)))

search_inodes_lem :
    (dev numb : ℕ) (table : List Inode) (i : ℕ) (xp : Option ℕ)
    → Finding dev numb table i xp (search_inodes dev numb table i xp)
unfolding search_inodes
search_inodes_lem dev numb [] i xp =
    (λ d rip e. absurd (ground (arith, e)), inl (refl, λ d rip e. absurd (ground (arith, e))))
search_inodes_lem dev numb (rip ∷ table) i xp = elim (Bool-cases (is_held dev numb rip)) [
  | inl hit ↦ rw hit (0, rip, refl, (omega arith, hit))
  | inr miss ↦ rw miss (
      at_later dev numb rip table i xp miss _
        (search_inodes_lem dev numb table (suc i) (if ltb 0 rip.count then xp else some i)))
]

-- What get_inode does in a free slot i.
abbrev pub loaded : ℕ → Option Volume → Option (Option ℕ × Volume)
loaded i r = r >>= λ v. some (some i, v)

-- Every branch of get_inode: a slot that holds the inode, no slot free, or a free slot.
abbrev pub Gotten : ℕ → ℕ → Volume → Option (Option ℕ × Volume) → Type 0
Gotten dev numb v out =
    SlotWith v.inodes
      (λ i rip. (is_held dev numb rip ≡ true) × (out ≡ some (some i, put_slot i (dup_inode rip) v)))
    ⊎ (NotHeld dev numb v.inodes
        × ((((d : ℕ) (rip : Inode) → get_elem? v.inodes d ≡ some rip → 0 < rip.count)
              × (out ≡ some (none, v)))
            ⊎ SlotWith v.inodes (λ i xp. (xp.count ≡ 0) × (out ≡ loaded i (load dev numb i xp v)))))

with_slot {ℓ} :
    {A : Type ℓ} (v : Volume) (i d : ℕ) (rip : Inode) (f : Inode → Option A)
    → i ≡ d
    → get_elem? v.inodes d ≡ some rip
    → (get_elem? v.inodes i >>= f) ≡ f rip
with_slot v i d rip f same e = ap (λ (o : Option Inode). o >>= f) (ap (get_elem? v.inodes) same ∙ e)

pub get_inode_cases : (dev numb : ℕ) (v : Volume) → Gotten dev numb v (get_inode dev numb v)
unfolding get_inode take_seen
get_inode_cases dev numb v =
    go (search_inodes dev numb v.inodes 0 none) (search_inodes_lem dev numb v.inodes 0 none)
  where
    go :
        (seen : Seen)
        → Finding dev numb v.inodes 0 none seen
        → Gotten dev numb v (take_seen dev numb v seen)
    go (held i) (d, rip, e, (at, hit)) =
        inl (i, rip, ap (get_elem? v.inodes) at' ∙ e, (hit, with_slot v i d rip _ at' e))
      where
        at' : i ≡ d
        at' = omega (arith, at)
    go (unused none) (a, inl (_, full)) = inr (a, inl (full, refl))
    go (unused none) (a, inr (d, rip, e, (b, z))) = absurd (ground (arith, b))
    go (unused (some i)) (a, inl (b, full)) = absurd (ground (arith, b))
    go (unused (some i)) (a, inr (d, rip, e, (b, z))) =
        inr (a, inr (i, rip, ap (get_elem? v.inodes) at' ∙ e, (z, with_slot v i d rip _ at' e)))
      where
        at' : i ≡ d
        at' = ground (arith, b)
