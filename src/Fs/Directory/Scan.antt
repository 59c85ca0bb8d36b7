-- ===== src/Fs/Directory/Scan.antt =====
-- The two loops of search_dir as a search for the first slot with a property.
use sdios.Prelude.{
  ℕ, zero, suc, ◌+◌, ◌*◌, ◌≤◌, ◌<◌, ◌≡◌, ◌⊎◌, inl, inr, refl, Bool, true, false, ◌||◌, Option, none,
  some, List, ◌==◌, leb, if◌then◌else◌, arith, ap, ap₂, subst, ◌∙◌, Bool-cases, ℕ_discrete, dec_lt,
  leb_yes, leb_no,
}
use sdios.Fs.Directory.{
  Entry, Flag, enter, is_enter, Hit, found, room, passed, matches, scan_block, scan_dir, go_on,
}

-- The first of the n slots from i on that has property p, among those below `limit`.
unfoldable pub first : ℕ → (ℕ → Bool) → ℕ → ℕ → Option ℕ
first limit p zero i = none
first limit p (suc n) i =
    let rest = first limit p n (suc i) in if leb limit i then none else if p i then some i else rest

-- What it means to be the first slot, or that there is none.
abbrev pub IsFirst : ℕ → (ℕ → Bool) → Option ℕ → Type 0
IsFirst limit p none = (j : ℕ) → j < limit → p j ≡ false
IsFirst limit p (some i) = (i < limit) × (p i ≡ true) × ((j : ℕ) → j < i → p j ≡ false)

abbrev FirstFrom : ℕ → (ℕ → Bool) → ℕ → ℕ → Option ℕ → Type 0
FirstFrom limit p n i none = (j : ℕ) → i ≤ j → j < i + n → j < limit → p j ≡ false
FirstFrom limit p n i (some k) =
    (i ≤ k) × (k < i + n) × (k < limit) × (p k ≡ true) × ((j : ℕ) → i ≤ j → j < k → p j ≡ false)

first-FirstFrom : (limit : ℕ) (p : ℕ → Bool) (n i : ℕ) → FirstFrom limit p n i (first limit p n i)
unfolding first
first-FirstFrom limit p zero i = λ j a b c. absurd (omega arith)
first-FirstFrom limit p (suc n) i = elim (dec_lt i limit) [
  | no over ↦
      rw (leb_yes limit i (omega (arith, over))) (λ j a b c. absurd (omega (arith, over, a, c)))
  | yes within ↦ rw (leb_no limit i within) (elim (Bool-cases (p i)) [
    | inl hit ↦
        rw hit (omega arith, omega arith, within, hit, λ j a b. absurd (omega (arith, a, b)))
    | inr miss ↦ rw miss (later (first limit p n (suc i)) miss (first-FirstFrom limit p n (suc i)))
  ])
]
  where
    here : (j : ℕ) → p i ≡ false → i ≤ j → (suc i ≤ j) ⊎ (p j ≡ false)
    here j miss a = elim (ℕ_discrete i j) [
      | yes e ↦ inr (subst (λ (k : ℕ). p k ≡ false) e miss)
      | no ne ↦ inl (omega (arith, ne, a))
    ]

    later :
        (r : Option ℕ) → p i ≡ false → FirstFrom limit p n (suc i) r → FirstFrom limit p (suc n) i r
    later none miss h =
        λ j a b c. elim (here j miss a) [ inl more ↦ h j more (omega (arith, b)) c | inr e ↦ e ]
    later (some k) miss (a, b, c, hit, low) = (
      omega (arith, a),
      omega (arith, b),
      c,
      hit,
      λ j d e. elim (here j miss d) [ inl more ↦ low j more e | inr q ↦ q ],
    )

-- There is only one first slot.
pub IsFirst-unique :
    (limit : ℕ) (p : ℕ → Bool) (r r' : Option ℕ) → IsFirst limit p r → IsFirst limit p r' → r ≡ r'
IsFirst-unique limit p none none a b = refl
IsFirst-unique limit p none (some i) a (l, hit, low) = absurd (ground (arith, a i l))
IsFirst-unique limit p (some i) none (l, hit, low) b = absurd (ground (arith, b i l))
IsFirst-unique limit p (some i) (some k) (l, hit, low) (l', hit', low') = elim (dec_lt i k) [
  | yes less ↦ absurd (ground (arith, low' i less))
  | no more ↦ elim (dec_lt k i) [
    | yes less ↦ absurd (ground (arith, low k less))
    | no same ↦ ap some (omega (arith, more, same))
  ]
]

first-over : (limit : ℕ) (p : ℕ → Bool) (n i : ℕ) → limit ≤ i → first limit p n i ≡ none
unfolding first
first-over limit p zero i l = refl
first-over limit p (suc n) i l = rw (leb_yes limit i l) refl

-- A search of a + b slots goes on behind the first a.
unfoldable pub or_else : Option ℕ → Option ℕ → Option ℕ
or_else none later = later
or_else (some i) later = some i

FirstFrom-or_else :
    (limit : ℕ) (p : ℕ → Bool) (a b i : ℕ) (r r' : Option ℕ)
    → FirstFrom limit p a i r
    → FirstFrom limit p b (i + a) r'
    → FirstFrom limit p (a + b) i (or_else r r')
unfolding or_else
FirstFrom-or_else limit p a b i none none h h' = λ j low high l. elim (dec_lt j (i + a)) [
  | yes before ↦ h j low before l
  | no after ↦ h' j (omega (arith, after)) (omega (arith, high)) l
]
FirstFrom-or_else limit p a b i none (some k) h (low', high', l', hit', first') = (
  omega (arith, low'),
  omega (arith, high'),
  l',
  hit',
  λ j low high. elim (dec_lt j (i + a)) [
    | yes before ↦ h j low before (omega (arith, high, l'))
    | no after ↦ first' j (omega (arith, after)) high
  ],
)
FirstFrom-or_else limit p a b i (some k) r' (low, high, l, hit, firsts) h' =
    (low, omega (arith, high), l, hit, firsts)

-- What a search finds, as the loops report it.
unfoldable pub hits : (ℕ → Hit) → Option ℕ → Hit
hits c none = passed
hits c (some i) = c i

scan_block-search :
    (flag : Flag) (string : List ℕ) (old : ℕ) (slots : ℕ → Entry) (n i : ℕ)
    → is_enter flag ≡ false
    → scan_block flag string old slots n i
      ≡ hits found (first old (λ j. matches flag string (slots j)) n i)
unfolding scan_block first hits
scan_block-search flag string old slots zero i e = refl
scan_block-search flag string old slots (suc n) i e = elim (Bool-cases (leb old i)) [
  | inl over ↦ rw (over, e) refl
  | inr within ↦ elim (Bool-cases (matches flag string (slots i))) [
    | inl hit ↦ rw (within, hit) refl
    | inr miss ↦ rw (within, miss, e) (scan_block-search flag string old slots n (suc i) e)
  ]
]

-- A slot that ENTER takes: one behind the last, or one that is not in use.
abbrev pub has_room : ℕ → (ℕ → Entry) → ℕ → Bool
has_room old slots j = leb old j || (slots j).ino == 0

scan_block-enter :
    (string : List ℕ) (old limit : ℕ) (slots : ℕ → Entry) (n i : ℕ)
    → i + n ≤ limit
    → scan_block enter string old slots n i ≡ hits room (first limit (has_room old slots) n i)
unfolding scan_block first hits matches
scan_block-enter string old limit slots zero i l = refl
scan_block-enter string old limit slots (suc n) i l =
    rw (leb_no limit i (omega (arith, l))) (elim (Bool-cases (leb old i)) [
      | inl over ↦ rw (over) refl
      | inr within ↦ elim (Bool-cases ((slots i).ino == 0)) [
        | inl free ↦ rw (within, free) refl
        | inr used ↦
            rw (within, used) (scan_block-enter string old limit slots n (suc i) (omega (arith, l)))
      ]
    ])

-- What the loop over the blocks reports, when the loop over each block is such a search.
module _ (flag : Flag) (string : List ℕ) (old per limit : ℕ) (slots : ℕ → Entry) (c : ℕ → Hit)
    (p : ℕ → Bool) where
  abbrev Reported : ℕ → ℕ → Type 0
  Reported n k =
      (r : Option ℕ) × (scan_dir flag string old per slots n k ≡ hits c r)
      × FirstFrom limit p (n * per) (k * per) r

  joined :
      ((i : ℕ) (h : Hit) → go_on (c i) h ≡ c i)
      → (r r' : Option ℕ) → go_on (hits c r) (hits c r') ≡ hits c (or_else r r')
  unfolding go_on hits or_else
  joined stops none r' = refl
  joined stops (some i) r' = stops i (hits c r')

  reported :
      ((i : ℕ) (h : Hit) → go_on (c i) h ≡ c i)
      → (n k : ℕ)
      → ((m : ℕ)
          → m < n
          → scan_block flag string old slots per ((k + m) * per)
            ≡ hits c (first limit p per ((k + m) * per)))
      → Reported n k
  unfolding scan_dir hits
  reported stops zero k blocks = (none, refl, λ j a b. absurd (omega (arith, a, b)))
  reported stops (suc n) k blocks =
      let (r, later, from) = reported stops n (suc k) (λ m l.
        subst
          (λ (q : ℕ).
            scan_block flag string old slots per (q * per) ≡ hits c (first limit p per (q * per)))
          (omega arith) (blocks (suc m) (omega (arith, l)))) in
      let block : scan_block flag string old slots per (k * per)
          ≡ hits c (first limit p per (k * per)) =
        subst
          (λ (q : ℕ).
            scan_block flag string old slots per (q * per) ≡ hits c (first limit p per (q * per)))
          (omega arith) (blocks 0 (omega arith)) in
      let start : suc k * per ≡ k * per + per = omega arith in
      let size : per + n * per ≡ suc n * per = omega arith in
      (
        or_else (first limit p per (k * per)) r,
        ap₂ go_on block later ∙ joined stops (first limit p per (k * per)) r,
        subst (λ (q : ℕ). FirstFrom limit p q (k * per) (or_else (first limit p per (k * per)) r))
            size
            (FirstFrom-or_else limit p per (n * per) (k * per) (first limit p per (k * per)) r
              (first-FirstFrom limit p per (k * per))
              (subst (λ (q : ℕ). FirstFrom limit p (n * per) q r) start from)),
      )

inside : (m n per : ℕ) → m < n → (0 + m) * per + per ≤ n * per
inside m n per l = grind arith

whole_FirstFrom :
    (limit n : ℕ) (p : ℕ → Bool) (r : Option ℕ)
    → limit ≤ n
    → FirstFrom limit p n 0 r
    → IsFirst limit p r
whole_FirstFrom limit n p none l h = λ j a. h j (omega arith) (omega (arith, a, l)) a
whole_FirstFrom limit n p (some k) l (a, b, c, hit, low) = (c, hit, λ j d. low j (omega arith) d)

-- The search of all slots below the limit.
pub first-IsFirst : (limit : ℕ) (p : ℕ → Bool) → IsFirst limit p (first limit p limit 0)
first-IsFirst limit p =
    whole_FirstFrom limit limit p (first limit p limit 0) (omega arith)
      (first-FirstFrom limit p limit 0)

found_stops : (i : ℕ) (h : Hit) → go_on (found i) h ≡ found i
unfolding go_on
found_stops i h = refl

room_stops : (i : ℕ) (h : Hit) → go_on (room i) h ≡ room i
unfolding go_on
room_stops i h = refl

-- LOOK_UP, DELETE and IS_EMPTY find the first slot of the directory that matches.
pub scan_dir-search :
    (flag : Flag) (string : List ℕ) (old per : ℕ) (slots : ℕ → Entry) (n : ℕ)
    → is_enter flag ≡ false
    → old ≤ n * per
    → (r : Option ℕ) × (scan_dir flag string old per slots n 0 ≡ hits found r)
      × IsFirst old (λ j. matches flag string (slots j)) r
scan_dir-search flag string old per slots n e l =
    let p : ℕ → Bool = λ j. matches flag string (slots j) in
    let (r, is, from) =
      reported flag string old per old slots found p found_stops n 0
        (λ m _. scan_block-search flag string old slots per ((0 + m) * per) e) in
    (
      r,
      is,
      whole_FirstFrom old (n * per) p r l
          (subst (λ (q : ℕ). FirstFrom old p (n * per) q r) (omega arith) from),
    )

-- ENTER finds the first slot of the blocks that has room.
pub scan_dir-enter :
    (string : List ℕ) (old per : ℕ) (slots : ℕ → Entry) (n : ℕ)
    → (r : Option ℕ) × (scan_dir enter string old per slots n 0 ≡ hits room r)
      × IsFirst (n * per) (has_room old slots) r
scan_dir-enter string old per slots n =
    let p : ℕ → Bool = has_room old slots in
    let (r, is, from) =
      reported enter string old per (n * per) slots room p room_stops n 0 (λ m l.
        scan_block-enter string old (n * per) slots per ((0 + m) * per) (inside m n per l)) in
    (
      r,
      is,
      whole_FirstFrom (n * per) (n * per) p r (omega arith)
          (subst (λ (q : ℕ). FirstFrom (n * per) p (n * per) q r) (omega arith) from),
    )
