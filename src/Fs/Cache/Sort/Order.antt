-- ===== src/Fs/Cache/Sort/Order.antt =====
-- The Shell sort of rw_scattered puts the buffers in the order of their block numbers.
use sdios.Prelude.{
  ℕ, zero, suc, ◌+◌, ◌-◌, ◌*◌, ◌/◌, ◌≤◌, ◌<◌, ◌≡◌, ◌≢◌, refl, sym, ap, ◌∙◌, subst, Bool, true, ◌&&◌,
  List, arith, ltb, leb, if◌then◌else◌, get_or, set, length, length-set, get_or-set_self,
  get_or-set_ne, ℕ_discrete, ==_no, Bool-cases, inl, inr, ltb→lt, leb_yes, [], ◌∷◌,
}
use sdios.Fs.Cache.Sort.{swap, sink, sort_gap, widen, narrow, shell_sort}
use sdios.Fs.Cache.Sort.Count.{
  Rearranged, sink-Rearranged, sort_gap-Rearranged, shell_sort-Rearranged,
}

module _ (key : ℕ → ℕ) where
  abbrev at_place : List ℕ → ℕ → ℕ
  at_place q i = key (get_or q i 0)

  -- The first m buffers are in order.
  abbrev pub IsSorted : ℕ → List ℕ → Type 0
  IsSorted m q = (i : ℕ) → suc i < m → at_place q i ≤ at_place q (suc i)

  -- They are, but for the one in place k, which may have to go down.
  record Sinking (k m : ℕ) (q : List ℕ) : Type 0 where
    pairs : (i : ℕ) → suc i < m → suc i ≢ k → at_place q i ≤ at_place q (suc i)
    bridge : (i : ℕ) → suc i ≡ k → suc (suc i) < m → at_place q i ≤ at_place q (suc (suc i))

  module _ (q : List ℕ) (i : ℕ) (h : suc i < length q) where
    swapped_low : at_place (swap i (suc i) q) i ≡ at_place q (suc i)
    swapped_low = ap key (
        get_or-set_ne (set q i (get_or q (suc i) 0)) (get_or q i 0) 0 (λ e. omega (arith, e))
        ∙ get_or-set_self q (get_or q (suc i) 0) 0 (omega (arith, h)))

    swapped_high : at_place (swap i (suc i) q) (suc i) ≡ at_place q i
    swapped_high = ap key (
        get_or-set_self (set q i (get_or q (suc i) 0)) (get_or q i 0) 0
          (omega (arith, h, length-set q i (get_or q (suc i) 0))))

    swapped_other : (x : ℕ) → x ≢ i → x ≢ suc i → at_place (swap i (suc i) q) x ≡ at_place q x
    swapped_other x ne ne' = ap key (
        get_or-set_ne (set q i (get_or q (suc i) 0)) (get_or q i 0) 0 (λ e. ne' (sym e))
        ∙ get_or-set_ne q (get_or q (suc i) 0) 0 (λ e. ne (sym e)))

    swap-Sinking :
        (m : ℕ)
        → suc i < m
        → at_place q (suc i) < at_place q i
        → Sinking (suc i) m q
        → Sinking i m (swap i (suc i) q)
    swap-Sinking m l less s = record {
      pairs = λ x lx ne. elim (ℕ_discrete x i) [
        | yes e ↦
            let lower : at_place (swap i (suc i) q) i ≤ at_place (swap i (suc i) q) (suc i) =
              omega (arith, swapped_low, swapped_high, less) in
            subst (λ y. at_place (swap i (suc i) q) y ≤ at_place (swap i (suc i) q) (suc y)) (sym e)
              lower
        | no other ↦ elim (ℕ_discrete x (suc i)) [
          | yes e ↦
              let over : at_place (swap i (suc i) q) (suc i)
                  ≤ at_place (swap i (suc i) q) (suc (suc i)) =
                omega (
                  arith,
                  swapped_high,
                  swapped_other (suc (suc i)) (λ z. omega (arith, z)) (λ z. omega (arith, z)),
                  s.bridge i refl (omega (arith, e, lx)),
                ) in
              subst (λ y. at_place (swap i (suc i) q) y ≤ at_place (swap i (suc i) q) (suc y))
                (sym e) over
          | no above ↦ omega (
            arith,
            swapped_other x other above,
            swapped_other (suc x) ne (λ z. omega (arith, z, other)),
            s.pairs x lx (λ z. omega (arith, z, other)),
          )
        ]
      ];
      bridge = λ x e lx.
          let below = s.pairs x (omega (arith, lx)) (λ z. omega (arith, z, e)) in
          let high : at_place (swap i (suc i) q) (suc (suc x)) ≡ at_place q (suc x) =
            subst (λ y. at_place (swap i (suc i) q) (suc y) ≡ at_place q y) (sym e) swapped_high in
          omega (
            arith,
            below,
            high,
            swapped_other x (λ z. omega (arith, z, e)) (λ z. omega (arith, z, e)),
          );
    }

  sink-IsSorted :
      (fuel k m : ℕ) (q : List ℕ)
      → k < fuel
      → k < m
      → m ≤ length q
      → Sinking k m q
      → IsSorted m (sink fuel key 1 k q)
  unfolding sink
  sink-IsSorted zero k m q f l b s = absurd (omega (arith, f))
  sink-IsSorted (suc fuel) zero m q f l b s = λ i h. s.pairs i h (λ z. omega (arith, z))
  sink-IsSorted (suc fuel) (suc k) m q f l b s =
      let a = at_place q (suc k) in
      let step : ℕ → List ℕ = λ x.
        if leb 1 (suc k) && ltb a (at_place q x) then sink fuel key 1 x (swap x (suc k) q) else q in
      let r = swap k (suc k) q in
      let lower : leb 1 (suc k) ≡ true = leb_yes 1 (suc k) (omega arith) in
      let length_r : length r ≡ length q =
        length-set (set q k (get_or q (suc k) 0)) (suc k) (get_or q k 0)
        ∙ length-set q k (get_or q (suc k) 0) in
      let choose : Bool → List ℕ = λ t. if t then sink fuel key 1 k r else q in
      subst (λ x. IsSorted m (step x)) {x = k} {y = suc k - 1} (omega arith)
        (elim (Bool-cases (ltb a (at_place q k))) [
          | inl h ↦
              subst (IsSorted m)
                (sym (ap (λ t. choose (t && ltb a (at_place q k))) lower ∙ ap choose h))
                (sink-IsSorted fuel k m r (omega (arith, f)) (omega (arith, l))
                  (omega (arith, b, length_r))
                  (swap-Sinking q k (omega (arith, l, b)) m l (ltb→lt a (at_place q k) h) s))
          | inr h ↦
              subst (IsSorted m)
                (sym (ap (λ t. choose (t && ltb a (at_place q k))) lower ∙ ap choose h))
                λ i li. elim (ℕ_discrete i k) [
                  | yes e ↦
                      let high : at_place q k ≤ a = ground (arith, h) in
                      subst (λ y. at_place q y ≤ at_place q (suc y)) (sym e) high
                  | no ne ↦ s.pairs i li (λ z. omega (arith, z, ne))
                ]
        ])

  -- A pass with gap 1 puts a queue in order.
  sort_gap-IsSorted :
      (n j : ℕ) (q : List ℕ)
      → j + n ≡ length q
      → 0 < j
      → IsSorted j q
      → IsSorted (length q) (sort_gap n key 1 j q)
  unfolding sort_gap
  sort_gap-IsSorted zero j q e pos s = subst (λ m. IsSorted m q) (omega (arith, e)) s
  sort_gap-IsSorted (suc n) j q e pos s =
      let q1 = sink (suc j) key 1 j q in
      let r = sink-Rearranged (suc j) key 1 j q (omega (arith, e)) in
      let start : Sinking j (suc j) q = record {
        pairs = λ i l ne. s i (omega (arith, l, ne));
        bridge = λ i e l. absurd (omega (arith, e, l));
      } in
      let sorted =
        sink-IsSorted (suc j) j (suc j) q (omega arith) (omega arith) (omega (arith, e)) start in
      subst (λ m. IsSorted m (sort_gap n key 1 (suc j) q1)) r.0
        (sort_gap-IsSorted n (suc j) q1 (omega (arith, e, r.0)) (omega arith) sorted)

  -- The gaps of the sort: 1, 4, 13 and so on.
  abbrev ladder : ℕ → ℕ
  ladder zero = 1
  ladder (suc m) = 3 * ladder m + 1

  ladder-positive : (m : ℕ) → 0 < ladder m
  ladder-positive zero = omega arith
  ladder-positive (suc m) = omega arith

  narrow-one : (fuel : ℕ) (q : List ℕ) → narrow fuel key 1 q ≡ q
  unfolding narrow
  narrow-one zero q = refl
  narrow-one (suc fuel) q = refl

  last_pass : (q : List ℕ) → IsSorted (length q) (sort_gap (length q - 1) key 1 1 q)
  unfolding sort_gap
  last_pass [] = λ i l. absurd (omega (arith, l))
  last_pass (x ∷ xs) =
      sort_gap-IsSorted (length (x ∷ xs) - 1) 1 (x ∷ xs) (omega arith) (omega arith)
        (λ i l. absurd (omega (arith, l)))

  abbrev pass : ℕ → List ℕ → List ℕ
  pass m q = sort_gap (length q - ladder m) key (ladder m) (ladder m) q

  narrow_step :
      (fuel m : ℕ) (q : List ℕ)
      → narrow (suc fuel) key (ladder (suc m)) q ≡ narrow fuel key (ladder m) (pass m q)
  unfolding narrow
  narrow_step fuel m q =
      let rest : ℕ → List ℕ = λ g. narrow fuel key g (sort_gap (length q - g) key g g q) in
      let gap : ladder (suc m) / 3 ≡ ladder m = omega arith in
      ap (λ t. if t then q else rest (ladder (suc m) / 3))
        (==_no (ladder (suc m)) 1 (λ z. omega (arith, z, ladder-positive m)))
      ∙ ap rest gap

  narrow-IsSorted :
      (fuel m : ℕ) (q : List ℕ)
      → m < fuel
      → IsSorted (length q) (narrow fuel key (ladder (suc m)) q)
  narrow-IsSorted zero m q l = absurd (omega (arith, l))
  narrow-IsSorted (suc fuel) zero q l =
      subst (IsSorted (length q)) (sym (narrow_step fuel 0 q ∙ narrow-one fuel (pass 0 q)))
        (last_pass q)
  narrow-IsSorted (suc fuel) (suc m) q l =
      let g = ladder (suc m) in
      let r = sort_gap-Rearranged (length q - g) key g g q (λ p. omega (arith, p)) in
      subst (IsSorted (length q)) (sym (narrow_step fuel (suc m) q)) (
        subst (λ n. IsSorted n (narrow fuel key g (pass (suc m) q))) r.0
          (narrow-IsSorted fuel m (pass (suc m) q) (omega (arith, l))))

  -- The first gap is one of the ladder, and not above the place that the fuel allows.
  widen-ladder :
      (fuel n k : ℕ) → (m : ℕ) × (widen fuel n (ladder k) ≡ ladder (suc m)) × (m ≤ k + fuel)
  unfolding widen
  widen-ladder zero n k = (k, refl, omega arith)
  widen-ladder (suc fuel) n k =
      let rest = widen fuel n (ladder (suc k)) in
      elim (Bool-cases (leb (ladder (suc k)) n)) [
        | inl h ↦
            let (m, e, l) = widen-ladder fuel n (suc k) in
            (m, ap (λ t. if t then rest else ladder (suc k)) h ∙ e, omega (arith, l))
        | inr h ↦ (k, ap (λ t. if t then rest else ladder (suc k)) h, omega arith)
      ]

  -- The Shell sort of rw_scattered gives the same buffers, each as often, with no block number below the
  -- one before it.
  pub shell_sort_lem :
      (q : List ℕ) → Rearranged q (shell_sort key q) × IsSorted (length q) (shell_sort key q)
  unfolding shell_sort
  shell_sort_lem q =
      let n = length q in
      let (m, e, l) = widen-ladder n n 0 in
      (
        shell_sort-Rearranged key q,
        subst (λ g. IsSorted n (narrow (suc n) key g q)) (sym e)
            (narrow-IsSorted (suc n) m q (omega (arith, l))),
      )
