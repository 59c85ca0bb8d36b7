-- ===== src/Fs/Filedes/Search.antt =====
-- What get_fd finds.
use sdios.Prelude.{
  ℕ, zero, suc, ◌+◌, ◌-◌, ◌≤◌, ◌<◌, ◌≡◌, ◌≢◌, refl, Option, none, some, List, [], ◌∷◌, get_elem?,
  drop, arith, ap, sym, ◌∙◌, Option-cases, inl, inr, ℕ_discrete, set,
}
use sdios.Fs.Filedes.{Filp, ok, free_fd, free_filp, get_fd}

-- The search of the descriptors from i on, as a position of the list that is left.
free_fd-least :
    (fds : List (Option ℕ)) (i k : ℕ)
    → free_fd i fds ≡ some k
    → (d : ℕ) × (k ≡ i + d)
      × (get_elem? fds d ≡ some none)
      × ((j : ℕ) → j < d → get_elem? fds j ≢ some none)
unfolding free_fd
free_fd-least [] i k e = absurd (ground arith)
free_fd-least (none ∷ fds) i k e = (0, ground arith, refl, λ j l. absurd (omega arith))
free_fd-least (some f ∷ fds) i k e =
    let (d, at, free, least) = free_fd-least fds (suc i) k e in
    (suc d, omega (arith, at), free, taken d least)
  where
    taken :
        (d : ℕ)
        → ((j : ℕ) → j < d → get_elem? fds j ≢ some none)
        → (j : ℕ) → j < suc d
        → get_elem? (some f ∷ fds) j ≢ some none
    taken d least zero l = λ q. absurd (ground arith)
    taken d least (suc j) l = least j (omega arith)

step : (n i : ℕ) → suc (n + i) ≡ suc n + i
step n i = omega arith

get_elem?-drop : (xs : List (Option ℕ)) (n i : ℕ) → get_elem? (drop n xs) i ≡ get_elem? xs (n + i)
get_elem?-drop xs zero i = ap (get_elem? xs) (omega arith)
get_elem?-drop [] (suc n) i = refl
get_elem?-drop (x ∷ xs) (suc n) i = get_elem?-drop xs n i ∙ ap (get_elem? (x ∷ xs)) (step n i)

rest : (n j : ℕ) → n ≤ j → n + (j - n) ≡ j
rest n j h = omega arith

slot_at : (i m slot : ℕ) → i ≡ 0 + m → i ≡ slot → slot ≡ m
slot_at i m slot a b = omega arith

free_filp-unused :
    (filps : List Filp) (i k : ℕ) (f : Filp)
    → free_filp i filps ≡ some (k, f)
    → (d : ℕ) × (k ≡ i + d) × (get_elem? filps d ≡ some f) × (f.count ≡ 0)
unfolding free_filp
free_filp-unused [] i k f e = absurd (ground arith)
free_filp-unused (x ∷ filps) i k f e = elim (ℕ_discrete x.count 0) [
  | yes unused ↦
      let same : x ≡ f = ground (arith, unused) in
      (0, ground (arith, unused), ap some same, ap (λ (q : Filp). q.count) (sym same) ∙ unused)
  | no used ↦
      let (d, at, there, unused) = free_filp-unused filps (suc i) k f (ground (arith, used)) in
      (suc d, omega (arith, at), there, unused)
]

-- When get_fd succeeds, the descriptor is the lowest one from `start` on that is not in use, the slot
-- of the filp table has count 0, and only this slot changes: its mode is `bits`, its position 0,
-- and its count stays 0.
pub get_fd-ok :
    (start bits : ℕ) (fds : List (Option ℕ)) (filps filps' : List Filp) (k slot : ℕ)
    → get_fd start bits fds filps ≡ ok k slot filps'
    → (start ≤ k)
      × (get_elem? fds k ≡ some none)
      × ((j : ℕ) → start ≤ j → j < k → get_elem? fds j ≢ some none)
      × ((old new : Filp) × (get_elem? filps slot ≡ some old)
          × (old.count ≡ 0)
          × (filps' ≡ set filps slot new)
          × (new.mode ≡ bits)
          × (new.pos ≡ 0)
          × (new.count ≡ 0))
unfolding get_fd
get_fd-ok start bits fds filps filps' k slot e =
    elim (Option-cases (free_fd start (drop start fds))) [
      | inl full ↦ absurd (ground (arith, full))
      | inr (k1, fd) ↦ elim (Option-cases (free_filp 0 filps)) [
        | inl full ↦ absurd (ground (arith, fd, full))
        | inr ((i, f), filp) ↦
            let (d, at, free, least) = free_fd-least (drop start fds) start k1 fd in
            let (m, there, holds, unused) = free_filp-unused filps 0 i f filp in
            let same : k1 ≡ k = ground (arith, fd, filp) in
            let slot_is : i ≡ slot = ground (arith, fd, filp) in
            let at_k : k ≡ start + d = omega (arith, same, at) in
            let new : Filp = record f {
              mode = bits;
              pos = 0;
              selectors = 0;
              select_ops = 0;
              pipe_select_ops = 0;
              flags = 0;
            } in
            (
              omega (arith, at_k),
              ap (get_elem? fds) at_k ∙ sym (get_elem?-drop fds start d) ∙ free,
              (λ j low high used. least (j - start) (omega (arith, at_k)) (
                  get_elem?-drop fds start (j - start)
                  ∙ ap (get_elem? fds) (rest start j low)
                  ∙ used)),
              (
                f,
                new,
                ap (get_elem? filps) (slot_at i m slot there slot_is) ∙ holds,
                unused,
                ground (arith, fd, filp),
                refl,
                refl,
                unused,
              ),
            )
      ]
    ]
