-- ===== src/Fs/Cache/Sort.antt =====
-- The Shell sort of rw_scattered in sdios/src/minix3fs/servers/fs/cache.c, on the slots of buffers.
pub mod Count
pub mod Order
use sdios.Prelude.{
  ℕ, zero, suc, ◌+◌, ◌-◌, ◌*◌, ◌/◌, ◌&&◌, List, ◌==◌, ltb, leb, if◌then◌else◌, get_or, set, length,
}

abbrev pub swap : ℕ → ℕ → List ℕ → List ℕ
swap i j q = set (set q i (get_or q j 0)) j (get_or q i 0)

-- `for (i = j - gap; i >= 0 && ...; i -= gap)` with k for i + gap, so that i is never below zero.
unfoldable pub sink : ℕ → (ℕ → ℕ) → ℕ → ℕ → List ℕ → List ℕ
sink zero key gap k q = q
sink (suc fuel) key gap k q =
    let rest = sink fuel key gap (k - gap) (swap (k - gap) k q) in
    if leb gap k && ltb (key (get_or q k 0)) (key (get_or q (k - gap) 0)) then rest else q

-- `for (j = gap; j < bufqsize; j++)`, with n rounds left.
unfoldable pub sort_gap : ℕ → (ℕ → ℕ) → ℕ → ℕ → List ℕ → List ℕ
unfolding sink
sort_gap zero key gap j q = q
sort_gap (suc n) key gap j q = sort_gap n key gap (suc j) (sink (suc j) key gap j q)

-- `do gap = 3 * gap + 1; while (gap <= bufqsize)`.
unfoldable pub widen : ℕ → ℕ → ℕ → ℕ
widen zero n gap = 3 * gap + 1
widen (suc fuel) n gap =
    let rest = widen fuel n (3 * gap + 1) in if leb (3 * gap + 1) n then rest else 3 * gap + 1

-- `while (gap != 1)`.
unfoldable pub narrow : ℕ → (ℕ → ℕ) → ℕ → List ℕ → List ℕ
unfolding sort_gap
narrow zero key gap q = q
narrow (suc fuel) key gap q =
    let g = gap / 3 in
    let rest = narrow fuel key g (sort_gap (length q - g) key g g q) in if gap == 1 then q else rest

-- The rounds of both loops are at most the number of buffers and one.
unfoldable pub shell_sort : (ℕ → ℕ) → List ℕ → List ℕ
unfolding narrow widen
shell_sort key q = let n = length q in narrow (suc n) key (widen n n 1) q
