-- ===== src/Fs/Cache/Writes.antt =====
-- put_block: what a client sees of the blocks afterwards.
use sdios.Prelude.{
  ℕ, ◌<◌, ◌≡◌, ◌≢◌, ◌⊎◌, refl, sym, ap, ◌∙◌, subst, Bool, true, false, not, ◌&&◌, ◌||◌, some, List,
  arith, ◌==◌, if◌then◌else◌, ℕ_discrete, ==_yes, ==_no, inl, inr,
}
use sdios.Fs.Cache.{
  Buf, Cache, Driver, full, no_dev, dev_ram, modify, put_front, put_rear, end_block, rw_block,
  free_buf, put_block,
}
use sdios.Fs.Cache.Invariant.{IsValid, Unique, LruOnly, LruOnly-trans, LruOnly-Unique}
use sdios.Fs.Cache.Link.{put_front-Relinked, put_rear-Relinked}
use sdios.Fs.Cache.Put.{lost, less, less-LruOnly, lost-LruOnly}
use sdios.Fs.Cache.Rw.{rw_block-DataOnly, DataOnly-Unique}
use sdios.Fs.Cache.Content.{content-disk}
use sdios.Fs.Cache.Coherent.{
  Coherent, SameContent, content-kept, Linking-SameContent, Linking-Coherent, LruOnly-Linking,
}

abbrev Kept : Cache → Cache → Type 0
Kept c c' = SameContent c c' × Coherent c'

-- A buffer with a name is written to the disk, which holds what the buffer holds.
write-Kept :
    (io : Driver) (i : ℕ) (c : Cache)
    → io.transfer true (c.bufs i).dev (c.bufs i).blocknr ≡ full
    → i < c.size
    → (c.bufs i).dev ≢ no_dev
    → Unique c
    → Coherent c
    → Kept c (rw_block io true i c)
unfolding rw_block end_block
write-Kept io i c w l named u co =
    let b = c.bufs i in
    let r : Buf = record b { dirt = false } in
    let c' = end_block true full i c in
    let written : rw_block io true i c ≡ c' =
      ap
        (λ t.
          if t
          then modify i (λ b. record b { dirt = false }) c
          else end_block true (io.transfer true b.dev b.blocknr) i c)
        (==_no b.dev no_dev named)
      ∙ ap (λ a. end_block true a i c) w in
    let u' =
      subst Unique written
        (DataOnly-Unique c (rw_block io true i c) (rw_block-DataOnly io true i c) u) in
    let name : (j : ℕ)
        → ((c'.bufs j).dev ≡ (c.bufs j).dev)
          × ((c'.bufs j).blocknr ≡ (c.bufs j).blocknr)
          × ((c'.bufs j).contents ≡ (c.bufs j).contents) =
      λ j. elim (ℕ_discrete j i) [
        | yes e ↦ rw (==_yes j i e) (
          ap (λ k. (c.bufs k).dev) (sym e),
          ap (λ k. (c.bufs k).blocknr) (sym e),
          ap (λ k. (c.bufs k).contents) (sym e),
        )
        | no ne ↦ rw (==_no j i ne) (refl, refl, refl)
      ] in
    let elsewhere : (d n : ℕ) → (d ≢ b.dev) ⊎ (n ≢ b.blocknr) → c'.disk d n ≡ c.disk d n = λ d n ne.
      elim ne [
        | inl z ↦ rw (==_no d b.dev z) refl
        | inr z ↦ rw (==_no n b.blocknr z) (both (d == b.dev) b.contents (c.disk d n))
      ] in
    let cases : (d n : ℕ) → ((d ≡ b.dev) × (n ≡ b.blocknr)) ⊎ ((d ≢ b.dev) ⊎ (n ≢ b.blocknr)) =
      λ d n. elim (ℕ_discrete d b.dev) [
        | no z ↦ inr (inl z)
        | yes e ↦ elim (ℕ_discrete n b.blocknr) [ no z ↦ inr (inr z) | yes e' ↦ inl (e, e') ]
      ] in
    subst (Kept c) (sym written) (
      λ d n ne.
          content-kept d n c c' u u' ne
            (λ j m. let (x, y, z) = name j in ((m.0, x ∙ m.1, y ∙ m.2), z))
            (λ gone.
              content-disk d n c'
                (λ j m. let (x, y, z) = name j in gone j (m.0, sym x ∙ m.1, sym y ∙ m.2))
              ∙ elim (cases d n) [
                | inl both ↦ absurd (gone i (l, sym both.0, sym both.1))
                | inr other ↦ elsewhere d n other
              ]),
      λ j m ne clean.
          let (x, y, z) = name j in
          z ∙ elim (cases (c.bufs j).dev (c.bufs j).blocknr) [
            | inl same ↦
                ap (λ k. (c.bufs k).contents) (u j i m l (λ q. ne (x ∙ q)) same.0 same.1)
                ∙ sym (rw (x, y, ==_yes _ _ same.0, ==_yes _ _ same.1) refl)
            | inr other ↦
                co j m (λ q. ne (x ∙ q)) (flag j other ∙ clean)
                ∙ sym (rw (x, y) (elsewhere (c.bufs j).dev (c.bufs j).blocknr other))
          ],
    )
  where
    both : (t : Bool) (v w : List ℕ) → (if t && false then v else w) ≡ w
    both true v w = refl
    both false v w = refl

    flag :
        (j : ℕ)
        → ((c.bufs j).dev ≢ (c.bufs i).dev) ⊎ ((c.bufs j).blocknr ≢ (c.bufs i).blocknr)
        → (c.bufs j).dirt ≡ ((end_block true full i c).bufs j).dirt
    flag j ne = elim (ℕ_discrete j i) [
      | yes e ↦ elim ne [
        | inl z ↦ absurd (z (ap (λ k. (c.bufs k).dev) e))
        | inr z ↦ absurd (z (ap (λ k. (c.bufs k).blocknr) e))
      ]
      | no other ↦ rw (==_no j i other) refl
    ]

if-Kept :
    (b : Bool) (c x y : Cache) → (b ≡ true → Kept c x) → Kept c y → Kept c (if b then x else y)
if-Kept true c x y f g = f refl
if-Kept false c x y f g = g

relinked-Kept : (c c' : Cache) → LruOnly c c' → Unique c → Coherent c → Kept c c'
relinked-Kept c c' k u co =
    let link = LruOnly-Linking c c' k in
    (Linking-SameContent c c' link u, Linking-Coherent c c' link co)

-- Linked at either end, with no other change.
linked-LruOnly :
    (b : Bool) (i : ℕ) (c : Cache) → LruOnly c (if b then put_front i c else put_rear i c)
linked-LruOnly true i c = (put_front-Relinked i c).only
linked-LruOnly false i c = (put_rear-Relinked i c).only

and_last : (a b : Bool) → (a && b) ≡ true → b ≡ true
and_last true b e = e
and_last false b e = absurd (ground (arith, e))

-- On a device that writes each block, in a well-formed cache whose clean buffers hold what the disk
-- holds: put_block on a buffer of the pool, of any block type, changes no block for a client, and clean
-- buffers hold what the disk holds again.
pub put_block-Kept :
    (io : Driver) (one_shot write_immed : Bool) (i : ℕ) (c : Cache)
    → ((dev block : ℕ) → io.transfer true dev block ≡ full)
    → IsValid c
    → Coherent c
    → i < c.size
    → let c' = put_block io one_shot write_immed (some i) c in SameContent c c' × Coherent c'
unfolding put_block free_buf
put_block-Kept io one_shot write_immed i c w v co l =
    let c0 = lost i c in
    let at_front = (c0.bufs i).dev == dev_ram || one_shot in
    let linked = (if at_front then put_front i c0 else put_rear i c0) in
    let only = LruOnly-trans c c0 linked (lost-LruOnly i c) (linked-LruOnly at_front i c0) in
    let (same, co') = relinked-Kept c linked only v.unique co in
    let u = LruOnly-Unique c linked only v.unique in
    let low = subst (λ m. i < m) (sym (ap (λ (r : Cache). r.size) only.others)) l in
    let immediate = write_immed && (c0.bufs i).dirt && not ((c0.bufs i).dev == no_dev) in
    let dev0 : (linked.bufs i).dev ≡ (c0.bufs i).dev =
      ap (λ (r : Buf). r.dev) ((linked-LruOnly at_front i c0).bufs i) in
    if-Kept ((c.bufs i).count == 1) c (if immediate then rw_block io true i linked else linked)
      (less i c)
      (λ e.
        if-Kept immediate c (rw_block io true i linked) linked
          (λ now.
            let named : (linked.bufs i).dev ≢ no_dev = λ z.
              let flag =
                and_last (write_immed && (c0.bufs i).dirt) (not ((c0.bufs i).dev == no_dev)) now in
              ground (arith, flag, sym dev0 ∙ z) in
            let (same', co'') =
              write-Kept io i linked (w (linked.bufs i).dev (linked.bufs i).blocknr) low named u
                co' in
            (λ d n ne. same' d n ne ∙ same d n ne, co''))
          (same, co'))
      (relinked-Kept c (less i c) (less-LruOnly i c) v.unique co)
