-- ===== src/Fs/Cache/Coherent.antt =====
-- The contents that a client sees, when buffers are linked.
use sdios.Prelude.{ℕ, ◌<◌, ◌≡◌, ◌≢◌, refl, sym, ap, ◌∙◌, subst, false, Option-cases, inl, inr}
use sdios.Fs.Cache.{Buf, Cache, no_dev}
use sdios.Fs.Cache.Invariant.{Unique, Unique-frame, LruOnly}
use sdios.Fs.Cache.Unlink.{HashOnly}
use sdios.Fs.Cache.Content.{
  content, Names, cached, cached-Names, cached_absent, content-buf, content-disk,
}

-- A clean buffer holds what the disk holds.
abbrev pub Coherent : Cache → Type 0
Coherent c =
    (j : ℕ)
    → j < c.size
    → (c.bufs j).dev ≢ no_dev
    → (c.bufs j).dirt ≡ false
    → (c.bufs j).contents ≡ c.disk (c.bufs j).dev (c.bufs j).blocknr

abbrev pub SameContent : Cache → Cache → Type 0
SameContent c c' = (dev block : ℕ) → dev ≢ no_dev → content dev block c' ≡ content dev block c

-- No buffer gets another name, other contents or another flag.
pub record Linking (c c' : Cache) : Type 0 where
  pub bufs :
      (j : ℕ)
      → c'.bufs j ≡ record (c.bufs j) {
        next = (c'.bufs j).next;
        prev = (c'.bufs j).prev;
        hash = (c'.bufs j).hash;
        count = (c'.bufs j).count;
      }
  pub others : c' ≡ record c {
    bufs = c'.bufs;
    buf_hash = c'.buf_hash;
    front = c'.front;
    rear = c'.rear;
    bufs_in_use = c'.bufs_in_use;
  }

pub Linking-trans : (a b c : Cache) → Linking a b → Linking b c → Linking a c
Linking-trans a b c p q = record {
  bufs = λ j.
      q.bufs j
      ∙ ap
          (λ (r : Buf). record r {
            next = (c.bufs j).next;
            prev = (c.bufs j).prev;
            hash = (c.bufs j).hash;
            count = (c.bufs j).count;
          })
          (p.bufs j);
  others =
      q.others
      ∙ ap
          (λ (r : Cache). record r {
            bufs = c.bufs;
            buf_hash = c.buf_hash;
            front = c.front;
            rear = c.rear;
            bufs_in_use = c.bufs_in_use;
          })
          p.others;
}

pub LruOnly-Linking : (c c' : Cache) → LruOnly c c' → Linking c c'
LruOnly-Linking c c' k = record {
  bufs = λ j.
      k.bufs j
      ∙ ap
          (λ h. record (c.bufs j) {
            next = (c'.bufs j).next;
            prev = (c'.bufs j).prev;
            hash = h;
            count = (c'.bufs j).count;
          })
          (sym (ap (λ (r : Buf). r.hash) (k.bufs j)));
  others =
      k.others
      ∙ ap
          (λ h. record c {
            bufs = c'.bufs;
            buf_hash = h;
            front = c'.front;
            rear = c'.rear;
            bufs_in_use = c'.bufs_in_use;
          })
          (sym (ap (λ (r : Cache). r.buf_hash) k.others));
}

pub HashOnly-Linking : (c c' : Cache) → HashOnly c c' → Linking c c'
HashOnly-Linking c c' k = record {
  bufs = λ j. let e = k.bufs j in rw e refl;
  others = rw k.others refl;
}

pub Linking-Unique : (c c' : Cache) → Linking c c' → Unique c → Unique c'
Linking-Unique c c' k =
    Unique-frame c c' (ap (λ (r : Cache). r.size) k.others)
      (λ j ne. ap (λ (r : Buf). r.dev) (k.bufs j)) (λ j. ap (λ (r : Buf). r.blocknr) (k.bufs j))

-- A block whose buffer is kept, or that has none and is the same on the disk.
pub content-kept :
    (dev block : ℕ) (c c' : Cache)
    → Unique c
    → Unique c'
    → dev ≢ no_dev
    → ((j : ℕ)
        → Names c j dev block
        → Names c' j dev block × ((c'.bufs j).contents ≡ (c.bufs j).contents))
    → (((j : ℕ) → ¬ Names c j dev block) → content dev block c' ≡ c.disk dev block)
    → content dev block c' ≡ content dev block c
content-kept dev block c c' u u' ne kept absent = elim (Option-cases (cached c.size dev block c)) [
  | inl e ↦
      let gone : (j : ℕ) → ¬ Names c j dev block = λ j. cached_absent dev block c j e in
      absent gone ∙ sym (content-disk dev block c gone)
  | inr p ↦
      let n = cached-Names dev block c p.0 p.1 in
      let (n', same) = kept p.0 n in
      content-buf dev block c' p.0 u' ne n' ∙ same ∙ sym (content-buf dev block c p.0 u ne n)
]

pub Linking-SameContent : (c c' : Cache) → Linking c c' → Unique c → SameContent c c'
Linking-SameContent c c' k u dev block ne =
    let size : c'.size ≡ c.size = ap (λ (r : Cache). r.size) k.others in
    let disk : c'.disk ≡ c.disk = ap (λ (r : Cache). r.disk) k.others in
    let name : (j : ℕ) → (c'.bufs j).dev ≡ (c.bufs j).dev =
      λ j. ap (λ (r : Buf). r.dev) (k.bufs j) in
    let number : (j : ℕ) → (c'.bufs j).blocknr ≡ (c.bufs j).blocknr =
      λ j. ap (λ (r : Buf). r.blocknr) (k.bufs j) in
    content-kept dev block c c' u (Linking-Unique c c' k u) ne
      (λ j n. (
        (subst (λ m. j < m) (sym size) n.0, name j ∙ n.1, number j ∙ n.2),
        ap (λ (r : Buf). r.contents) (k.bufs j),
      ))
      (λ gone.
        content-disk dev block c'
          (λ j n. gone j (subst (λ m. j < m) size n.0, sym (name j) ∙ n.1, sym (number j) ∙ n.2))
        ∙ ap (λ d. d dev block) disk)

pub Linking-Coherent : (c c' : Cache) → Linking c c' → Coherent c → Coherent c'
Linking-Coherent c c' k h j l ne clean =
    let e = k.bufs j in
    let size : c'.size ≡ c.size = ap (λ (r : Cache). r.size) k.others in
    let disk : c'.disk ≡ c.disk = ap (λ (r : Cache). r.disk) k.others in
    let name : (c'.bufs j).dev ≡ (c.bufs j).dev = ap (λ (r : Buf). r.dev) e in
    let number : (c'.bufs j).blocknr ≡ (c.bufs j).blocknr = ap (λ (r : Buf). r.blocknr) e in
    let before =
      h j (subst (λ m. j < m) size l) (λ z. ne (name ∙ z))
        (sym (ap (λ (r : Buf). r.dirt) e) ∙ clean) in
    ap (λ (r : Buf). r.contents) e ∙ before ∙ rw (name, number, disk) refl
