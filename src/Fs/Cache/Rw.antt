-- ===== src/Fs/Cache/Rw.antt =====
-- What reading, writing and invalidating blocks leave alone: the chains, the counts and the block numbers,
-- whatever the device answers.
use sdios.Prelude.{
  ℕ, suc, zero, ◌≡◌, ◌≢◌, refl, sym, ap, ◌∙◌, Bool, true, false, List, ◌==◌, if◌then◌else◌, subst,
  ℕ_discrete, ==_yes, ==_no, Bool-cases, inl, inr,
}
use sdios.Fs.Cache.{
  Buf, Cache, Driver, Answer, full, short, error, no_dev, modify, fail_block, end_block, rw_block,
  invalidate_below, invalidate,
}
use sdios.Fs.Cache.Invariant.{
  IsValid, LruValid, SameNames, SameNames-HashValid, Unique, Unique-frame, SameLru, SameLru-Free,
}

pub record DataOnly (c c' : Cache) : Type 0 where
  pub bufs :
      (j : ℕ)
      → c'.bufs j ≡ record (c.bufs j) {
        contents = (c'.bufs j).contents;
        dev = (c'.bufs j).dev;
        dirt = (c'.bufs j).dirt;
      }
  pub dev : (j : ℕ) → (c'.bufs j).dev ≢ no_dev → (c'.bufs j).dev ≡ (c.bufs j).dev
  pub others : c' ≡ record c { bufs = c'.bufs; disk = c'.disk; rdwt_err = c'.rdwt_err }

pub DataOnly-refl : (c : Cache) → DataOnly c c
DataOnly-refl c = record { bufs = λ j. refl; dev = λ j ne. refl; others = refl }

pub DataOnly-trans : (a b c : Cache) → DataOnly a b → DataOnly b c → DataOnly a c
DataOnly-trans a b c p q = record {
  bufs = λ j.
      q.bufs j
      ∙ ap
          (λ (r : Buf). record r {
            contents = (c.bufs j).contents;
            dev = (c.bufs j).dev;
            dirt = (c.bufs j).dirt;
          })
          (p.bufs j);
  dev = λ j ne. q.dev j ne ∙ p.dev j (λ e. ne (q.dev j ne ∙ e));
  others =
      q.others
      ∙ ap (λ (r : Cache). record r { bufs = c.bufs; disk = c.disk; rdwt_err = c.rdwt_err })
          p.others;
}

pub DataOnly-SameNames : (c c' : Cache) → DataOnly c c' → SameNames c c'
DataOnly-SameNames c c' k = record {
  size = ap (λ (r : Cache). r.size) k.others;
  buckets = ap (λ (r : Cache). r.buckets) k.others;
  heads = ap (λ (r : Cache). r.buf_hash) k.others;
  hash = λ j. ap (λ (r : Buf). r.hash) (k.bufs j);
  blocknr = λ j. ap (λ (r : Buf). r.blocknr) (k.bufs j);
}

pub DataOnly-SameLru : (c c' : Cache) → DataOnly c c' → SameLru c c'
DataOnly-SameLru c c' k = record {
  size = ap (λ (r : Cache). r.size) k.others;
  front = ap (λ (r : Cache). r.front) k.others;
  rear = ap (λ (r : Cache). r.rear) k.others;
  in_use = ap (λ (r : Cache). r.bufs_in_use) k.others;
  links = λ j. (ap (λ (r : Buf). r.next) (k.bufs j), ap (λ (r : Buf). r.prev) (k.bufs j));
}

pub DataOnly-count : (c c' : Cache) → DataOnly c c' → (j : ℕ) → (c'.bufs j).count ≡ (c.bufs j).count
DataOnly-count c c' k j = ap (λ (r : Buf). r.count) (k.bufs j)

pub DataOnly-Unique : (c c' : Cache) → DataOnly c c' → Unique c → Unique c'
DataOnly-Unique c c' k =
    let s = DataOnly-SameNames c c' k in Unique-frame c c' s.size k.dev s.blocknr

pub DataOnly-LruValid :
    (c c' : Cache) (xs : List ℕ) → DataOnly c c' → LruValid c xs → LruValid c' xs
DataOnly-LruValid c c' xs k v =
    let s = DataOnly-SameLru c c' k in
    record {
      free = SameLru-Free c c' xs s v.free;
      counts = λ j. rw (s.size, DataOnly-count c c' k j) (v.counts j);
      in_use = rw (s.in_use, s.size) v.in_use;
    }

pub DataOnly-IsValid : (c c' : Cache) → DataOnly c c' → IsValid c → IsValid c'
DataOnly-IsValid c c' k v = record {
  lru = v.lru;
  lru_valid = DataOnly-LruValid c c' v.lru k v.lru_valid;
  chain = v.chain;
  hash_valid = SameNames-HashValid c c' v.chain (DataOnly-SameNames c c' k) v.hash_valid;
  unique = DataOnly-Unique c c' k v.unique;
}

-- One buffer gets other contents, and keeps its device or loses it.
pub modify-DataOnly :
    (i : ℕ) (contents : List ℕ) (dev : ℕ) (dirt : Bool) (c : Cache)
    → (dev ≢ no_dev → dev ≡ (c.bufs i).dev)
    → DataOnly c (modify i (λ b. record b { contents = contents; dev = dev; dirt = dirt }) c)
modify-DataOnly i contents dev dirt c f = record {
  bufs = λ j. elim (ℕ_discrete j i) [
    | yes e ↦
        rw (==_yes j i e)
          (ap (λ k. record (c.bufs k) { contents = contents; dev = dev; dirt = dirt }) (sym e))
    | no ne ↦ rw (==_no j i ne) refl
  ];
  dev = λ j. elim (ℕ_discrete j i) [
    | yes e ↦ rw (==_yes j i e) (λ ne. f ne ∙ ap (λ k. (c.bufs k).dev) (sym e))
    | no ne ↦ rw (==_no j i ne) (λ z. refl)
  ];
  others = refl;
}

disk-DataOnly :
    (d : ℕ → ℕ → List ℕ) (r : ℕ) (c : Cache) → DataOnly c (record c { disk = d; rdwt_err = r })
disk-DataOnly d r c = record { bufs = λ j. refl; dev = λ j ne. refl; others = refl }

fail_block-DataOnly : (w : Bool) (r i : ℕ) (c : Cache) → DataOnly c (fail_block w r i c)
unfolding fail_block
fail_block-DataOnly true r i c =
    modify-DataOnly i (c.bufs i).contents no_dev false c (λ ne. absurd (ne refl))
fail_block-DataOnly false r i c =
    let c1 = modify i (λ b. record b { dev = no_dev; dirt = false }) c in
    DataOnly-trans c c1 (fail_block false r i c)
      (modify-DataOnly i (c.bufs i).contents no_dev false c (λ ne. absurd (ne refl)))
      (disk-DataOnly c.disk r c1)

end_block-DataOnly : (w : Bool) (a : Answer) (i : ℕ) (c : Cache) → DataOnly c (end_block w a i c)
unfolding end_block
end_block-DataOnly true full i c =
    let c1 = modify i (λ b. record b { dirt = false }) c in
    DataOnly-trans c c1 (end_block true full i c)
      (modify-DataOnly i (c.bufs i).contents (c.bufs i).dev false c (λ ne. refl))
      (disk-DataOnly (end_block true full i c).disk c.rdwt_err c1)
end_block-DataOnly false full i c =
    modify-DataOnly i (c.disk (c.bufs i).dev (c.bufs i).blocknr) (c.bufs i).dev false c (λ ne. refl)
end_block-DataOnly true short i c = fail_block-DataOnly true 104 i c
end_block-DataOnly false short i c = fail_block-DataOnly false 104 i c
end_block-DataOnly true (error r) i c = fail_block-DataOnly true r i c
end_block-DataOnly false (error r) i c = fail_block-DataOnly false r i c

pub rw_block-DataOnly :
    (io : Driver) (w : Bool) (i : ℕ) (c : Cache) → DataOnly c (rw_block io w i c)
unfolding rw_block
rw_block-DataOnly io w i c = elim (Bool-cases ((c.bufs i).dev == no_dev)) [
  | inl yes_none ↦
      let c1 = modify i (λ b. record b { dirt = false }) c in
      let c2 = end_block w (io.transfer w (c.bufs i).dev (c.bufs i).blocknr) i c in
      subst (DataOnly c) (sym (ap (λ t. if t then c1 else c2) yes_none))
        (modify-DataOnly i (c.bufs i).contents (c.bufs i).dev false c (λ ne. refl))
  | inr has_dev ↦
      let c1 = modify i (λ b. record b { dirt = false }) c in
      let a = io.transfer w (c.bufs i).dev (c.bufs i).blocknr in
      subst (DataOnly c) (sym (ap (λ t. if t then c1 else end_block w a i c) has_dev))
        (end_block-DataOnly w a i c)
]

-- The buffers of a device lose their name, and nothing else is changed.
invalidate_below-DataOnly : (n device : ℕ) (c : Cache) → DataOnly c (invalidate_below n device c)
unfolding invalidate_below
invalidate_below-DataOnly zero device c = DataOnly-refl c
invalidate_below-DataOnly (suc n) device c =
    let c' = invalidate_below n device c in
    let c1 = modify n (λ b. record b { dev = no_dev }) c' in
    let rest = invalidate_below-DataOnly n device c in
    let named =
      modify-DataOnly n (c'.bufs n).contents no_dev (c'.bufs n).dirt c' (λ ne. absurd (ne refl)) in
    elim (Bool-cases ((c'.bufs n).dev == device)) [
      | inl e ↦
          subst (DataOnly c) (sym (ap (λ t. if t then c1 else c') e))
            (DataOnly-trans c c' c1 rest named)
      | inr e ↦ subst (DataOnly c) (sym (ap (λ t. if t then c1 else c') e)) rest
    ]

pub invalidate-DataOnly : (device : ℕ) (c : Cache) → DataOnly c (invalidate device c)
unfolding invalidate
invalidate-DataOnly device c = invalidate_below-DataOnly c.size device c
