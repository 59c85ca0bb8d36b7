-- ===== src/Fs/Cache/Invalidate.antt =====
-- invalidate: what a client sees of the blocks afterwards.
use sdios.Prelude.{
  ℕ, zero, suc, ◌<◌, ◌≡◌, ◌≢◌, refl, sym, ap, ◌∙◌, subst, Bool, true, false, ◌&&◌, arith, ◌==◌, ltb,
  ltb_no, lt→ltb, if◌then◌else◌, ℕ_discrete, ==_yes, ==_no, Bool-cases, inl, inr,
}
use sdios.Fs.Cache.{Buf, Cache, no_dev, modify, invalidate_below, invalidate}
use sdios.Fs.Cache.Invariant.{IsValid}
use sdios.Fs.Cache.Rw.{DataOnly-Unique, invalidate-DataOnly, DataOnly-IsValid, DataOnly-SameNames}
use sdios.Fs.Cache.Content.{content, Names, content-disk}
use sdios.Fs.Cache.Flush.{ltb-suc}
use sdios.Fs.Cache.Coherent.{content-kept}

abbrev unnamed : ℕ → ℕ → Cache → ℕ → Buf
unnamed n device c j =
    if ltb j n && (c.bufs j).dev == device then record (c.bufs j) { dev = no_dev } else c.bufs j

both_off : (a b : Bool) (x y : Buf) → (if a && false then x else y) ≡ (if b && false then x else y)
both_off true true x y = refl
both_off true false x y = refl
both_off false true x y = refl
both_off false false x y = refl

invalidate_below-unnamed :
    (n device : ℕ) (c : Cache) (j : ℕ) → (invalidate_below n device c).bufs j ≡ unnamed n device c j
unfolding invalidate_below
invalidate_below-unnamed zero device c j = rw (ltb_no j 0 (omega arith)) refl
invalidate_below-unnamed (suc n) device c j =
    let c' = invalidate_below n device c in
    let at_n : c'.bufs n ≡ c.bufs n =
      invalidate_below-unnamed n device c n ∙ rw (ltb_no n n (omega arith)) refl in
    let at_j = invalidate_below-unnamed n device c j in
    let c1 = modify n (λ b. record b { dev = no_dev }) c' in
    let choose : ℕ → Cache = λ d. if d == device then c1 else c' in
    let old : j ≢ n → c'.bufs j ≡ unnamed (suc n) device c j = λ ne.
      at_j
      ∙ ap
          (λ t.
            if t && (c.bufs j).dev == device then record (c.bufs j) { dev = no_dev } else c.bufs j)
          (sym (ltb-suc j n ne)) in
    ap (λ d. (choose d).bufs j) (ap (λ (r : Buf). r.dev) at_n)
    ∙ elim (Bool-cases ((c.bufs n).dev == device)) [
      | inl e ↦ rw e (elim (ℕ_discrete j n) [
        | yes same ↦
            rw
              (
                ==_yes j n same,
                at_n,
                lt→ltb j (suc n) (omega (arith, same)),
                ap (λ k. (c.bufs k).dev == device) same ∙ e,
              )
              (ap (λ k. record (c.bufs k) { dev = no_dev }) (sym same))
        | no ne ↦ rw (==_no j n ne) (old ne)
      ])
      | inr e ↦ rw e (elim (ℕ_discrete j n) [
        | yes same ↦
            let flag : ((c.bufs j).dev == device) ≡ false =
              ap (λ k. (c.bufs k).dev == device) same ∙ e in
            at_j
            ∙ rw flag
                (both_off (ltb j n) (ltb j (suc n)) (record (c.bufs j) { dev = no_dev }) (c.bufs j))
        | no ne ↦ old ne
      ])
    ]

invalidate_below-disk : (n device : ℕ) (c : Cache) → (invalidate_below n device c).disk ≡ c.disk
unfolding invalidate_below
invalidate_below-disk zero device c = refl
invalidate_below-disk (suc n) device c =
    let c' = invalidate_below n device c in
    let c1 = modify n (λ b. record b { dev = no_dev }) c' in
    elim (Bool-cases ((c'.bufs n).dev == device)) [
      | inl e ↦ ap (λ t. (if t then c1 else c').disk) e ∙ invalidate_below-disk n device c
      | inr e ↦ ap (λ t. (if t then c1 else c').disk) e ∙ invalidate_below-disk n device c
    ]

-- In a well-formed cache, after invalidate of a device other than NO_DEV the cache is well-formed; a client
-- sees what the disk holds of that device, whether buffers were dirty or not, and the blocks of the
-- other devices as before.
pub invalidate_lem :
    (device : ℕ) (c : Cache)
    → IsValid c
    → device ≢ no_dev
    → let c' = invalidate device c in
      IsValid c'
      × ((dev block : ℕ)
          → dev ≢ no_dev
          → content dev block c'
            ≡ (if dev == device then c.disk dev block else content dev block c))
unfolding invalidate
invalidate_lem device c v named =
    let c' = invalidate device c in
    let k = invalidate-DataOnly device c in
    let names = DataOnly-SameNames c c' k in
    let disk = invalidate_below-disk c.size device c in
    let buf = invalidate_below-unnamed c.size device c in
    let back : (j d b : ℕ) → d ≢ no_dev → Names c' j d b → Names c j d b = λ j d b ne n. (
      subst (λ m. j < m) names.size n.0,
      sym (k.dev j (λ z. ne (sym n.1 ∙ z))) ∙ n.1,
      sym (names.blocknr j) ∙ n.2,
    ) in
    (
      DataOnly-IsValid c c' k v,
      λ d b ne. elim (ℕ_discrete d device) [
        | yes e ↦ rw (==_yes d device e) (
            content-disk d b c' (λ j n.
              let m = back j d b ne n in
              let lost : (c'.bufs j).dev ≡ no_dev =
                ap (λ (r : Buf). r.dev) (buf j)
                ∙ rw (lt→ltb j c.size m.0, ==_yes (c.bufs j).dev device (m.1 ∙ e)) refl in
              ne (sym n.1 ∙ lost))
            ∙ ap (λ k. k d b) disk)
        | no other ↦ rw (==_no d device other) (
            content-kept d b c c' v.unique (DataOnly-Unique c c' k v.unique) ne
              (λ j n.
                let kept : c'.bufs j ≡ c.bufs j =
                  buf j
                  ∙ rw (lt→ltb j c.size n.0, ==_no (c.bufs j).dev device (λ z. other (sym n.1 ∙ z)))
                      refl in
                (
                  (
                    subst (λ m. j < m) (sym names.size) n.0,
                    ap (λ (r : Buf). r.dev) kept ∙ n.1,
                    ap (λ (r : Buf). r.blocknr) kept ∙ n.2,
                  ),
                  ap (λ (r : Buf). r.contents) kept,
                ))
              (λ gone.
                content-disk d b c' (λ j n. gone j (back j d b ne n)) ∙ ap (λ k. k d b) disk))
      ],
    )
