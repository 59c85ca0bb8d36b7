-- ===== src/Fs/Truncate/Kept.antt =====
-- What truncate leaves alone: the inode table, and who an inode is.
use sdios.Prelude.{
  ℕ, zero, suc, ◌+◌, ◌/◌, ◌^◌, ◌≡◌, refl, Bool, true, false, Option, some, ◌==◌, if◌then◌else◌,
  get_or, set, ◌>>=◌, >>=-some, ap, subst, ◌∙◌, Bool-cases, inl, inr,
}
use mathlib.Core.Option.{some-injective}
use sdios.Fs.Super.{SuperBlock}
use sdios.Fs.Bitmap.{Store}
use sdios.Fs.Inode.{Inode}
use sdios.Fs.Zones.{free_zone}
use sdios.Fs.Mapping.{read_map, rd_indir, first_block}
use sdios.Fs.Volume.{Volume, super_of, wipe_inode}
use sdios.Fs.Truncate.{
  put_maps, free_zone_of, super_at, free_at, free_data, free_indirects, free_tree, truncate_file,
  truncate, sized, zone_bytes, data_rounds,
}

abbrev pub SameTable : Volume → Volume → Type 0
SameTable v v' = v.inodes ≡ v'.inodes

-- Two inodes with one number on one device, with as many users.
abbrev pub SamePlace : Inode → Inode → Type 0
SamePlace rip rip' = (rip.dev ≡ rip'.dev) × (rip.num ≡ rip'.num) × (rip.count ≡ rip'.count)

pub SamePlace-trans : (a b c : Inode) → SamePlace a b → SamePlace b c → SamePlace a c
SamePlace-trans a b c (p, q, r) (p', q', r') = (p ∙ p', q ∙ q', r ∙ r')

-- The branches of an if.
pub either_of {ℓ κ} :
    {A : Type ℓ} (c : Bool) (a b out : A) (P : Type κ)
    → (if c then a else b) ≡ out
    → (a ≡ out → P)
    → (b ≡ out → P)
    → P
either_of true a b out P e f g = f e
either_of false a b out P e f g = g e

free_zone_of-SameTable :
    (dev z : ℕ) (v v' : Volume) → free_zone_of dev z v ≡ some v' → SameTable v v'
unfolding free_zone_of
free_zone_of-SameTable dev z v v' e =
    let after : ℕ × SuperBlock → SuperBlock × Store → Option Volume =
      λ p q. some (record v { supers = set v.supers p.0 q.0; maps = put_maps dev q.1 v.maps }) in
    let (p, is, out) =
      >>=-some (super_of dev v) (λ p. free_zone p.1 z (v.maps dev) >>= after p) e in
    let (q, is', out') = >>=-some (free_zone p.1 z (v.maps dev)) (after p) out in
    ap (λ (x : Volume). x.inodes) (some-injective _ _ out')

free_at-SameTable :
    (rip : Inode) (position : ℕ) (v v' : Volume) → free_at rip position v ≡ some v' → SameTable v v'
unfolding free_at
free_at-SameTable rip position v v' e =
    let after : SuperBlock → ℕ → Option Volume =
      λ sp b. if b == 0 then some v else free_zone_of rip.dev (b / 2 ^ sp.log_zone_size) v in
    let (sp, is, out) =
      >>=-some (super_at rip v) (λ sp. read_map sp (v.entries rip.dev) rip position >>= after sp)
        e in
    let (b, is', out') = >>=-some (read_map sp (v.entries rip.dev) rip position) (after sp) out in
    either_of (b == 0) (some v) (free_zone_of rip.dev (b / 2 ^ sp.log_zone_size) v) (some v')
      (SameTable v v') out' (λ q. ap (λ (x : Volume). x.inodes) (some-injective _ _ q))
      (free_zone_of-SameTable rip.dev (b / 2 ^ sp.log_zone_size) v v')

free_data-SameTable :
    (rip : Inode) (size n position : ℕ) (v v' : Volume)
    → free_data rip size n position v ≡ some v'
    → SameTable v v'
unfolding free_data
free_data-SameTable rip size zero position v v' e =
    ap (λ (x : Volume). x.inodes) (some-injective _ _ e)
free_data-SameTable rip size (suc n) position v v' e =
    let (w, is, out) =
      >>=-some (free_at rip position v) (free_data rip size n (position + size)) e in
    free_at-SameTable rip position v w is
    ∙ free_data-SameTable rip size n (position + size) w v' out

free_indirects-SameTable :
    (rip : Inode) (b n i : ℕ) (v v' : Volume)
    → free_indirects rip b n i v ≡ some v'
    → SameTable v v'
unfolding free_indirects
free_indirects-SameTable rip b zero i v v' e = ap (λ (x : Volume). x.inodes) (some-injective _ _ e)
free_indirects-SameTable rip b (suc n) i v v' e =
    let after : ℕ → Option Volume =
      λ z1. free_zone_of rip.dev z1 v >>= free_indirects rip b n (suc i) in
    let (sp, is, out) =
      >>=-some (super_at rip v) (λ sp. rd_indir sp (v.entries rip.dev b i) >>= after) e in
    let (z1, is', out') = >>=-some (rd_indir sp (v.entries rip.dev b i)) after out in
    let (w, freed, rest) =
      >>=-some (free_zone_of rip.dev z1 v) (free_indirects rip b n (suc i)) out' in
    free_zone_of-SameTable rip.dev z1 v w freed ∙ free_indirects-SameTable rip b n (suc i) w v' rest

free_tree-SameTable :
    (sp : SuperBlock) (rip : Inode) (v v' : Volume) → free_tree sp rip v ≡ some v' → SameTable v v'
unfolding free_tree
free_tree-SameTable sp rip v v' e =
    let z = get_or rip.zone (rip.ndzones + 1) 0 in
    let below : Volume → Option Volume =
      λ w. free_indirects rip (first_block sp z) rip.nindirs 0 w >>= free_zone_of rip.dev z in
    let (w, is, out) =
      >>=-some (free_zone_of rip.dev (get_or rip.zone rip.ndzones 0) v)
        (λ w. if z == 0 then some w else below w) e in
    free_zone_of-SameTable rip.dev (get_or rip.zone rip.ndzones 0) v w is
    ∙ either_of (z == 0) (some w) (below w) (some v') (SameTable w v') out
        (λ q. ap (λ (x : Volume). x.inodes) (some-injective _ _ q))
        (λ q.
          let (x, is', out') =
            >>=-some (free_indirects rip (first_block sp z) rip.nindirs 0 w)
              (free_zone_of rip.dev z) q in
          free_indirects-SameTable rip (first_block sp z) rip.nindirs 0 w x is'
          ∙ free_zone_of-SameTable rip.dev z x v' out')

-- What a step leaves of the table and of the inode that it is given.
abbrev pub Kept : Inode → Volume → Inode × Volume → Type 0
Kept rip v r = SamePlace rip r.0 × SameTable v r.1

sized-SamePlace : (sp : SuperBlock) (rip : Inode) → SamePlace rip (sized sp rip)
sized-SamePlace sp rip = elim (Bool-cases rip.pipe) [
  | inl pipe ↦ rw pipe (refl, refl, refl)
  | inr file ↦ rw file (refl, refl, refl)
]

wipe_inode-SamePlace : (rip : Inode) → SamePlace rip (wipe_inode rip)
unfolding wipe_inode
wipe_inode-SamePlace rip = (refl, refl, refl)

truncate_file-Kept :
    (sp : SuperBlock) (rip : Inode) (v : Volume) (r : Inode × Volume)
    → truncate_file sp rip v ≡ some r
    → Kept rip v r
unfolding truncate_file
truncate_file-Kept sp rip_in v r e =
    let rip = sized sp rip_in in
    let tree : Volume → Option (Inode × Volume) =
      λ w. free_tree sp rip w >>= λ x. some (record rip { dirt = true }, x) in
    let (w, is, out) =
      >>=-some (free_data rip (zone_bytes sp) (data_rounds sp rip.size) 0 v)
        (λ w. if rip.pipe then some (wipe_inode rip, w) else tree w) e in
    let first = free_data-SameTable rip (zone_bytes sp) (data_rounds sp rip.size) 0 v w is in
    either_of rip.pipe (some (wipe_inode rip, w)) (tree w) (some r) (Kept rip_in v r) out
      (λ q. subst (Kept rip_in v) (some-injective _ _ q) (
        SamePlace-trans rip_in rip (wipe_inode rip) (sized-SamePlace sp rip_in)
            (wipe_inode-SamePlace rip),
        first,
      ))
      (λ q.
        let (x, is', out') =
          >>=-some (free_tree sp rip w) (λ x. some (record rip { dirt = true }, x)) q in
        subst (Kept rip_in v) (some-injective _ _ out')
          (sized-SamePlace sp rip_in, first ∙ free_tree-SameTable sp rip w x is'))

pub truncate-Kept :
    (rip : Inode) (v : Volume) (r : Inode × Volume) → truncate rip v ≡ some r → Kept rip v r
unfolding truncate
truncate-Kept rip v r e =
    either_of _ (some (rip, v)) (super_at rip v >>= λ sp. truncate_file sp rip v) (some r)
      (Kept rip v r) e (λ q. subst (Kept rip v) (some-injective _ _ q) ((refl, refl, refl), refl))
      (λ q.
        let (sp, is, out) = >>=-some (super_at rip v) (λ sp. truncate_file sp rip v) q in
        truncate_file-Kept sp rip v r out)
