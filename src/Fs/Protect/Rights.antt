-- ===== src/Fs/Protect/Rights.antt =====
-- Which accesses are permitted.
use sdios.Prelude.{
  ℕ, ◌/◌, ◌%◌, ◌<◌, ◌≡◌, ◌≢◌, refl, true, false, arith, inl, inr, ap, ◌∙◌, if◌then◌else◌,
}
use sdios.Fs.Super.{SuperBlock}
use sdios.Fs.Inode.{Inode}
use sdios.Fs.Protect.{Process, ok, eacces, do_chmod, forbidden, granted, perm_bits, read_only}
use sdios.Fs.Protect.Owner.{do_chmod_lem}

-- The super user is never refused to read or write on a writable file system.
pub forbidden-super_user :
    (fp : Process) (sp : SuperBlock) (rip : Inode) (desired : ℕ)
    → fp.effuid ≡ 0
    → sp.rd_only ≡ false
    → desired < 8
    → desired % 2 ≡ 0
    → forbidden false fp sp rip desired ≡ ok
unfolding forbidden perm_bits granted read_only
forbidden-super_user fp sp rip desired root w small even = ground arith

perm_bits-owner :
    (uid gid : ℕ) (rip : Inode)
    → uid ≢ 0
    → rip.uid ≡ uid
    → perm_bits uid gid rip ≡ rip.mode / 64 % 8
unfolding perm_bits
perm_bits-owner uid gid rip user owner = ground arith

forbidden-granted :
    (fp : Process) (sp : SuperBlock) (rip : Inode) (desired perm : ℕ)
    → sp.rd_only ≡ false
    → perm_bits fp.effuid fp.effgid rip ≡ perm
    → forbidden false fp sp rip desired ≡ (if granted perm desired then ok else eacces)
unfolding forbidden read_only
forbidden-granted fp sp rip desired perm w e = ground (arith, e)

-- After a chmod by the owner, who is not the super user, that returns OK, an access of the owner to
-- the file is permitted when its bits are among the owner bits that were asked for, and refused
-- with EACCES otherwise.
pub forbidden-do_chmod :
    (fp : Process) (sp : SuperBlock) (mode desired : ℕ) (rip rip' : Inode)
    → fp.effuid ≢ 0
    → rip.uid ≡ fp.effuid
    → do_chmod fp sp mode rip ≡ (ok, rip')
    → (granted (mode / 64 % 8) desired ≡ true → forbidden false fp sp rip' desired ≡ ok)
      × (granted (mode / 64 % 8) desired ≡ false → forbidden false fp sp rip' desired ≡ eacces)
forbidden-do_chmod fp sp mode desired rip rip' user owner e =
    elim (do_chmod_lem fp sp mode rip rip' ok e) [
      | inl (failed, same) ↦ absurd (failed refl)
      | inr (done, w, who, (kind, bits, group, now)) ↦
          let uid : rip'.uid ≡ fp.effuid = ap (λ (q : Inode). q.uid) now ∙ owner in
          let perm : rip'.mode / 64 % 8 ≡ mode / 64 % 8 = omega (arith, bits) in
          let both =
            forbidden-granted fp sp rip' desired (mode / 64 % 8) w
              (perm_bits-owner fp.effuid fp.effgid rip' user uid ∙ perm) in
          ((λ g. rw g at both), (λ g. rw g at both))
    ]
