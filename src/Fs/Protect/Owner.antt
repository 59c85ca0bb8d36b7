-- ===== src/Fs/Protect/Owner.antt =====
-- What chmod, chown and umask may change.
use sdios.Prelude.{
  ℕ, ◌-◌, ◌*◌, ◌/◌, ◌%◌, ◌^◌, ◌≡◌, ◌≢◌, ◌⊎◌, inl, inr, refl, true, false, arith, ℕ_discrete,
  Bool-cases, subst, ◌∙◌,
}
use sdios.Fs.Super.{SuperBlock}
use sdios.Fs.Inode.{Inode, type_of}
use sdios.Fs.Protect.{
  Process, Access, ok, refused, read_only, new_mode, no_setgid, do_chmod, do_chown, do_umask,
  int_of_gid,
}

no_setgid_lem :
    (m : ℕ)
    → (no_setgid m / 4096 ≡ m / 4096) × (no_setgid m % 512 ≡ m % 512) × (no_setgid m / 1024 % 2 ≡ 0)
unfolding no_setgid
no_setgid_lem m = (omega arith, omega arith, omega arith)

new_mode_lem : (old m : ℕ) → (new_mode old m / 4096 ≡ old / 4096) × (new_mode old m % 512 ≡ m % 512)
unfolding new_mode
new_mode_lem old m = (omega arith, omega arith)

-- What chmod makes of an inode.
abbrev pub Changed : Process → ℕ → Inode → Inode → Type 0
Changed fp mode rip rip' =
    (type_of rip'.mode ≡ type_of rip.mode)
    × (rip'.mode % 512 ≡ mode % 512)
    × (fp.effuid ≢ 0 → rip.gid ≢ fp.effgid → rip'.mode / 1024 % 2 ≡ 0)
    × (rip' ≡ record rip { mode = rip'.mode; update_ctime = true; dirt = true })

abbrev with_mode : Inode → ℕ → Inode
with_mode rip m = record rip { mode = m; update_ctime = true; dirt = true }

kept-Changed :
    (fp : Process) (mode : ℕ) (rip : Inode)
    → (fp.effuid ≡ 0) ⊎ (rip.gid ≡ fp.effgid)
    → Changed fp mode rip (with_mode rip (new_mode rip.mode mode))
kept-Changed fp mode rip may =
    let lem = new_mode_lem rip.mode mode in
    (omega (arith, lem.0), lem.1, (λ a b. absurd (ground (arith, may, a, b))), refl)

cut-Changed :
    (fp : Process) (mode : ℕ) (rip : Inode)
    → Changed fp mode rip (with_mode rip (no_setgid (new_mode rip.mode mode)))
cut-Changed fp mode rip =
    let lem = new_mode_lem rip.mode mode in
    let cut = no_setgid_lem (new_mode rip.mode mode) in
    (omega (arith, lem.0, cut.0), cut.1 ∙ lem.1, (λ a b. cut.2), refl)

chmod-Changed :
    (fp : Process) (sp : SuperBlock) (mode : ℕ) (rip rip' : Inode) (r : Access)
    → do_chmod fp sp mode rip ≡ (r, rip')
    → sp.rd_only ≡ false
    → (rip.uid ≡ fp.effuid) ⊎ (fp.effuid ≡ 0)
    → (r ≡ ok) × Changed fp mode rip rip'
unfolding do_chmod read_only
chmod-Changed fp sp mode rip rip' r e w who = elim (ℕ_discrete fp.effuid 0) [
  | yes root ↦ (
    ground (arith, root),
    subst (Changed fp mode rip) (ground (arith, root)) (kept-Changed fp mode rip (inl root)),
  )
  | no user ↦ elim (ℕ_discrete rip.gid fp.effgid) [
    | yes group ↦ (
      ground (arith, user, group),
      subst (Changed fp mode rip) (ground (arith, user, group))
          (kept-Changed fp mode rip (inr group)),
    )
    | no other ↦ (
      ground (arith, user, other),
      subst (Changed fp mode rip) (ground (arith, user, other)) (cut-Changed fp mode rip),
    )
  ]
]

-- When chmod succeeds, the file system is writable, the caller is the owner or the super user, the
-- type of the file is kept, its nine permission bits are those that were asked for, a user other
-- than the super user who is not in the file's group leaves no set-group-id bit, and nothing else
-- but the dirty mark and the pending change time changes. When it fails the inode is unchanged.
pub do_chmod_lem :
    (fp : Process) (sp : SuperBlock) (mode : ℕ) (rip rip' : Inode) (r : Access)
    → do_chmod fp sp mode rip ≡ (r, rip')
    → ((r ≢ ok) × (rip' ≡ rip))
      ⊎ ((r ≡ ok)
          × (sp.rd_only ≡ false)
          × ((rip.uid ≡ fp.effuid) ⊎ (fp.effuid ≡ 0))
          × Changed fp mode rip rip')
unfolding do_chmod read_only
do_chmod_lem fp sp mode rip rip' r e = elim (Bool-cases sp.rd_only) [
  | inl ro ↦ inl (ground (arith, ro), ground (arith, ro))
  | inr w ↦ elim (ℕ_discrete rip.uid fp.effuid) [
    | yes owner ↦
        let done = chmod-Changed fp sp mode rip rip' r e w (inl owner) in
        inr (done.0, w, inl owner, done.1)
    | no stranger ↦ elim (ℕ_discrete fp.effuid 0) [
      | yes root ↦
          let done = chmod-Changed fp sp mode rip rip' r e w (inr root) in
          inr (done.0, w, inr root, done.1)
      | no user ↦ inl (ground (arith, w, stranger, user), ground (arith, w, stranger, user))
    ]
  ]
]

-- What chown makes of an inode.
abbrev pub Given : Process → ℕ → Inode → Inode → Type 0
Given fp group rip rip' =
    (rip'.mode / 1024 % 4 ≡ 0)
    × (type_of rip'.mode ≡ type_of rip.mode)
    × (rip'.mode % 1024 ≡ rip.mode % 1024)
    × (rip'.gid ≡ group % 2 ^ 8)
    × (fp.effuid ≢ 0
        → (rip.uid ≡ fp.effuid) × (rip'.uid ≡ rip.uid) × (int_of_gid fp.effgid ≡ group))

abbrev given : Inode → ℕ → Inode
given rip group = record rip {
  gid = group % 2 ^ 8;
  mode = rip.mode - (rip.mode / 1024 % 4) * 1024;
  update_ctime = true;
  dirt = true;
}

given-Given :
    (fp : Process) (group uid : ℕ) (rip : Inode)
    → (fp.effuid ≢ 0 → (rip.uid ≡ fp.effuid) × (uid ≡ rip.uid) × (int_of_gid fp.effgid ≡ group))
    → Given fp group rip (record (given rip group) { uid = uid })
given-Given fp group uid rip user = (omega arith, omega arith, omega arith, refl, user)

-- When chown succeeds, the file system is writable, both set-id bits are cleared, the type and the
-- permission bits are kept, and a caller other than the super user has not changed the owner and
-- has given the file to its own group. When it fails the inode is unchanged.
pub do_chown_lem :
    (fp : Process) (sp : SuperBlock) (owner group : ℕ) (rip rip' : Inode) (r : Access)
    → do_chown fp sp owner group rip ≡ (r, rip')
    → ((r ≢ ok) × (rip' ≡ rip)) ⊎ ((r ≡ ok) × (sp.rd_only ≡ false) × Given fp group rip rip')
unfolding do_chown read_only
do_chown_lem fp sp owner group rip rip' r e = elim (Bool-cases sp.rd_only) [
  | inl ro ↦ inl (ground (arith, ro), ground (arith, ro))
  | inr w ↦ elim (ℕ_discrete fp.effuid 0) [
    | yes root ↦
        let now : record (given rip group) { uid = owner % 2 ^ 16 } ≡ rip' =
          ground (arith, w, root) in
        inr (
          ground (arith, w, root),
          w,
          subst (Given fp group rip) now
              (given-Given fp group (owner % 2 ^ 16) rip (λ user. absurd (user root))),
        )
    | no user ↦ elim (Bool-cases (refused fp owner group rip)) [
      | inl refuse ↦ inl (ground (arith, w, user, refuse), ground (arith, w, user, refuse))
      | inr grant ↦
          let now : record (given rip group) { uid = rip.uid } ≡ rip' =
            ground (arith, w, user, grant) in
          inr (
            ground (arith, w, user, grant),
            w,
            subst (Given fp group rip) now (
                given-Given fp group rip.uid rip
                  (λ _. (ground (arith, grant), refl, ground (arith, grant)))),
          )
    ]
  ]
]

-- The mask that a process sets with umask is what its next call returns, less all bits but the nine
-- permission bits, and nothing else of the process changes.
pub do_umask-do_umask :
    (a b : ℕ) (fp : Process)
    → ((do_umask b (do_umask a fp).1).0 ≡ a % 512)
      × (record ((do_umask a fp).1) { umask = fp.umask } ≡ fp)
unfolding do_umask
do_umask-do_umask a b fp = (omega arith, refl)
