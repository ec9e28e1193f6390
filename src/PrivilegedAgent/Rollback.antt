-- ===== src/PrivilegedAgent/Rollback.antt =====
-- The rollback of nginx.save_config_atomic of privileged_agent/server.py.
use nereus_door_loong_magic.Common.{
  ◌≡◌, String, true, false, some, refl, arith, Bool-cases, Option-cases, inl, inr, ◌⊎◌, ◌==◌,
  eq_iff,
}
use nereus_door_loong_magic.Common.Dict.{Dict, lookup, insert, lookup-insert, lookup-insert_self}
use nereus_door_loong_magic.PrivilegedAgent.Scripts.{Finished, exited, command_failed}
use nereus_door_loong_magic.PrivilegedAgent.V1.{failed}
use nereus_door_loong_magic.PrivilegedAgent.Nginx.{
  Files, Server, is_given, exists, write, enabled_link, symlink, ensure_symlink, place, roll_back,
  save_config_atomic,
}

-- The link of the site is in order, where the layout has one.
abbrev IsLinked : String → String → Files → Type 0
IsLinked site_name layout_type s =
    ((layout_type == "sites-enabled") ≡ false) ⊎ (exists (enabled_link site_name) s ≡ true)

ensure_symlink-idle :
    (v : Server) (target site_name layout_type : String) (s : Files)
    → IsLinked site_name layout_type s
    → ensure_symlink v target site_name layout_type s ≡ some s
unfolding ensure_symlink
ensure_symlink-idle v target site_name layout_type s (inl other) = rw other refl
ensure_symlink-idle v target site_name layout_type s (inr there) =
    elim (Bool-cases (layout_type == "sites-enabled")) [
      | inl y ↦ rw y (rw there refl)
      | inr n ↦ rw n refl
    ]

is_given-insert :
    (target content path : String) (d : Dict String)
    → is_given (lookup path d) ≡ true
    → is_given (lookup path (insert target content d)) ≡ true
is_given-insert target content path d h =
    rw (lookup-insert target path content d)
      (elim (Bool-cases (target == path)) [ inl y ↦ rw y refl | inr n ↦ rw n h ])

exists-insert :
    (target content path : String) (s : Files)
    → exists path s ≡ true
    → exists path (record { texts = insert target content s.texts; links = s.links }) ≡ true
unfolding exists
exists-insert target content path s h = elim (Option-cases (lookup path s.links)) [
  | inl n ↦
      let own : is_given (lookup path s.texts) ≡ true = ground arith in
      ground (arith, is_given-insert target content path s.texts own)
  | inr (to, there) ↦ elim (Bool-cases (is_given (lookup path s.texts))) [
    | inl own ↦ ground (arith, is_given-insert target content path s.texts own)
    | inr other ↦
        let far : is_given (lookup to s.texts) ≡ true = ground arith in
        ground (arith, is_given-insert target content to s.texts far)
  ]
]

-- What _ensure_symlink leaves once the target is written.
ensure_symlink-links :
    (v : Server) (target site_name layout_type : String) (s s' : Files)
    → is_given (lookup target s.texts) ≡ true
    → ensure_symlink v target site_name layout_type s ≡ some s'
    → (s'.texts ≡ s.texts) × IsLinked site_name layout_type s'
unfolding ensure_symlink exists symlink
ensure_symlink-links v target site_name layout_type s s' written e =
    elim (Bool-cases (layout_type == "sites-enabled")) [
      | inr n ↦ (ground arith, inl n)
      | inl y ↦ elim (Bool-cases (exists (enabled_link site_name) s)) [
        | inl there ↦ (ground arith, inr (ground arith))
        | inr missing ↦ elim (Option-cases (lookup (enabled_link site_name) s.links)) [
          | inr (to, broken) ↦ absurd (ground arith)
          | inl free ↦
              let same : some (record {
                texts = s.texts;
                links = insert (enabled_link site_name) target s.links;
              })
                  ≡ some s' =
                ground arith in
              (
                ground arith,
                inr (ground (arith, lookup-insert_self (enabled_link site_name) target s.links)),
              )
        ]
      ]
    ]

-- What is saved before the test: the new text, and the link of the site in order.
place-texts :
    (v : Server) (target content site_name layout_type : String) (s s' : Files)
    → place v target content site_name layout_type s ≡ some s'
    → (s'.texts ≡ insert target content s.texts) × IsLinked site_name layout_type s'
unfolding place write
place-texts v target content site_name layout_type s s' e =
    elim (Bool-cases (v.can_write s target)) [
      | inr n ↦ absurd (ground arith)
      | inl y ↦
          let s1 : Files = record { texts = insert target content s.texts; links = s.links } in
          let e' : ensure_symlink v target site_name layout_type s1 ≡ some s' = ground arith in
          let written : is_given (lookup target s1.texts) ≡ true =
            rw (lookup-insert_self target content s.texts) refl in
          let (texts, linked) =
            ensure_symlink-links v target site_name layout_type s1 s' written e' in
          (texts, linked)
    ]

-- Putting the old text back over what was saved succeeds.
place-again :
    (v : Server) (target old site_name layout_type : String) (s : Files)
    → v.can_write s target ≡ true
    → IsLinked site_name layout_type s
    → place v target old site_name layout_type s
      ≡ some (record { texts = insert target old s.texts; links = s.links })
unfolding place write
place-again v target old site_name layout_type s y linked =
    let s' : Files = record { texts = insert target old s.texts; links = s.links } in
    let linked' : IsLinked site_name layout_type s' = elim linked [
      | inl n ↦ inl n
      | inr there ↦ inr (exists-insert target old (enabled_link site_name) s there)
    ] in
    ground (arith, ensure_symlink-idle v target site_name layout_type s' linked')

lookup-insert_back :
    (target content old path : String) (d : Dict String)
    → lookup target d ≡ some old
    → lookup path (insert target old (insert target content d)) ≡ lookup path d
lookup-insert_back target content old path d there =
    rw
      (lookup-insert target path old (insert target content d), lookup-insert target path content d)
      (elim (Bool-cases (target == path)) [
        | inr n ↦ rw n refl
        | inl y ↦ rw y (ground (arith, eq_iff target path))
      ])

-- Where the target of nginx.save_config_atomic had a text, the test of the new configuration exits with
-- an error and the target can be written once more, the answer is COMMAND_FAILED and every file has the text that it had before.
pub save_config_atomic-restores :
    (v : Server) (target content site_name layout_type : String) (s s' : Files) (old : String)
    (f : Finished) (path : String)
    → lookup target s.texts ≡ some old
    → place v target content site_name layout_type s ≡ some s'
    → v.test s' ≡ exited f
    → (f.returncode == "0") ≡ false
    → v.can_write s' target ≡ true
    → ((save_config_atomic v target content site_name layout_type s).0 ≡ failed command_failed)
      × (lookup path (save_config_atomic v target content site_name layout_type s).1.texts
          ≡ lookup path s.texts)
unfolding save_config_atomic roll_back
save_config_atomic-restores v target content site_name layout_type s s' old f path had placed
      rejects bad writes =
    let (texts, linked) = place-texts v target content site_name layout_type s s' placed in
    let again = place-again v target old site_name layout_type s' writes linked in
    let e : save_config_atomic v target content site_name layout_type s
        ≡ (failed command_failed, record { texts = insert target old s'.texts; links = s'.links }) =
      ground arith in
    rw e (refl, rw texts (lookup-insert_back target content old path s.texts had))
