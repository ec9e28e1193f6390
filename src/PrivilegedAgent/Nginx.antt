-- ===== src/PrivilegedAgent/Nginx.antt =====
-- privileged_agent/server.py: nginx.save_config_atomic of the unsigned V1 channel, with
-- _ensure_symlink. No path that is saved is itself a link here.
use nereus_door_loong_magic.Common.{
  String, Bool, true, false, ◌||◌, Option, none, some, [], ◌∷◌, if◌then◌else◌, ◌==◌, text_append,
  inl, inr,
}
use nereus_door_loong_magic.Common.Dict.{Dict, lookup, insert}
use nereus_door_loong_magic.PrivilegedAgent.Scripts.{
  command_failed, internal_error, System, Ran, exited, timed_out, broken, run_command,
}
use nereus_door_loong_magic.PrivilegedAgent.V1.{Outcome, done, failed}

-- The regular files with their texts, and the links with their targets.
pub record Files : Type 0 where
  pub texts : Dict String
  pub links : Dict String

pub record Server : Type 0 where
  -- ["nginx", "-t"] on these files, with no timeout, and the other commands
  pub test : Files → Ran
  pub system : System
  -- mkdir and write_text of a path return, and so does symlink_to, on these files; the chmod of a file
  -- that was just written returns, and a text that is there is UTF-8
  pub can_write : Files → String → Bool
  pub can_link : Files → String → Bool

abbrev pub is_given : {A : Type 0} → Option A → Bool
is_given none = false
is_given (some a) = true

-- path.exists(), which follows a link
unfoldable pub exists : String → Files → Bool
unfolding lookup
exists path s =
    is_given (lookup path s.texts)
    || (elim (lookup path s.links) [ none ↦ false | some to ↦ is_given (lookup to s.texts) ])

-- path.parent.mkdir, path.write_text and os.chmod; `none` is an exception
unfoldable pub write : Server → String → String → Files → Option Files
unfolding insert
write v target content s =
    if v.can_write s target
    then some (record { texts = insert target content s.texts; links = s.links })
    else none

abbrev pub enabled_link : String → String
enabled_link site_name = text_append "/etc/nginx/sites-enabled/" (text_append site_name ".conf")

-- enabled_link.symlink_to: an exception on a link that is there, a broken one
unfoldable pub symlink : Server → String → String → Files → Option Files
unfolding lookup insert
symlink v link target s = elim (lookup link s.links) [
  | some _ ↦ none
  | none ↦
      if v.can_link s link
      then some (record { texts = s.texts; links = insert link target s.links })
      else none
]

-- _ensure_symlink
unfoldable pub ensure_symlink : Server → String → String → String → Files → Option Files
unfolding exists symlink
ensure_symlink v target site_name layout_type s =
    if layout_type == "sites-enabled"
    then if exists (enabled_link site_name) s
      then some s
      else symlink v (enabled_link site_name) target s
    else some s

-- What is saved before the test.
unfoldable pub place :
    Server → (target content site_name layout_type : String) → Files → Option Files
unfolding write ensure_symlink
place v target content site_name layout_type s = elim (write v target content s) [
  | none ↦ none
  | some s' ↦ ensure_symlink v target site_name layout_type s'
]

-- What a failed step leaves: the files as they are, or with the new text.
unfoldable pub left : Server → (target content : String) → Files → Files
unfolding write
left v target content s = elim (write v target content s) [ none ↦ s | some s' ↦ s' ]

-- After a test that rejects: COMMAND_FAILED, with the old text put back where there was one.
unfoldable pub roll_back :
    Server → (target site_name layout_type : String) → Option String → Files → Outcome × Files
unfolding place left
roll_back v target site_name layout_type none s = (failed command_failed, s)
roll_back v target site_name layout_type (some old) s =
    elim (place v target old site_name layout_type s) [
      | none ↦ (failed internal_error, left v target old s)
      | some s' ↦ (failed command_failed, s')
    ]

-- _run_command(["systemctl", "reload", "nginx"])
unfoldable pub reload : Server → Files → Outcome × Files
unfolding run_command
reload v s = elim (run_command v.system ("systemctl" ∷ "reload" ∷ "nginx" ∷ [])) [
  | inl f ↦ (done, s)
  | inr code ↦ (failed code, s)
]

unfoldable pub save_config_atomic :
    Server → (target content site_name layout_type : String) → Files → Outcome × Files
unfolding place left roll_back reload lookup
save_config_atomic v target content site_name layout_type s =
    let backup = lookup target s.texts in
    elim (place v target content site_name layout_type s) [
      | none ↦ (failed internal_error, left v target content s)
      | some s' ↦ elim (v.test s') [
        | timed_out ↦ (failed internal_error, s')
        | broken ↦ (failed internal_error, s')
        | exited f ↦
            if f.returncode == "0"
            then reload v s'
            else roll_back v target site_name layout_type backup s'
      ]
    ]
