-- ===== src/PrivilegedAgent/V1.antt =====
-- privileged_agent/server.py, the unsigned V1 channel: the actions of _dispatch that check what they
-- are given, file.*, nginx.write_static_file, exec.allowed_script and service.set_state. What an
-- action does to the machine is the list of the effects it attempts.
use nereus_door_loong_magic.Common.{
  ℕ, String, Bool, true, false, not, Option, none, some, List, [], ◌∷◌, if◌then◌else◌, any,
  contains,
}
use nereus_door_loong_magic.Common.Dict.{Dict}
use nereus_door_loong_magic.Replay.{check_rate}
use nereus_door_loong_magic.PrivilegedAgent.Validator.{Host, is_under, resolve_all}
use nereus_door_loong_magic.PrivilegedAgent.Scripts.{
  ErrorCode, invalid_request, service_unavailable, internal_error, permission_denied,
}

-- A file, by the text of its path, or by the parts of a path that is resolved.
pub data Place : Type 0 where
  named : (path : String) → Place
  resolved : (parts : List String) → Place

pub data Effect : Type 0 where
  -- mkdir with parents=True and exist_ok=True makes the directories that are missing on the way to the
  -- place, as its path is written, and then the last one, which is the place's own for path.mkdir and
  -- is among the former for path.parent.mkdir.
  make_parents make_directory : (place : Place) → Effect
  -- path.write_text, os.chmod
  write_text : (place : Place) (content : String) → Effect
  chmod : (place : Place) (mode : ℕ) → Effect
  -- [path] + args
  run_script : (path : String) (args : List String) → Effect
  -- systemctl action name, systemctl is-active name
  set_service : (action name : String) → Effect
  query_service : (name : String) → Effect

pub record World : Type 0 where
  pub host : Host
  -- script.exists() and script.is_file()
  pub is_file : List String → Bool
  -- The call returns; false is an exception, set_service's on a non-zero return code too.
  pub returns : Effect → Bool

abbrev pub allowed_service_actions : List String
allowed_service_actions = "start" ∷ "stop" ∷ "restart" ∷ "enable" ∷ "disable" ∷ []

abbrev pub allowed_service_names : List String
allowed_service_names = "ssh" ∷ "sshd" ∷ "firewalld" ∷ "nginx" ∷ "docker" ∷ []

-- self._allowed_write_paths
abbrev pub allowed_write_paths : List String
allowed_write_paths =
    "/etc/nginx/sites-enabled/" ∷ "/etc/nginx/conf.d/" ∷ "/etc/nginx/html/" ∷ "/var/www/"
    ∷ "/var/log/nginx/" ∷ "/etc/mysql/conf.d/" ∷ "/etc/docker/" ∷ "/opt/ndlmpanel/" ∷ []

-- nginx_html and var_www
abbrev pub static_dirs : List String
static_dirs = "/etc/nginx/html/" ∷ "/var/www/" ∷ []

abbrev pub allowed_script_dirs : List String
allowed_script_dirs = "/opt/ndlmpanel/tmp_scripts/" ∷ []

pub data Verdict : Type 0 where
  allowed denied raised : Verdict

-- The loop of _check_path_allowed: a directory is resolved when its turn comes.
unfoldable pub find_parent : Host → List String → List String → Verdict
unfolding is_under
find_parent h [] parts = denied
find_parent h (d ∷ dirs) parts = elim (h.resolve d) [
  | none ↦ raised
  | some dir ↦ let rest = find_parent h dirs parts in if is_under dir parts then allowed else rest
]

-- _check_path_allowed, and the same loop of exec.allowed_script over its own directories
unfoldable pub check_path_allowed : Host → List String → String → Verdict
unfolding find_parent
check_path_allowed h dirs target = elim (h.resolve target) [
  | none ↦ raised
  | some parts ↦ find_parent h dirs parts
]

-- What an action goes on to do once it has read its payload and passed the rate limit.
pub data Decision : Type 0 where
  refuse : (code : ErrorCode) → Decision
  act : (effects : List Effect) → Decision

abbrev pub when_allowed : Verdict → List Effect → Decision
when_allowed allowed effects = act effects
when_allowed denied effects = refuse permission_denied
when_allowed raised effects = refuse internal_error

unfoldable pub write_to_allowed : World → String → String → ℕ → Decision
unfolding check_path_allowed
write_to_allowed w target content mode =
    when_allowed (check_path_allowed w.host allowed_write_paths target) (
      make_parents (named target)
      ∷ write_text (named target) content
      ∷ chmod (named target) mode
      ∷ [])

unfoldable pub create_directory : World → String → ℕ → Decision
unfolding check_path_allowed
create_directory w target mode =
    when_allowed (check_path_allowed w.host allowed_write_paths target)
      (make_parents (named target) ∷ make_directory (named target) ∷ chmod (named target) mode ∷ [])

unfoldable pub set_permissions : World → String → ℕ → Decision
unfolding check_path_allowed
set_permissions w target mode =
    when_allowed (check_path_allowed w.host allowed_write_paths target)
      (chmod (named target) mode ∷ [])

-- nginx.write_static_file writes to the resolved path; its mode is 0o644.
unfoldable pub write_static_file : World → String → String → Decision
unfolding is_under resolve_all
write_static_file w target content = elim (resolve_all w.host static_dirs) [
  | none ↦ refuse internal_error
  | some dirs ↦ elim (w.host.resolve target) [
    | none ↦ refuse internal_error
    | some parts ↦
        if any (λ dir. is_under dir parts) dirs
        then act (
            make_parents (resolved parts)
            ∷ write_text (resolved parts) content
            ∷ chmod (resolved parts) 420
            ∷ [])
        else refuse permission_denied
  ]
]

-- exec.allowed_script looks at the resolved path and runs the path as it is given.
unfoldable pub exec_script : World → String → List String → Decision
unfolding check_path_allowed
exec_script w path args = elim (check_path_allowed w.host allowed_script_dirs path) [
  | raised ↦ refuse internal_error
  | denied ↦ refuse permission_denied
  | allowed ↦ elim (w.host.resolve path) [
    | none ↦ refuse internal_error
    | some parts ↦
        if w.is_file parts then act (run_script path args ∷ []) else refuse service_unavailable
  ]
]

unfoldable pub set_state : String → String → Decision
set_state name action =
    if not (contains action allowed_service_actions)
    then refuse invalid_request
    else if not (contains name allowed_service_names)
    then refuse permission_denied
    else act (set_service action name ∷ query_service name ∷ [])

pub data Outcome : Type 0 where
  done : Outcome
  failed : (code : ErrorCode) → Outcome

pub record Reply : Type 0 where
  pub outcome : Outcome
  pub effects : List Effect
  pub buckets : Dict (List ℕ)

-- The effects up to the first that raises, and whether all returned.
unfoldable pub attempt : (Effect → Bool) → List Effect → List Effect × Bool
attempt returns [] = ([], true)
attempt returns (e ∷ es) =
    let (rest, ok) = attempt returns es in if returns e then (e ∷ rest, ok) else (e ∷ [], false)

-- What _handle_v1 makes of an exception: INTERNAL_ERROR, but for an error with a code.
unfoldable pub carry_out : World → Decision → Dict (List ℕ) → Reply
unfolding attempt
carry_out w (refuse code) buckets = record {
  outcome = failed code;
  effects = [];
  buckets = buckets;
}
carry_out w (act effects) buckets =
    let (tried, ok) = attempt w.returns effects in
    record {
      outcome = if ok then done else failed internal_error;
      effects = tried;
      buckets = buckets;
    }

-- self._rate_limiter.check(action), 10 calls in 60 seconds
unfoldable pub rate_limited : World → String → ℕ → Dict (List ℕ) → Decision → Reply
unfolding check_rate carry_out
rate_limited w action now buckets decision =
    let (ok, buckets') = check_rate 10 60 action now buckets in
    carry_out w (if ok then decision else refuse permission_denied) buckets'

-- The request, its payload read: `none` is a key that is missing or a value that int() refuses,
-- where the source has no default; a mode or a list of arguments that is missing has its default.
pub data Request : Type 0 where
  file_write_to_allowed : (target content : Option String) (mode : Option ℕ) → Request
  file_create_directory : (target : Option String) (mode : Option ℕ) → Request
  file_set_permissions : (target : Option String) (mode : Option ℕ) → Request
  nginx_write_static_file : (target content : Option String) → Request
  exec_allowed_script : (path : Option String) (args : List String) (timeout : Option ℕ) → Request
  service_set_state : (name action : Option String) → Request

module _ {A : Type 0} (w : World) (buckets : Dict (List ℕ)) where
  -- payload[key]: an exception where there is none
  abbrev pub given : Option A → (A → Reply) → Reply
  given none use_it = carry_out w (refuse internal_error) buckets
  given (some a) use_it = use_it a

-- _dispatch, for these actions
unfoldable pub dispatch : World → Request → ℕ → Dict (List ℕ) → Reply
unfolding rate_limited write_to_allowed create_directory set_permissions write_static_file
    exec_script set_state
dispatch w (file_write_to_allowed target content mode) now buckets = given w buckets target (λ t.
    given w buckets content (λ c.
      given w buckets mode
        (λ m. rate_limited w "file.write_to_allowed_path" now buckets (write_to_allowed w t c m))))
dispatch w (file_create_directory target mode) now buckets = given w buckets target (λ t.
    given w buckets mode
      (λ m. rate_limited w "file.create_directory_in_allowed" now buckets (create_directory w t m)))
dispatch w (file_set_permissions target mode) now buckets = given w buckets target (λ t.
    given w buckets mode
      (λ m. rate_limited w "file.set_permissions_in_allowed" now buckets (set_permissions w t m)))
dispatch w (nginx_write_static_file target content) now buckets = given w buckets target (λ t.
    given w buckets content
      (λ c. rate_limited w "nginx.write_static_file" now buckets (write_static_file w t c)))
dispatch w (exec_allowed_script path args timeout) now buckets = given w buckets path (λ p.
    given w buckets timeout
      (λ _. rate_limited w "exec.allowed_script" now buckets (exec_script w p args)))
dispatch w (service_set_state name action) now buckets =
    given w buckets name (λ n. given w buckets action (λ a. carry_out w (set_state n a) buckets))
