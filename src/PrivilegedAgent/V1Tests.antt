-- ===== src/PrivilegedAgent/V1Tests.antt =====
-- Concrete requests over the unsigned channel of the privileged agent.
use nereus_door_loong_magic.Common.{
  ◌≡◌, Bool, true, false, none, some, [], ◌∷◌, refl, All, if◌then◌else◌, ◌==◌,
}
use nereus_door_loong_magic.Common.Dict.{lookup, insert}
use nereus_door_loong_magic.Replay.{check_rate}
use nereus_door_loong_magic.PrivilegedAgent.Validator.{Host, is_under, resolve_all}
use nereus_door_loong_magic.PrivilegedAgent.Scripts.{permission_denied, internal_error}
use nereus_door_loong_magic.PrivilegedAgent.V1.{
  World, Effect, Request, named, resolved, make_parents, write_text, chmod, find_parent,
  check_path_allowed, write_to_allowed, create_directory, set_permissions, write_static_file,
  exec_script, set_state, attempt, carry_out, rate_limited, dispatch, failed, file_write_to_allowed,
  nginx_write_static_file, exec_allowed_script, service_set_state,
}
use nereus_door_loong_magic.PrivilegedAgent.Confined.{Confined, dispatch-Confined}

program : Unit {0}
unfolding is_under resolve_all find_parent check_path_allowed write_to_allowed create_directory
    set_permissions write_static_file exec_script set_state attempt carry_out rate_limited dispatch
    check_rate lookup insert
program = tt

-- The link /opt/ndlmpanel/tmp_scripts/run leads to /etc.
abbrev host : Host
host = record {
  re_match = λ pattern t. false;
  upper = λ t. t;
  strip = λ t. t;
  is_longer_than_one = λ t. true;
  resolve = λ t.
      if t == "/etc/nginx/conf.d/"
      then some ("etc" ∷ "nginx" ∷ "conf.d" ∷ [])
      else if t == "/etc/nginx/conf.d/a.conf"
      then some ("etc" ∷ "nginx" ∷ "conf.d" ∷ "a.conf" ∷ [])
      else if t == "/opt/ndlmpanel/tmp_scripts/run"
      then some ("etc" ∷ "run" ∷ [])
      else if t == "/var/www/"
      then some ("var" ∷ "www" ∷ [])
      else if t == "/var/www/../www/i.html"
      then some ("var" ∷ "www" ∷ "i.html" ∷ [])
      else some (t ∷ []);
  file_size = λ t. none;
}

-- Every chmod fails.
abbrev keeps_modes : Effect → Bool
keeps_modes (chmod place mode) = false
keeps_modes e = true

abbrev world : World
world = record { host = host; is_file = λ parts. true; returns = keeps_modes }

abbrev save : Request
save = file_write_to_allowed (some "/etc/nginx/conf.d/a.conf") (some "server {}") (some 420)

-- The file is written before its mode fails.
saves :
    ((dispatch world save 100 []).outcome ≡ failed internal_error)
    × ((dispatch world save 100 []).effects
        ≡ make_parents (named "/etc/nginx/conf.d/a.conf")
          ∷ write_text (named "/etc/nginx/conf.d/a.conf") "server {}"
          ∷ chmod (named "/etc/nginx/conf.d/a.conf") 420
          ∷ [])
unfolding program
saves = (refl, refl)

-- A link out of the script directory is refused, and so is a service that is not listed; a static
-- file is written where its path leads.
refusals :
    ((dispatch world
        (exec_allowed_script (some "/opt/ndlmpanel/tmp_scripts/run") [] (some 60))
        100
        []).outcome
      ≡ failed permission_denied)
    × ((dispatch world (service_set_state (some "mysql") (some "stop")) 100 []).outcome
        ≡ failed permission_denied)
    × ((dispatch world
          (nginx_write_static_file (some "/var/www/../www/i.html") (some "x"))
          100
          []).effects
        ≡ make_parents (resolved ("var" ∷ "www" ∷ "i.html" ∷ []))
          ∷ write_text (resolved ("var" ∷ "www" ∷ "i.html" ∷ [])) "x"
          ∷ chmod (resolved ("var" ∷ "www" ∷ "i.html" ∷ [])) 420
          ∷ [])
unfolding program
refusals = (refl, refl, refl)

dispatch-Confined_example : All (Confined world.host) (dispatch world save 100 []).effects
dispatch-Confined_example = dispatch-Confined world save 100 []
