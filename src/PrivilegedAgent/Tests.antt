-- ===== src/PrivilegedAgent/Tests.antt =====
-- Concrete requests to the privileged agent, and the theorems applied to them.
use nereus_door_loong_magic.Common.{
  ℕ, ◌≡◌, ◌≢◌, ◌↔◌, String, true, false, none, some, List, [], ◌∷◌, arith, refl, pos, ◌==◌,
  if◌then◌else◌,
}
use nereus_door_loong_magic.Common.Dict.{lookup, insert, keys_where, remove_all, update_values}
use nereus_door_loong_magic.Crypto.{sign, verify, hash_args, hash_cmd, hash_content}
use nereus_door_loong_magic.Crypto.Sample.{sample, sample-IsKeyPair}
use nereus_door_loong_magic.Replay.{naive, is_fresh_as_utc, check_and_store, check_nonce}
use nereus_door_loong_magic.Elevation.{
  Token, entry_is_expired, token_is_expired, token_is_exhausted, bind_commands, new_token, Service,
  start,
}
use nereus_door_loong_magic.Elevation
use nereus_door_loong_magic.Elevation.Codes.{
  Request, new_entry, expire_code, expire_previous, generate_code, approve_code,
}
use nereus_door_loong_magic.Elevation.Signing.{
  Draw, Signed, SigPayload, payload_json, authorise, check_channel, create_signed_request,
}
use nereus_door_loong_magic.Elevation.Signing
use nereus_door_loong_magic.PrivilegedAgent.Validator.{
  Host, Rule, ok, path_not_allowed, check_flags, check_modes, validate_allowed_args, is_under,
  resolve_all, check_path, check_paths, validate_paths, validate_sql_prefix, validate,
}
use nereus_door_loong_magic.PrivilegedAgent.Permitted.{Permits, validate-ok}
use nereus_door_loong_magic.PrivilegedAgent.Scripts.{
  System, TextTools, exited, run_command, first_hit, scan_lines, scan_script_content, run_script,
  run_process, failed, nonce_replay,
}
use nereus_door_loong_magic.PrivilegedAgent.Dispatch.{
  dispatch_write_file, dispatch_named, dispatch_v2_command,
}
use nereus_door_loong_magic.PrivilegedAgent.Server.{
  V2Request, Config, Input, verify_signature, peer_allowed, check_hashes, check_rule, run_request,
  handle_request, handle_v2, serve,
}
use nereus_door_loong_magic.PrivilegedAgent.Server
use nereus_door_loong_magic.PrivilegedAgent.Chain.{IsAuthorised, acts-IsAuthorised}
use nereus_door_loong_magic.PrivilegedAgent.NoReplay.{acts_once}
use nereus_door_loong_magic.PrivilegedAgent.Scan.{Harmless, run_script-Harmless}
use nereus_door_loong_magic.PrivilegedAgent.Signed.{request_of, signed-verifies}

program : Unit {0}
unfolding check_flags check_modes validate_allowed_args is_under resolve_all check_path check_paths
    validate_paths validate_sql_prefix validate run_command first_hit scan_lines scan_script_content
    run_script dispatch_write_file dispatch_named dispatch_v2_command verify_signature peer_allowed
    check_hashes check_rule run_request handle_request handle_v2 serve Server.sig_payload
    is_fresh_as_utc check_and_store check_nonce lookup insert keys_where remove_all update_values
    sample hash_args hash_cmd hash_content sign verify new_entry expire_code expire_previous
    generate_code approve_code create_signed_request Signing.sig_payload payload_json authorise
    check_channel new_token bind_commands entry_is_expired token_is_expired token_is_exhausted
program = tt

abbrev host : Host
host = record {
  re_match = λ pattern t. false;
  upper = λ t. t;
  strip = λ t. t;
  is_longer_than_one = λ t. if t == "-" then false else true;
  resolve = λ t.
      if t == "/var/www/x"
      then some ("var" ∷ "www" ∷ "x" ∷ [])
      else if t == "/var/www"
      then some ("var" ∷ "www" ∷ [])
      else some ("etc" ∷ []);
  file_size = λ t. none;
}

abbrev mkdir_rule : Rule
mkdir_rule = record {
  name = "mkdir";
  risk = "low";
  command_line = none;
  path_validation = some (record { allowed_parents = "/var/www" ∷ []; max_size = 0 });
  allowed_args = some (record {
    actions = none;
    services = none;
    subcommands = none;
    flags = some ("-p" ∷ []);
    mode_regex = none;
  });
  allowed_sql_prefixes = [];
}

abbrev mkdir_args : List String
mkdir_args = "-p" ∷ "/var/www/x" ∷ []

validates : validate host mkdir_rule mkdir_args ≡ ok
unfolding program
validates = refl

outside_refused : validate host mkdir_rule ("-p" ∷ "/etc" ∷ []) ≡ path_not_allowed "/etc"
unfolding program
outside_refused = refl

validate-ok_example :
    (validate host mkdir_rule mkdir_args ≡ ok) ↔ Permits host mkdir_rule mkdir_args
validate-ok_example = validate-ok host mkdir_rule mkdir_args

abbrev config : Config
config = record {
  primitives = sample;
  host = host;
  system = record {
    run = λ argv. exited (record { returncode = "0"; stdout = ""; stderr = "" });
    path_exists = λ p. false;
    read_text = λ p. none;
    write_text = λ p c. false;
    path_text = λ p. p;
    length_text = λ p. "0";
  };
  tools = record {
    re_search = λ p i t. false;
    splitlines = λ t. t ∷ [];
    strip = λ t. t;
    snippet = λ t. t;
  };
  splitter = record { split = λ t. t ∷ [] };
  from_iso = λ t. if t == "noon" then some (naive 1000) else none;
  allowed_uids = 0 ∷ 1000 ∷ [];
  public_key = some "key";
  tolerance = 30;
  nonce_ttl = 300;
  registry = ("mkdir", mkdir_rule) ∷ [];
}

-- The session asks for mkdir, and the administrator approves.
abbrev ask : Request
ask = record {
  session_id = "s1";
  commands = record { command = some "mkdir"; args = some mkdir_args } ∷ [];
  reason = "new site";
  ttl_seconds = 3600;
  max_ops = 1;
  code = some "NGA7-K3X9";
  drawn = "AAAA-BBBB";
  inline_cmd = none;
  inline_cmd_hash = none;
  script_path = none;
  script_hash = none;
  request_type = "privileged";
  task_id = none;
  approval_policy = none;
  expire_previous = true;
}

abbrev granted : Elevation.Service
granted =
    (approve_code sample "NGA7-K3X9" "root" "tok" 200 (generate_code ask 100 (start "key")).1).1

abbrev draw : Draw
draw = record { now = 300; request_uuid = "u"; nonce = "nonce-0001"; timestamp = "noon" }

abbrev payload : SigPayload
payload = record {
  request_id = "v2-u";
  command = "mkdir";
  args = mkdir_args;
  args_hash = hash_args sample mkdir_args;
  token_id = "tok";
  session_id = "s1";
  timestamp = "noon";
  nonce = "nonce-0001";
  cmd_hash = "";
  script_path = "";
  script_hash = "";
}

abbrev signed : Signed
signed = record { payload = payload; signature = sign sample (payload_json payload) "key" }

signs : (create_signed_request sample "tok" (pos 0) mkdir_args "s1" draw granted).0 ≡ some signed
unfolding program
signs = refl

signed-verifies_example : verify_signature config (request_of signed) ≡ true
unfolding program
signed-verifies_example =
    signed-verifies config "tok" (pos 0) mkdir_args "s1" draw granted signed "key"
      (sample-IsKeyPair "key") refl signs

abbrev at_ : ℕ → Input
at_ now = record { peer = some 1000; parsed = some (request_of signed); now = now }

-- What was approved is done.
runs : (handle_v2 config (at_ 1010) []).actions ≡ run_process ("mkdir" ∷ mkdir_args) ∷ []
unfolding program
runs = refl

refused_again :
    (handle_v2 config (at_ 1020) (handle_v2 config (at_ 1010) []).nonces).outcome
    ≡ failed nonce_replay
unfolding program
refused_again = refl

acted : (handle_v2 config (at_ 1010) []).actions ≢ []
unfolding program
acted h = absurd (ground arith)

acts-IsAuthorised_example : (r : V2Request) × IsAuthorised config (at_ 1010) [] r
acts-IsAuthorised_example = acts-IsAuthorised config (at_ 1010) [] acted

acts_once_example : ¬ (
    (handle_v2 config
      (at_ 1400)
      (serve config (at_ 1020 ∷ []) (handle_v2 config (at_ 1010) []).nonces)).actions
    ≢ [])
acts_once_example =
    acts_once config (at_ 1010) (at_ 1400) (at_ 1020 ∷ []) [] (request_of signed)
      (request_of signed) (omega arith) tt (omega arith) refl refl refl refl acted

-- A machine with one script.
abbrev script_system : System
script_system = record config.system { path_exists = λ p. true; read_text = λ p. some "uptime" }

-- Patterns that are looked up as the whole line.
abbrev line_tools : TextTools
line_tools = record config.tools { re_search = λ p i t. p == t }

script_runs : (run_script script_system line_tools "/srv/x.sh").1 ≢ []
unfolding program
script_runs h = absurd (ground arith)

run_script-Harmless_example :
    (content : String) × (script_system.path_exists "/srv/x.sh" ≡ true)
    × (script_system.read_text "/srv/x.sh" ≡ some content)
    × Harmless line_tools (line_tools.splitlines content)
    × ((run_script script_system line_tools "/srv/x.sh").1
        ≡ run_process ("/bin/bash" ∷ "/srv/x.sh" ∷ []) ∷ [])
run_script-Harmless_example = run_script-Harmless script_system line_tools "/srv/x.sh" script_runs
