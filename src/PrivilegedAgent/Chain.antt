-- ===== src/PrivilegedAgent/Chain.antt =====
-- The chain of checks of _handle_v2 in privileged_agent/server.py.
use nereus_door_loong_magic.Common.{
  ℕ, String, ◌≡◌, ◌≢◌, ◌⊎◌, true, false, none, some, [], refl, arith, Bool-cases, Option-cases, inl,
  inr, ◌==◌, eq_iff, join,
}
use nereus_door_loong_magic.Common.Dict.{Dict, lookup}
use nereus_door_loong_magic.Crypto.{hash_args, hash_cmd, hash_content}
use nereus_door_loong_magic.Replay.{is_fresh_as_utc, check_nonce}
use nereus_door_loong_magic.PrivilegedAgent.Validator.{Rule, ok, validate}
use nereus_door_loong_magic.PrivilegedAgent.Permitted.{Permits, validate-ok}
use nereus_door_loong_magic.PrivilegedAgent.Dispatch.{dispatch_v2_command}
use nereus_door_loong_magic.PrivilegedAgent.Server.{
  V2Request, Config, Input, verify_signature, peer_allowed, check_hashes, check_rule, run_request,
  handle_v2,
}

-- Which hash a request with a token must match, by its command: the text of a command, the content of
-- a script, or the arguments; the last two only where the request carries a hash.
pub record Matches (cfg : Config) (r : V2Request) : Type 0 where
  pub text_hash :
      (r.token_id == "") ≡ false
      → (r.command == "exec_arbitrary_cmd") ≡ true
      → ((r.cmd_hash == "") ≡ false) × (hash_cmd cfg.primitives (join r.args) ≡ r.cmd_hash)
  pub script :
      (r.token_id == "") ≡ false
      → (r.command == "exec_arbitrary_script") ≡ true
      → (content : String) × (cfg.system.read_text r.script_path ≡ some content)
        × (((r.script_hash == "") ≡ true) ⊎ (hash_content cfg.primitives content ≡ r.script_hash))
  pub arguments :
      (r.token_id == "") ≡ false
      → (r.command == "exec_arbitrary_cmd") ≡ false
      → (r.command == "exec_arbitrary_script") ≡ false
      → ((r.args_hash == "") ≡ true) ⊎ (hash_args cfg.primitives r.args ≡ r.args_hash)

not_cmd : (x : String) → (x == "exec_arbitrary_script") ≡ true → (x == "exec_arbitrary_cmd") ≡ false
not_cmd x h =
    let e : x ≡ "exec_arbitrary_script" = (eq_iff x "exec_arbitrary_script").0 h in rw e refl

check_hashes-Matches : (cfg : Config) (r : V2Request) → check_hashes cfg r ≡ none → Matches cfg r
unfolding check_hashes
check_hashes-Matches cfg r passes = record {
  text_hash = λ token is_cmd. elim (Bool-cases (r.cmd_hash == "")) [
    | inl empty ↦ absurd (ground arith)
    | inr given ↦ elim (Bool-cases (hash_cmd cfg.primitives (join r.args) == r.cmd_hash)) [
      | inl same ↦ (given, (eq_iff _ _).0 same)
      | inr other ↦ absurd (ground arith)
    ]
  ];
  script = λ token is_script.
      let plain = not_cmd r.command is_script in
      elim (Option-cases (cfg.system.read_text r.script_path)) [
        | inl missing ↦ absurd (ground arith)
        | inr (content, there) ↦ elim (Bool-cases (r.script_hash == "")) [
          | inl empty ↦ (content, there, inl empty)
          | inr given ↦ elim (Bool-cases (hash_content cfg.primitives content == r.script_hash)) [
            | inl same ↦ (content, there, inr ((eq_iff _ _).0 same))
            | inr other ↦ absurd (ground arith)
          ]
        ]
      ];
  arguments = λ token not_cmd not_script. elim (Bool-cases (r.args_hash == "")) [
    | inl empty ↦ inl empty
    | inr given ↦ elim (Bool-cases (hash_args cfg.primitives r.args == r.args_hash)) [
      | inl same ↦ inr ((eq_iff _ _).0 same)
      | inr other ↦ absurd (ground arith)
    ]
  ];
}

-- What holds where _handle_v2 does anything to the machine.
pub record IsAuthorised (cfg : Config) (i : Input) (nonces : Dict ℕ) (r : V2Request) : Type 0 where
  pub parsed : i.parsed ≡ some r
  pub peer : peer_allowed cfg.allowed_uids i.peer ≡ true
  pub signed : verify_signature cfg r ≡ true
  pub fresh : is_fresh_as_utc cfg.tolerance (cfg.from_iso r.timestamp) i.now ≡ true
  pub new_nonce : (check_nonce cfg.nonce_ttl r.nonce i.now nonces).0 ≡ true
  pub stored : (handle_v2 cfg i nonces).nonces ≡ (check_nonce cfg.nonce_ttl r.nonce i.now nonces).1
  pub rule : Rule
  pub registered : lookup r.command cfg.registry ≡ some rule
  pub permitted : Permits cfg.host rule r.args
  pub hashes : Matches cfg r
  pub executed :
      (handle_v2 cfg i nonces).actions
      ≡ (dispatch_v2_command cfg.system cfg.tools cfg.splitter rule r.command r.args).1

-- The steps 6 and 7 of a request that acts.
run_request-acts :
    (cfg : Config) (r : V2Request)
    → (run_request cfg r).1 ≢ []
    → (rule : Rule) × (lookup r.command cfg.registry ≡ some rule)
      × (validate cfg.host rule r.args ≡ ok)
      × (check_hashes cfg r ≡ none)
      × ((run_request cfg r).1
          ≡ (dispatch_v2_command cfg.system cfg.tools cfg.splitter rule r.command r.args).1)
unfolding run_request check_rule
run_request-acts cfg r acts = elim (Option-cases (lookup r.command cfg.registry)) [
  | inl unknown ↦ absurd (acts (ground arith))
  | inr (rule, found) ↦ elim (Option-cases (check_rule cfg r rule)) [
    | inr (stop, stopped) ↦ absurd (acts (ground (arith, stopped)))
    | inl passed ↦
        (rule, found, ground (arith, passed), ground (arith, passed), ground (arith, passed))
  ]
]

-- If _handle_v2 runs a process or writes a file, then the peer is allowed, the signature verifies (or no
-- public key is configured), the timestamp is fresh, the nonce is new, the command is registered,
-- its rule permits the arguments, and what is done is what the command's dispatch does. If the request
-- names a token, then a command text has the hash that the request must carry, and a script and the
-- arguments of another command have the hash that the request carries, where it carries one.
pub acts-IsAuthorised :
    (cfg : Config) (i : Input) (nonces : Dict ℕ)
    → (handle_v2 cfg i nonces).actions ≢ []
    → (r : V2Request) × IsAuthorised cfg i nonces r
unfolding handle_v2
acts-IsAuthorised cfg i nonces acts = elim (Bool-cases (peer_allowed cfg.allowed_uids i.peer)) [
  | inr denied ↦ absurd (acts (ground arith))
  | inl peer ↦ elim (Option-cases i.parsed) [
    | inl malformed ↦ absurd (acts (ground arith))
    | inr (r, parsed) ↦ elim (Bool-cases (verify_signature cfg r)) [
      | inr forged ↦ absurd (acts (ground arith))
      | inl signed ↦
          elim (Bool-cases (is_fresh_as_utc cfg.tolerance (cfg.from_iso r.timestamp) i.now)) [
            | inr stale ↦ absurd (acts (ground arith))
            | inl fresh ↦ elim (Bool-cases (check_nonce cfg.nonce_ttl r.nonce i.now nonces).0) [
              | inr known ↦ absurd (acts (ground arith))
              | inl new ↦
                  let (rule, found, valid, hashed, done_) =
                    run_request-acts cfg r (λ none_. acts (ground (arith, none_))) in
                  (
                    r,
                    record {
                      parsed = parsed;
                      peer = peer;
                      signed = signed;
                      fresh = fresh;
                      new_nonce = new;
                      stored = ground arith;
                      rule = rule;
                      registered = found;
                      permitted = (validate-ok cfg.host rule r.args).0 valid;
                      hashes = check_hashes-Matches cfg r hashed;
                      executed = ground (arith, done_);
                    },
                  )
            ]
          ]
    ]
  ]
]
