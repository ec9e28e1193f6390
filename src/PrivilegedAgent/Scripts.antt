-- ===== src/PrivilegedAgent/Scripts.antt =====
-- privileged_agent/server.py: _run_command, _scan_script_content and _run_script. Processes and
-- files are the parameter `System`, regular expressions and text methods `TextTools`. What an
-- operation does to the machine is the list of its actions.
use nereus_door_loong_magic.Common.{
  ℕ, ◌+◌, String, Bool, true, false, not, Option, none, some, List, [], ◌∷◌, if◌then◌else◌, ◌==◌,
  ◌⊎◌, inl, inr,
}
use nereus_door_loong_magic.Common.Json.{Json, text, number, object, field, end}

-- PrivilegedErrorCode, the codes that the V2 path uses
pub data ErrorCode : Type 0 where
  invalid_request unknown_action permission_denied service_unavailable command_failed
        internal_error :
      ErrorCode
  signature_invalid signature_expired nonce_replay command_not_registered args_invalid
        args_hash_mismatch peer_uid_denied :
      ErrorCode
  cmd_hash_mismatch script_not_found script_hash_mismatch script_blacklist_hit : ErrorCode

pub record Finished : Type 0 where
  -- str(result.returncode), which is "0" on success
  pub returncode : String
  pub stdout : String
  pub stderr : String

-- subprocess.run
pub data Ran : Type 0 where
  exited : Finished → Ran
  timed_out : Ran
  -- any other exception, such as a missing program
  broken : Ran

pub record System : Type 0 where
  pub run : List String → Ran
  pub path_exists : String → Bool
  -- path.read_text(encoding="utf-8", errors="ignore"); `none` is an OSError
  pub read_text : String → Option String
  -- mkdir of the parent, write_text and chmod; false is an exception
  pub write_text : String → String → Bool
  -- str(Path(path)) and str(len(content))
  pub path_text : String → String
  pub length_text : String → String

pub record TextTools : Type 0 where
  -- re.compile(pattern).search(text), with the case ignored where the flag says so
  pub re_search : (pattern : String) → (ignore_case : Bool) → String → Bool
  pub splitlines : String → List String
  pub strip : String → String
  -- line.strip()[:80]
  pub snippet : String → String

pub data Action : Type 0 where
  run_process : List String → Action
  write_file : (path content : String) → Action

pub data Outcome : Type 0 where
  done : Json → Outcome
  failed : ErrorCode → Outcome
  -- an exception that no handler catches: there is no answer
  died : Outcome

-- _run_command: a non-zero return code is COMMAND_FAILED.
unfoldable pub run_command : System → List String → Finished ⊎ ErrorCode
run_command sys argv = elim (sys.run argv) [
  | timed_out ↦ inr service_unavailable
  | broken ↦ inr internal_error
  | exited f ↦ if f.returncode == "0" then inl f else inr command_failed
]

pub record Pattern : Type 0 where
  pub regex : String
  pub ignore_case : Bool
  pub description : String

abbrev pattern_of : String → Bool → String → Pattern
pattern_of regex ignore_case description = record {
  regex = regex;
  ignore_case = ignore_case;
  description = description;
}

-- _SCRIPT_BLACKLIST
abbrev pub blacklist : List Pattern
blacklist =
    pattern_of "\\beval\\b" false "eval 动态执行"
    ∷ pattern_of "\\bexec\\s+\\S" false "exec 替换进程"
    ∷ pattern_of "\\bsource\\s+\\S" false "source 加载外部脚本"
    ∷ pattern_of "\\.\\s+[a-zA-Z0-9_/]" false ". 点号加载脚本"
    ∷ pattern_of "\\bcurl\\b.*\\|\\s*(ba|z|k)?sh\\b" true "curl 管道执行"
    ∷ pattern_of "\\bwget\\b.*\\|\\s*(ba|z|k)?sh\\b" true "wget 管道执行"
    ∷ pattern_of "\\|\\s*ba[sz]h\\b" false "管道传给 bash"
    ∷ pattern_of "\\|\\s*sh\\b" false "管道传给 sh"
    ∷ pattern_of "\\bnc\\b\\s+.*\\-e\\b" true "netcat 反弹 shell"
    ∷ pattern_of "\\bnetcat\\b.*\\-e\\b" true "netcat 反弹 shell"
    ∷ []

pub record Hit : Type 0 where
  pub pattern_ : String
  pub line : ℕ
  pub snippet : String

-- The first pattern that the line contains.
unfoldable pub first_hit : TextTools → List Pattern → ℕ → String → Option Hit
first_hit tools [] n line = none
first_hit tools (p ∷ ps) n line =
    if tools.re_search p.regex p.ignore_case line
    then some (record { pattern_ = p.description; line = n; snippet = tools.snippet line })
    else first_hit tools ps n line

-- The loop over the lines, which counts from 1.
unfoldable pub scan_lines : TextTools → ℕ → List String → List Hit
unfolding first_hit
scan_lines tools n [] = []
scan_lines tools n (line ∷ lines) =
    let rest = scan_lines tools (n + 1) lines in
    elim (first_hit tools blacklist n line) [ none ↦ rest | some hit ↦ hit ∷ rest ]

-- _scan_script_content
unfoldable pub scan_script_content : TextTools → String → List Hit
unfolding scan_lines
scan_script_content tools content = scan_lines tools 1 (tools.splitlines content)

abbrev pub script_result : TextTools → String → Finished → Json
script_result tools script_path f = object (
    field "command" (text "exec_arbitrary_script") (
      field "script_path" (text script_path) (
        field "stdout" (text (tools.strip f.stdout)) (
          field "stderr" (text (tools.strip f.stderr))
            (field "returnCode" (number f.returncode) end)))))

-- _run_script: the return code of the script is reported, not checked, and there is no timeout.
unfoldable pub run_script : System → TextTools → String → Outcome × List Action
unfolding scan_script_content
run_script sys tools script_path =
    if not (sys.path_exists script_path)
    then (failed script_not_found, [])
    else elim (sys.read_text script_path) [
      | none ↦ (failed internal_error, [])
      | some content ↦ elim (scan_script_content tools content) [
        | _ ∷ _ ↦ (failed script_blacklist_hit, [])
        | [] ↦
            let argv = "/bin/bash" ∷ script_path ∷ [] in
            elim (sys.run argv) [
              | exited f ↦ (done (script_result tools script_path f), run_process argv ∷ [])
              | _ ↦ (failed internal_error, run_process argv ∷ [])
            ]
      ]
    ]
