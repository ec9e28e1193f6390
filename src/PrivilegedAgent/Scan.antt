-- ===== src/PrivilegedAgent/Scan.antt =====
-- The scan of scripts in privileged_agent/server.py: _scan_script_content and _run_script.
use nereus_door_loong_magic.Common.{
  ℕ, ◌+◌, ◌≡◌, ◌≢◌, String, true, false, none, some, List, [], ◌∷◌, refl, arith, All, Bool-cases,
  Option-cases, inl, inr, ◌⊎◌,
}
use nereus_door_loong_magic.PrivilegedAgent.Scripts.{
  System, TextTools, run_process, Pattern, blacklist, first_hit, scan_lines, scan_script_content,
  run_script,
}

-- No line matches a pattern of the blacklist.
abbrev pub Harmless : TextTools → List String → Type 0
Harmless tools lines =
    All (λ line. All (λ p. tools.re_search p.regex p.ignore_case line ≡ false) blacklist) lines

first_hit-none :
    (tools : TextTools) (ps : List Pattern) (n : ℕ) (line : String)
    → first_hit tools ps n line ≡ none
    → All (λ p. tools.re_search p.regex p.ignore_case line ≡ false) ps
unfolding first_hit
first_hit-none tools [] n line h = tt
first_hit-none tools (p ∷ ps) n line h =
    elim (Bool-cases (tools.re_search p.regex p.ignore_case line)) [
      | inl y ↦ absurd (ground arith)
      | inr q ↦ (q, first_hit-none tools ps n line (ground arith))
    ]

scan_lines-Harmless :
    (tools : TextTools) (n : ℕ) (lines : List String)
    → scan_lines tools n lines ≡ []
    → Harmless tools lines
unfolding scan_lines
scan_lines-Harmless tools n [] h = tt
scan_lines-Harmless tools n (line ∷ lines) h =
    elim (Option-cases (first_hit tools blacklist n line)) [
      | inr (hit, found) ↦ absurd (ground arith)
      | inl misses ↦ (
        first_hit-none tools blacklist n line misses,
        scan_lines-Harmless tools (n + 1) lines (ground arith),
      )
    ]

List-cases : {A : Type 0} (xs : List A) → (xs ≡ []) ⊎ ((x : A) × (rest : List A) × (xs ≡ x ∷ rest))
List-cases [] = inl refl
List-cases (x ∷ xs) = inr (x, xs, refl)

-- If _run_script does anything, then the script exists and can be read, no line of what was read
-- matches a pattern of the blacklist, and what is done is to run bash on the path.
pub run_script-Harmless :
    (sys : System) (tools : TextTools) (path : String)
    → (run_script sys tools path).1 ≢ []
    → (content : String) × (sys.path_exists path ≡ true)
      × (sys.read_text path ≡ some content)
      × Harmless tools (tools.splitlines content)
      × ((run_script sys tools path).1 ≡ run_process ("/bin/bash" ∷ path ∷ []) ∷ [])
unfolding run_script scan_script_content
run_script-Harmless sys tools path acts = elim (Bool-cases (sys.path_exists path)) [
  | inr lost ↦ absurd (acts (ground arith))
  | inl there ↦ elim (Option-cases (sys.read_text path)) [
    | inl unread ↦ absurd (acts (ground arith))
    | inr (content, read) ↦ elim (List-cases (scan_lines tools 1 (tools.splitlines content))) [
      | inr (hit, hits, found) ↦ absurd (acts (ground arith))
      | inl clean ↦
          let done_ : (run_script sys tools path).1 ≡ run_process ("/bin/bash" ∷ path ∷ []) ∷ [] =
            ground arith in
          (
            content,
            there,
            read,
            scan_lines-Harmless tools 1 (tools.splitlines content) clean,
            done_,
          )
    ]
  ]
]
