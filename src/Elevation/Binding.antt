-- ===== src/Elevation/Binding.antt =====
-- What an approval in gateway/service/elevation_service.py binds its token to.
use nereus_door_loong_magic.Common.{
  ℕ, zero, suc, ◌≡◌, ◌≢◌, String, Option, some, ◌==◌, inl, inr, ℤ, pos, List, [], ◌∷◌, arith,
  eq_iff, Option-cases, true, false, get_elem?, or_text, join, refl, sym, ◌∙◌,
}
use nereus_door_loong_magic.Common.Dict.{lookup, lookup-insert_self}
use nereus_door_loong_magic.Crypto.{Primitives, hash_args, hash_cmd}
use nereus_door_loong_magic.Crypto.Laws.{IsCollisionFree, hash_args_injective}
use nereus_door_loong_magic.Elevation.{
  Status, pending, Command, args_of, Entry, entry_is_expired, Allowed, bind_commands, new_token,
  Token, Service,
}
use nereus_door_loong_magic.Elevation.Codes.{returned, is_pending, approve_entry, approve_code}
use nereus_door_loong_magic.Elevation.Signing.{
  Draw, Signed, Channel, check_channel, authorise, create_signed_request, sig_payload,
}
use nereus_door_loong_magic.Elevation.Steps.{
  Call, step, after, AllSpare, Authorised, authorise-eq-some,
}
use nereus_door_loong_magic.Elevation.Frame.{token_of, Change, same, gone, used, Change-step}

-- The token is one that was there before, but for its count of operations.
abbrev Origin : Option Token → Token → Type 0
Origin before u = (t : Token) × (before ≡ some t) × (u ≡ record t { ops_used = u.ops_used })

Change-Origin :
    {before later : Option Token} (u : Token)
    → Change before later
    → later ≡ some u
    → Origin before u
Change-Origin u (same e) h = (u, ground arith, refl)
Change-Origin u (gone e) h = absurd (ground arith)
Change-Origin u (used t n b l) h = (t, b, ground arith)

after-Origin :
    (c : Primitives) (tid : String) (calls : List Call) (s : Service) (u : Token)
    → AllSpare tid calls
    → token_of tid (after c calls s) ≡ some u
    → Origin (token_of tid s) u
unfolding after
after-Origin c tid [] s u spare h = (u, h, refl)
after-Origin c tid (call ∷ calls) s u spare h =
    let (t, found, e) = after-Origin c tid calls (step c call s).1 u spare.1 h in
    let (r, there, f) = Change-Origin t (Change-step c tid s call spare.0) found in
    (r, there, ground arith)

-- A bound command is the command of the code at its index, with the hash of its arguments.
bound_at :
    (c : Primitives) (cmds : List Command) (allowed : List Allowed) (i : ℕ) (a : Allowed)
    → bind_commands c cmds ≡ some allowed
    → get_elem? allowed i ≡ some a
    → (cmd : Command) × (get_elem? cmds i ≡ some cmd)
      × (cmd.command ≡ some a.command)
      × (a.args_hash ≡ hash_args c (args_of cmd))
unfolding bind_commands
bound_at c [] allowed i a h at_ = absurd (ground arith)
bound_at c (cmd ∷ cmds) [] i a h at_ = absurd (ground arith)
bound_at c (cmd ∷ cmds) (b ∷ allowed) zero a h at_ = (cmd, refl, ground arith, ground arith)
bound_at c (cmd ∷ cmds) (b ∷ allowed) (suc i) a h at_ =
    bound_at c cmds allowed i a (ground arith) at_

-- What stands behind a token that approve_code returns.
pub record Approval (c : Primitives) (code by tid : String) (now : ℕ) (s : Service) (t : Token)
    : Type 0 where
  pub entry : Entry
  pub found : lookup code s.codes ≡ some entry
  pub was_pending : entry.status ≡ pending
  pub unexpired : entry_is_expired entry now ≡ false
  pub token : new_token c tid (approve_entry by tid now entry) now ≡ some t
  pub stored : lookup tid (approve_code c code by tid now s).1.tokens ≡ some t

is_pending→eq : (x : Status) → is_pending x ≡ true → x ≡ pending
is_pending→eq x h = ground arith

pub approve-Approval :
    (c : Primitives) (code by tid : String) (now : ℕ) (s : Service) (t : Token)
    → (approve_code c code by tid now s).0 ≡ returned (some t)
    → Approval c code by tid now s t
unfolding approve_code
approve-Approval c code by tid now s t h = elim (Option-cases (lookup code s.codes)) [
  | inl none_ ↦ absurd (ground arith)
  | inr (e, found) ↦ record {
    entry = e;
    found = found;
    was_pending = ground arith;
    unexpired = ground arith;
    token = ground arith;
    stored = ground (arith, lookup-insert_self tid t s.tokens);
  }
]

-- What a signed request for the token of `e` may carry: a command of the code, with its approved
-- arguments, command text or script.
pub record IsCovered (c : Primitives) (e : Entry) (i : ℕ) (r : Signed) : Type 0 where
  pub command : Command
  pub listed : get_elem? e.commands i ≡ some command
  pub named : command.command ≡ some r.payload.command
  pub same_session : r.payload.session_id ≡ e.session_id
  pub same_args :
      r.payload.command ≢ "exec_arbitrary_cmd"
      → r.payload.command ≢ "exec_arbitrary_script"
      → r.payload.args ≡ args_of command
  pub same_text :
      r.payload.command ≡ "exec_arbitrary_cmd"
      → hash_cmd c (join r.payload.args) ≡ or_text e.inline_cmd_hash ""
  pub same_script :
      r.payload.command ≡ "exec_arbitrary_script" → r.payload.script_hash ≡ or_text e.script_hash ""

-- The request that create_signed_request returns, by the values that its guards found.
signed_parts :
    (c : Primitives) (tid : String) (index : ℤ) (args : List String) (session : String) (d : Draw)
    (s : Service) (r : Signed)
    → (create_signed_request c tid index args session d s).0 ≡ some r
    → (t : Token) × (a : Allowed) × (ch : Channel) × Authorised c tid index args session d.now s t a
        ch
      × (r.payload ≡ sig_payload c tid args session d a ch)
unfolding create_signed_request
signed_parts c tid index args session d s r h =
    elim (Option-cases (authorise c tid index args session d.now s)) [
      | inl refused ↦ absurd (ground arith)
      | inr ((t, a, ch), passed) ↦
          (t, a, ch, authorise-eq-some c tid index args session d.now s t a ch passed, ground arith)
    ]

-- What the check of the channel establishes, by the name of the command.
record Checked (c : Primitives) (t : Token) (a : Allowed) (args : List String) (ch : Channel)
    : Type 0 where
  args_bound :
      a.command ≢ "exec_arbitrary_cmd"
      → a.command ≢ "exec_arbitrary_script"
      → hash_args c args ≡ a.args_hash
  text_bound :
      a.command ≡ "exec_arbitrary_cmd" → hash_cmd c (join args) ≡ or_text t.inline_cmd_hash ""
  script_bound : a.command ≡ "exec_arbitrary_script" → ch.script_hash ≡ or_text t.script_hash ""

not_both : (x : String) → x ≡ "exec_arbitrary_script" → (x == "exec_arbitrary_cmd") ≡ false
not_both x h = rw h

module _ (c : Primitives) (t : Token) (a : Allowed) (args : List String) (ch : Channel) where
  check_channel-Checked : check_channel c t a args ≡ some ch → Checked c t a args ch
  unfolding check_channel
  check_channel-Checked h = record {
    args_bound = λ not_cmd not_script. ground (
      arith,
      eq_iff a.command "exec_arbitrary_cmd",
      eq_iff a.command "exec_arbitrary_script",
      eq_iff (hash_args c args) a.args_hash,
    );
    text_bound = λ is_cmd. ground (
      arith,
      eq_iff a.command "exec_arbitrary_cmd",
      eq_iff (hash_cmd c (join args)) (or_text t.inline_cmd_hash ""),
    );
    script_bound = λ is_script.
        ground (arith, not_both a.command is_script, eq_iff a.command "exec_arbitrary_script");
  }

-- A token that comes from the approval of `e`, whatever was used of it.
record IsTokenOf (c : Primitives) (e : Entry) (u : Token) : Type 0 where
  session : u.session_id ≡ e.session_id
  text_hash : u.inline_cmd_hash ≡ e.inline_cmd_hash
  script : u.script_hash ≡ e.script_hash
  bound : bind_commands c e.commands ≡ some u.allowed_commands

Approval-IsTokenOf :
    (c : Primitives) (code by tid : String) (now : ℕ) (s : Service) (t u : Token)
    (given : Approval c code by tid now s t)
    → u ≡ record t { ops_used = u.ops_used }
    → IsTokenOf c given.entry u
unfolding new_token
Approval-IsTokenOf c code by tid now s t u given same_ = record {
  session = ground (arith, given.token);
  text_hash = ground (arith, given.token);
  script = ground (arith, given.token);
  bound = ground (arith, given.token);
}

covers :
    (c : Primitives) (e : Entry) (u : Token) (a : Allowed) (ch : Channel) (tid : String) (i : ℕ)
    (args : List String) (session : String) (d : Draw) (r : Signed) (s : Service)
    → IsCollisionFree c
    → IsTokenOf c e u
    → Authorised c tid (pos i) args session d.now s u a ch
    → r.payload ≡ sig_payload c tid args session d a ch
    → IsCovered c e i r
unfolding sig_payload
covers c e u a ch tid i args session d r s free token_ open_ sent =
    let (cmd, listed, named, hashed) =
      bound_at c e.commands u.allowed_commands i a token_.bound open_.allowed in
    let checked = check_channel-Checked c u a args ch open_.channel in
    let name : r.payload.command ≡ a.command = ground (arith, sent) in
    let sent_args : r.payload.args ≡ args = ground (arith, sent) in
    record {
      command = cmd;
      listed = listed;
      named = ground (arith, named, name);
      same_session = ground (arith, sent, open_.same_session, token_.session);
      same_args = λ not_cmd not_script.
          let equal_hash : hash_args c args ≡ hash_args c (args_of cmd) =
            checked.args_bound (λ h. not_cmd (name ∙ h)) (λ h. not_script (name ∙ h)) ∙ hashed in
          sent_args ∙ hash_args_injective c args (args_of cmd) free equal_hash;
      same_text =
          λ is_cmd. cc (sent_args, token_.text_hash, checked.text_bound (sym name ∙ is_cmd));
      same_script = λ is_script.
          let hash_sent : r.payload.script_hash ≡ ch.script_hash = ground (arith, sent) in
          cc (hash_sent, token_.script, checked.script_bound (sym name ∙ is_script));
    }

-- Approve a code, then run any calls that draw no token identifier anew. A request that
-- create_signed_request then signs for the token names the command of the code at the given index
-- and the session of the code. If SHA-256 and the canonical JSON of objects with one key do not
-- collide, its arguments are the approved ones; on exec_arbitrary_cmd the joined text has the approved hash, and on
-- exec_arbitrary_script the request carries the approved script hash. The code was pending and not
-- expired when it was approved.
pub signed-IsCovered :
    (c : Primitives) (code by tid : String) (now : ℕ) (s : Service) (t : Token) (calls : List Call)
    (i : ℕ) (args : List String) (session : String) (d : Draw) (r : Signed)
    → IsCollisionFree c
    → (approve_code c code by tid now s).0 ≡ returned (some t)
    → AllSpare tid calls
    → (create_signed_request c tid
        (pos i)
        args
        session
        d
        (after c calls (approve_code c code by tid now s).1)).0
      ≡ some r
    → (e : Entry) × (lookup code s.codes ≡ some e)
      × (e.status ≡ pending)
      × (entry_is_expired e now ≡ false)
      × IsCovered c e i r
signed-IsCovered c code by tid now s t calls i args session d r free ok spare signed =
    let given = approve-Approval c code by tid now s t ok in
    let s1 = (approve_code c code by tid now s).1 in
    let (u, a, ch, open_, sent) =
      signed_parts c tid (pos i) args session d (after c calls s1) r signed in
    let (t', there, same_) = after-Origin c tid calls s1 u spare open_.found in
    let one : some t' ≡ some t = sym there ∙ given.stored in
    (
      given.entry,
      given.found,
      given.was_pending,
      given.unexpired,
      covers c given.entry u a ch tid i args session d r (after c calls s1) free
          (Approval-IsTokenOf c code by tid now s t u given (ground arith)) open_ sent,
    )
