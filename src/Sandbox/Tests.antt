-- ===== src/Sandbox/Tests.antt =====
-- The sandbox at concrete inputs. The file system of the tests is the list of the paths that were
-- written; each file that is read holds the word `hi`.
use atlas_bot.Common.{
  ℕ, Text, codes, text_eq, true, false, none, some, List, [], ◌∷◌, inl, inr, ◌≡◌, refl, arith, All,
  trim, is_empty, get, strip_prefix, ◌++◌, ◌↔◌, ◌≤◌, length,
}
use atlas_bot.Json.{Json, str, object}
use atlas_bot.Gateway.Types.{AgentRecord}
use atlas_bot.Approval.{ToolApprovalMode, auto_deny, off, timer}
use atlas_bot.Sandbox.FilePaths.{
  Component, components, join, is_absolute, parent, begins, begins-append,
}
use atlas_bot.Sandbox.Resolve.{Links, resolve_sandbox_path}
use atlas_bot.Sandbox.Resolve.Inside.{
  IsLocal, IsName, resolve_sandbox_path_iff, resolve_sandbox_path-IsName,
}
use atlas_bot.Sandbox.Triggers.{scan_unknown_run_commands, parse_write_file}
use atlas_bot.Sandbox.Triggers.Scan.{runs_in, reports, scan_unknown_run_commands_lem}
use atlas_bot.Sandbox.Files.{FileSystem, read_text_capped, box_text_file_max_bytes}
use atlas_bot.Sandbox.Files.Caps.{read_text_capped-le}
use atlas_bot.Sandbox.Tools.{agent_dir, ensure_agent_workspace, maybe_run_tools}
use atlas_bot.Sandbox.Boxes.{Box, Meanwhile}
use atlas_bot.Sandbox.Tools.Inside.{KeptBelow, maybe_run_tools-P}
use atlas_bot.Sandbox.Tools.Denied.{maybe_run_tools-auto_deny}
use atlas_bot.Sandbox.Replies.{is_echo, compose_reply, interrupted}
use atlas_bot.Sandbox.Replies.Echo.{is_echo-compose_reply}
use atlas_bot.Sandbox.Turns.{send_prompt}
use atlas_bot.Sandbox.Agents.{Sidecar, Settings, new_settings, Waits}
use atlas_bot.Sandbox.Turns.Idle.{IsFree, send_prompt-IsFree}
use atlas_bot.Sandbox.Turns.Kept.{AllKept}
use atlas_bot.Sandbox.Uploads.{Given}
use atlas_bot.Sandbox.Dispatch.{invoke}
use atlas_bot.Sandbox.Dispatch.Runs.{here, next, reached-AllKept}
use atlas_bot.Sandbox.Start.{new_with_approval}

abbrev Written : Type 0
Written = List (List Component)

abbrev no_links : Links
no_links = record { exists = λ p. false; canonicalize = λ p. none }

abbrev disk : FileSystem Written
disk = record {
  links = λ f. no_links;
  metadata_len = λ p f. inr 2;
  read = λ p f. inr (b'h' ∷ b'i' ∷ []);
  from_utf8 = λ bs. inr bs;
  read_dir = λ p f. inr [];
  write = λ p bs f. (none, p ∷ f);
  append = λ p line f. (none, p ∷ f);
  remove_dir_all = λ path f. (none, f);
  create_dir_all = λ p f. (none, f);
  output = λ cmd p f. inl (codes "no shell");
}

abbrev meanwhile : Meanwhile Written
meanwhile = record { uuid = λ name. codes "1"; others = λ name s. s; wake = λ name. timer }

abbrev work : Text
work = codes "/work"

abbrev agent : Text
agent = codes "agt_1"

workspace_named : is_empty (agent_dir disk meanwhile work agent) ≡ false
unfolding agent_dir codes
workspace_named = refl

abbrev cwd : Text
cwd = codes "/work/agt_1"

cwd_named : is_empty cwd ≡ false
unfolding codes
cwd_named = refl

resolved :
    resolve_sandbox_path no_links cwd (codes " notes/a.txt ")
    ≡ inr (codes "/work/agt_1/notes/a.txt")
unfolding resolve_sandbox_path codes trim components is_absolute join text_eq begins parent
resolved = refl

escape_refused :
    resolve_sandbox_path no_links cwd (codes "a/../../b")
    ≡ inl (codes "path escape rejected (..): a/../../b")
unfolding resolve_sandbox_path codes trim components is_absolute text_eq
escape_refused = refl

resolve_sandbox_path_iff_example :
    (resolve_sandbox_path no_links cwd (codes "a") ≡ inr (codes "/work/agt_1/a"))
    ↔ (IsLocal (trim (codes "a")) × (codes "/work/agt_1/a" ≡ join cwd (trim (codes "a"))))
resolve_sandbox_path_iff_example =
    resolve_sandbox_path_iff no_links cwd cwd_named (codes "a") (codes "/work/agt_1/a")

resolve_sandbox_path-IsName_example :
    (cs : List Component) × (components (codes "/work/agt_1/notes/a.txt") ≡ components cwd ++ cs)
    × All IsName cs
resolve_sandbox_path-IsName_example =
    resolve_sandbox_path-IsName no_links cwd cwd_named (codes " notes/a.txt ")
      (codes "/work/agt_1/notes/a.txt") resolved

scanned :
    scan_unknown_run_commands (codes "RUN ls then RUN rm x")
    ≡ some ((codes "rm", codes "closed-set reject; not silent") ∷ [])
unfolding scan_unknown_run_commands codes text_eq strip_prefix
scanned = refl

scan_unknown_run_commands_lem_example :
    scan_unknown_run_commands (codes "RUN rm x") ≡ some (reports (runs_in (codes "RUN rm x")))
scan_unknown_run_commands_lem_example = scan_unknown_run_commands_lem (codes "RUN rm x")

triggers :
    parse_write_file (codes "WRITE_FILE a.txt <<< hello ") ≡ some (codes "a.txt", codes "hello")
unfolding parse_write_file codes strip_prefix
triggers = refl

read_hi : read_text_capped disk [] [] ≡ inr (b'h' ∷ b'i' ∷ [])
unfolding read_text_capped
read_hi = refl

read_text_capped-le_example :
    (bytes : List ℕ) × (disk.read [] [] ≡ inr bytes)
    × (disk.from_utf8 bytes ≡ inr (b'h' ∷ b'i' ∷ []))
    × (length bytes ≤ box_text_file_max_bytes)
read_text_capped-le_example = read_text_capped-le disk [] [] (b'h' ∷ b'i' ∷ []) read_hi

abbrev box : ToolApprovalMode → Box Written
box mode = record {
  files = [];
  approval = record { mode = mode; pending = []; inject = []; sent = [] };
  sent = [];
}

-- every path that was written lies in the workspace
abbrev AllInside : Written → Type 0
AllInside f = All (λ p. begins (components (agent_dir disk meanwhile work agent)) p ≡ true) f

inside : KeptBelow disk meanwhile work agent AllInside
inside = record {
  others = λ name s q. q;
  writes = λ path bytes f (cs, e, names) q.
      (rw e (begins-append (components (agent_dir disk meanwhile work agent)) cs), q);
  dirs = λ path f on q. q;
}

maybe_run_tools-P_example :
    AllInside
      (maybe_run_tools disk meanwhile work agent (codes "WRITE_FILE a.txt hello") (box off)).1.files
maybe_run_tools-P_example =
    maybe_run_tools-P disk meanwhile work agent AllInside inside workspace_named
      (codes "WRITE_FILE a.txt hello") (box off) tt

maybe_run_tools-auto_deny_example :
    ((maybe_run_tools disk meanwhile work agent
        (codes "WRITE_FILE a.txt hello")
        (box auto_deny)).1.files
      ≡ ensure_agent_workspace disk meanwhile work agent [])
    × ((maybe_run_tools disk meanwhile work agent
          (codes "WRITE_FILE a.txt hello")
          (box auto_deny)).1.approval
        ≡ (box auto_deny).approval)
maybe_run_tools-auto_deny_example =
    maybe_run_tools-auto_deny disk meanwhile work agent (codes "WRITE_FILE a.txt hello")
      (box auto_deny) refl

is_echo-compose_reply_example :
    is_echo (codes "hi") (compose_reply agent (codes "hi") [] none) ≡ false
is_echo-compose_reply_example = is_echo-compose_reply agent (codes "hi") [] none

abbrev settings : Settings
settings = new_settings (record {
  workspace_root = work;
  turn_delay = 50;
  history_max_turns = 0;
  session_persist = true;
  has_llm = false;
  attach_ttl = 1000;
})

abbrev waits : Waits Written
waits = record {
  in_delay = λ s. s;
  cancelled = false;
  at_gates = meanwhile;
  until_reply = λ s. s;
  answer = λ messages. interrupted;
  now = 7;
  print = λ v. codes "{}";
}

abbrev agent_record : AgentRecord
agent_record = record {
  id = agent;
  name = codes "A";
  description = [];
  is_running = false;
  created_at = 0;
  is_group = false;
  member_ids = [];
}

abbrev sidecar : Sidecar Written
sidecar = record {
  box = box off;
  agents = (agent, agent_record) ∷ [];
  transcripts = [];
  history = [];
  next_entry_seq = [];
  pending = [];
  next_turn = 0;
  next_agent_n = 2;
  invokes = 0;
  uploads = [];
  channel_connections = [];
  vnc_tokens = [];
}

abbrev hello : Json
hello = object (("prompt", str (codes "hello")) ∷ [])

starts-IsFree : IsFree agent sidecar
unfolding get text_eq codes
starts-IsFree = ((agent_record, refl, refl), refl)

send_prompt-IsFree_example : IsFree agent (send_prompt disk settings waits agent hello sidecar).1
send_prompt-IsFree_example =
    send_prompt-IsFree disk settings waits agent (λ s h. h) (λ s h. h) hello sidecar starts-IsFree

abbrev given : Given
given = record {
  host = record {
    now = 7;
    uuid = codes "1";
    mkdir_error = none;
    write_error = none;
    meta_error = none;
    left = λ o. none;
    can_remove = λ id. true;
    meta_at = λ path. none;
    json_bytes = λ v. 2;
    base64_decode = λ s. inr [];
    decode_meta = λ bytes. none;
  };
  print_meta = λ m. inr (codes "{}");
  listens = λ turn. true;
}

abbrev fresh : Sidecar Written
fresh = new_with_approval disk work off []

reached-AllKept_example :
    AllKept settings (invoke disk settings waits given agent (codes "sendPrompt") hello fresh).1
reached-AllKept_example =
    reached-AllKept disk settings off []
      (invoke disk settings waits given agent (codes "sendPrompt") hello fresh).1 (omega arith)
      (next here waits given agent (codes "sendPrompt") hello (λ u. here) (λ u. here))
