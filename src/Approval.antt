-- ===== src/Approval.antt =====
-- Tool approval: crates/atlas-bot-gateway/src/tool_approval.rs, and the gate of
-- crates/atlas-bot-gateway/src/box_sidecar.rs (`await_tool_approval`, `submit_tool_approval`).
-- The hint that announces a waiting gate on the tool channel is left out.
pub mod Gates
pub mod Classes
mod Tests
use atlas_bot.Common.{
  Text, codes, text_eq, Bool, true, false, ◌&&◌, Option, none, some, List, [], ◌∷◌, ◌++◌, map, Dict,
  get, insert, remove, if◌then◌else◌, any, is_empty, trim, lower, to_ascii_lowercase,
  is_ascii_alphanumeric, strip_prefix, contains, after_first,
}
use atlas_bot.Json.{Json, bool, str, object}
use atlas_bot.Gateway.Types.{Result, ok, err, rejected}

pub data ToolApprovalMode : Type 0 where
  gate auto_deny off : ToolApprovalMode

abbrev pub one_of : Text → List Text → Bool
one_of s words = any (λ w. text_eq w s) words

-- `ToolApprovalMode::parse`
unfoldable pub parse_approval_mode : Text → Option ToolApprovalMode
parse_approval_mode raw =
    let s = to_ascii_lowercase (trim raw) in
    if one_of s (codes "gate" ∷ codes "on" ∷ codes "1" ∷ codes "true" ∷ [])
    then some gate
    else if one_of s (codes "auto_deny" ∷ codes "autodeny" ∷ codes "deny" ∷ [])
    then some auto_deny
    else if one_of s (codes "off" ∷ codes "0" ∷ codes "false" ∷ codes "disabled" ∷ [])
    then some off
    else none

pub data ApprovalDecision : Type 0 where
  allow deny : ApprovalDecision

-- `ApprovalDecision::parse` and `as_str`
unfoldable pub parse_decision : Text → Option ApprovalDecision
parse_decision raw =
    let s = to_ascii_lowercase (trim raw) in
    if one_of s (codes "allow" ∷ codes "approve" ∷ codes "yes" ∷ [])
    then some allow
    else if one_of s (codes "deny" ∷ codes "reject" ∷ codes "no" ∷ [])
    then some deny
    else none

unfoldable pub decision_str : ApprovalDecision → Text
decision_str allow = codes "allow"
decision_str deny = codes "deny"

pub data GateOutcome : Type 0 where
  allowed denied timed_out auto_denied : GateOutcome

-- `GateOutcome::reason` and `is_allow`
unfoldable pub reason : GateOutcome → Text
reason allowed = codes "allow"
reason denied = codes "tool_approval_denied"
reason timed_out = codes "tool_approval_timeout"
reason auto_denied = codes "tool_approval_auto_deny"

abbrev pub is_allow : GateOutcome → Bool
is_allow allowed = true
is_allow _ = false

unfoldable pub format_pending_summary : Text → Text → Text → Text
format_pending_summary approval_id tool detail =
    codes "[approval_pending approvalId="
    ++ (approval_id ++ (codes " tool=" ++ (tool ++ (codes "] " ++ detail))))

pub record PendingApprovalSlot : Type 0 where
  pub agent_id : Text
  pub tool : Text
  pub summary : Text

-- `ApprovalState`. `sent` holds what was sent on the channel of a gate and not yet received.
pub record ApprovalState : Type 0 where
  pub mode : ToolApprovalMode
  pub pending : Dict PendingApprovalSlot
  pub inject : List ApprovalDecision
  pub sent : Dict ApprovalDecision

-- The first half of `await_tool_approval`: an outcome at once, or the id of a gate that waits.
pub data Gate : Type 0 where
  settled : GateOutcome → Gate
  waiting : Text → Gate

unfoldable pub outcome_of : ApprovalDecision → GateOutcome
outcome_of allow = allowed
outcome_of deny = denied

open_with :
    List ApprovalDecision → Text → PendingApprovalSlot → ApprovalState → Gate × ApprovalState
unfolding outcome_of
open_with (d ∷ ds) id slot s = (settled (outcome_of d), record s { inject = ds })
open_with [] id slot s = (waiting id, record s { pending = insert id slot s.pending })

gate_in : ToolApprovalMode → Text → PendingApprovalSlot → ApprovalState → Gate × ApprovalState
unfolding open_with
gate_in off id slot s = (settled allowed, s)
gate_in auto_deny id slot s = (settled auto_denied, s)
gate_in gate id slot s = open_with s.inject id slot s

-- `id` is the new `appr_<uuid>`
unfoldable pub open_gate : Text → PendingApprovalSlot → ApprovalState → Gate × ApprovalState
unfolding gate_in
open_gate id slot s = gate_in s.mode id slot s

submitted :
    Text
    → ApprovalDecision
    → Option PendingApprovalSlot
    → ApprovalState
    → Result Json × ApprovalState
unfolding decision_str
submitted id d none s =
    (err (rejected (codes "approval_closed") (some (codes "unknown_or_consumed"))), s)
submitted id d (some slot) s = (
  ok (
      object (
        ("ok", bool true)
        ∷ ("approvalId", str id)
        ∷ ("decision", str (decision_str d))
        ∷ ("tool", str slot.tool)
        ∷ ("agentId", str slot.agent_id)
        ∷ [])),
  record s { pending = remove id s.pending; sent = insert id d s.sent },
)

unfoldable pub submit_tool_approval :
    Text → ApprovalDecision → ApprovalState → Result Json × ApprovalState
unfolding submitted
submit_tool_approval id d s = submitted id d (get id s.pending) s

-- What wakes a gate: its channel, closed where nothing was sent, or the timer.
pub data Wake : Type 0 where
  channel timer : Wake

received : Option ApprovalDecision → GateOutcome
unfolding outcome_of
received none = denied
received (some d) = outcome_of d

woken : Wake → Text → ApprovalState → GateOutcome
unfolding received
woken channel id s = received (get id s.sent)
woken timer id s = timed_out

-- the second half of `await_tool_approval`
unfoldable pub close_gate : Wake → Text → ApprovalState → GateOutcome × ApprovalState
unfolding woken
close_gate w id s =
    (woken w id s, record s { pending = remove id s.pending; sent = remove id s.sent })

pub data CliToolGateClass : Type 0 where
  exempt gated observe_only : CliToolGateClass

abbrev pub cli_exempt : List Text
cli_exempt =
    codes "read"
    ∷ codes "readfile"
    ∷ codes "grep"
    ∷ codes "glob"
    ∷ codes "ls"
    ∷ codes "listdir"
    ∷ codes "semanticsearch"
    ∷ codes "websearch"
    ∷ codes "fetch"
    ∷ codes "webfetch"
    ∷ []

abbrev pub cli_gated : List Text
cli_gated =
    codes "shell"
    ∷ codes "bash"
    ∷ codes "run"
    ∷ codes "write"
    ∷ codes "writefile"
    ∷ codes "edit"
    ∷ codes "delete"
    ∷ codes "remove"
    ∷ codes "applypatch"
    ∷ codes "notebookedit"
    ∷ []

alphanumerics : Text → Text
alphanumerics [] = []
alphanumerics (c ∷ cs) =
    let rest = alphanumerics cs in if is_ascii_alphanumeric c then c ∷ rest else rest

unfoldable pub normalize_tool_token : Text → Text
unfolding alphanumerics
normalize_tool_token name = map lower (alphanumerics (trim name))

unfoldable pub cli_tool_is_writeish_mcp : Text → Text → Bool
unfolding after_first strip_prefix
cli_tool_is_writeish_mcp name summary =
    let blob = to_ascii_lowercase (name ++ codes " " ++ summary) in
    contains (codes "mcp") blob
    && any (λ k. contains k blob)
        (codes "write"
          ∷ codes "edit"
          ∷ codes "delete"
          ∷ codes "remove"
          ∷ codes "exec"
          ∷ codes "shell"
          ∷ codes "run"
          ∷ codes "patch"
          ∷ codes "create"
          ∷ codes "mkdir"
          ∷ codes "bash"
          ∷ codes "apply"
          ∷ [])

unfoldable pub classify_cli_tool : Text → Text → Text → CliToolGateClass
unfolding normalize_tool_token cli_tool_is_writeish_mcp
classify_cli_tool name summary status =
    let key = normalize_tool_token name in
    if text_eq (to_ascii_lowercase (trim status)) (codes "completed")
    then observe_only
    else if is_empty key
    then gated
    else if one_of key cli_exempt
    then exempt
    else if one_of key cli_gated
    then gated
    else if cli_tool_is_writeish_mcp name summary
    then gated
    else gated
