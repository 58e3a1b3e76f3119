-- ===== src/Approval/Tests.antt =====
-- Approvals at concrete inputs.
use atlas_bot.Common.{
  codes, text_eq, none, [], ◌∷◌, ◌≡◌, refl, if◌then◌else◌, trim, to_ascii_lowercase, get,
}
use atlas_bot.Gateway.Types.{err}
use atlas_bot.Approval.{
  gate, allow, deny, timed_out, PendingApprovalSlot, ApprovalState, waiting, open_gate,
  submit_tool_approval, channel, timer, close_gate, exempt, gated, observe_only, one_of, cli_exempt,
  normalize_tool_token, classify_cli_tool,
}
use atlas_bot.Approval.Gates.{
  submit_all, first_for, answer_to, closed, close_gate-open_gate,
  submit_tool_approval-submit_tool_approval,
}
use atlas_bot.Approval.Classes.{classify_cli_tool_lem}

abbrev slot : PendingApprovalSlot
slot = record { agent_id = codes "agt_1"; tool = codes "shell"; summary = codes "ls" }

abbrev quiet : ApprovalState
quiet = record { mode = gate; pending = []; inject = []; sent = [] }

unsent : get (codes "appr_1") quiet.sent ≡ none
unfolding get
unsent = refl

close_gate-open_gate_example :
    (let opened = open_gate (codes "appr_1") slot quiet in
      let s' = submit_all ((codes "appr_1", deny) ∷ (codes "appr_1", allow) ∷ []) opened.1 in
      (opened.0 ≡ waiting (codes "appr_1"))
      × ((close_gate channel (codes "appr_1") s').0
          ≡ answer_to
              (first_for (codes "appr_1") ((codes "appr_1", deny) ∷ (codes "appr_1", allow) ∷ [])))
      × ((close_gate timer (codes "appr_1") s').0 ≡ timed_out))
close_gate-open_gate_example =
    close_gate-open_gate (codes "appr_1") slot quiet
      ((codes "appr_1", deny) ∷ (codes "appr_1", allow) ∷ []) refl refl unsent

submit_tool_approval-submit_tool_approval_example :
    (let s' =
        (submit_tool_approval (codes "appr_1") deny (open_gate (codes "appr_1") slot quiet).1).1 in
      submit_tool_approval (codes "appr_1") allow s' ≡ (err closed, s'))
submit_tool_approval-submit_tool_approval_example =
    submit_tool_approval-submit_tool_approval (codes "appr_1") deny allow
      (open_gate (codes "appr_1") slot quiet).1

classify_cli_tool_lem_example :
    classify_cli_tool (codes "Read_File") (codes "a") (codes "started") ≡ (
      if text_eq (to_ascii_lowercase (trim (codes "started"))) (codes "completed")
      then observe_only
      else if one_of (normalize_tool_token (codes "Read_File")) cli_exempt
      then exempt
      else gated)
classify_cli_tool_lem_example =
    classify_cli_tool_lem (codes "Read_File") (codes "a") (codes "started")
