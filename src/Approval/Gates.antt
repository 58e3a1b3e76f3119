-- ===== src/Approval/Gates.antt =====
-- What a gate that waits answers.
use atlas_bot.Common.{
  Text, codes, text_eq, text_eq_iff, text_eq_refl, Option, none, some, List, [], ◌∷◌, ◌≡◌, refl,
  ◌∙◌, ap, arith, get, insert, get-insert, get-remove, get-insert_self, Bool-cases, inl, inr,
  if◌then◌else◌,
}
use atlas_bot.Gateway.Types.{err, rejected, GatewayError}
use atlas_bot.Approval.{
  ToolApprovalMode, auto_deny, settled, gate, off, auto_denied, gate, ApprovalDecision, GateOutcome,
  denied, timed_out, PendingApprovalSlot, ApprovalState, waiting, outcome_of, open_with, gate_in,
  open_gate, submitted, submit_tool_approval, channel, timer, received, woken, close_gate,
}

-- any decisions, each for an approval id
unfoldable pub submit_all : List (Text × ApprovalDecision) → ApprovalState → ApprovalState
submit_all [] s = s
submit_all ((id, d) ∷ ds) s = submit_all ds (submit_tool_approval id d s).1

-- the first of them for an id
unfoldable pub first_for : Text → List (Text × ApprovalDecision) → Option ApprovalDecision
first_for id [] = none
first_for id ((j, d) ∷ ds) = if text_eq j id then some d else first_for id ds

pub answer_to : Option ApprovalDecision → GateOutcome
answer_to none = denied
answer_to (some d) = outcome_of d

-- Whether a gate is still open, and what was sent to it.
module _ (id : Text) where
  submitted-lem :
      (o : Option PendingApprovalSlot) (j : Text) (d : ApprovalDecision) (s : ApprovalState)
      → get j s.pending ≡ o
      → (get id (submitted j d o s).1.pending ≡ (if text_eq j id then none else get id s.pending))
        × (get id (submitted j d o s).1.sent ≡ (elim o as (λ _. Option ApprovalDecision) [
          | none ↦ get id s.sent
          | some _ ↦ if text_eq j id then some d else get id s.sent
        ]))
  unfolding submitted
  submitted-lem none j d s e = (ground (arith, e, text_eq_iff j id), refl)
  submitted-lem (some slot) j d s e =
      (ground (arith, get-remove j id s.pending), ground (arith, get-insert j id d s.sent))

  submit-pending :
      (j : Text) (d : ApprovalDecision) (s : ApprovalState)
      → get id (submit_tool_approval j d s).1.pending
        ≡ (if text_eq j id then none else get id s.pending)
  unfolding submit_tool_approval
  submit-pending j d s = (submitted-lem (get j s.pending) j d s refl).0

  submit-sent_closed :
      (j : Text) (d : ApprovalDecision) (s : ApprovalState)
      → get id s.pending ≡ none
      → get id (submit_tool_approval j d s).1.sent ≡ get id s.sent
  unfolding submit_tool_approval
  submit-sent_closed j d s shut =
      let sent = (submitted-lem (get j s.pending) j d s refl).1 in
      ground (arith, sent, shut, text_eq_iff j id)

  submit-sent_open :
      (j : Text) (d : ApprovalDecision) (s : ApprovalState) (slot : PendingApprovalSlot)
      → get id s.pending ≡ some slot
      → get id (submit_tool_approval j d s).1.sent
        ≡ (if text_eq j id then some d else get id s.sent)
  unfolding submit_tool_approval
  submit-sent_open j d s slot held =
      let sent = (submitted-lem (get j s.pending) j d s refl).1 in
      ground (arith, sent, held, text_eq_iff j id)

  submit_all-closed :
      (ds : List (Text × ApprovalDecision)) (s : ApprovalState)
      → get id s.pending ≡ none
      → get id (submit_all ds s).sent ≡ get id s.sent
  unfolding submit_all
  submit_all-closed [] s shut = refl
  submit_all-closed ((j, d) ∷ ds) s shut =
      submit_all-closed ds (submit_tool_approval j d s).1
        (ground (arith, submit-pending j d s, shut))
      ∙ submit-sent_closed j d s shut

  submit_all-open :
      (ds : List (Text × ApprovalDecision)) (s : ApprovalState) (slot : PendingApprovalSlot)
      → get id s.pending ≡ some slot
      → get id s.sent ≡ none
      → get id (submit_all ds s).sent ≡ first_for id ds
  unfolding submit_all first_for
  submit_all-open [] s slot held unsent = unsent
  submit_all-open ((j, d) ∷ ds) s slot held unsent =
      let s' = (submit_tool_approval j d s).1 in
      let pending = submit-pending j d s in
      let sent = submit-sent_open j d s slot held in
      elim (Bool-cases (text_eq j id)) [
        | inl same ↦
            let shut : get id s'.pending ≡ none = ground (arith, pending, same) in
            let told : get id s'.sent ≡ some d = ground (arith, sent, same) in
            rw same (submit_all-closed ds s' shut ∙ told)
        | inr other ↦
            let still : get id s'.pending ≡ some slot = ground (arith, pending, other, held) in
            let none_yet : get id s'.sent ≡ none = ground (arith, sent, other, unsent) in
            rw other (submit_all-open ds s' slot still none_yet)
      ]

  opened_lem :
      (slot : PendingApprovalSlot) (s : ApprovalState)
      → s.mode ≡ gate
      → s.inject ≡ []
      → open_gate id slot s ≡ (waiting id, record s { pending = insert id slot s.pending })
  unfolding open_gate gate_in open_with
  opened_lem slot s mode none_injected = rw (mode, none_injected) refl

  received-answer_to : (o : Option ApprovalDecision) → received o ≡ answer_to o
  unfolding received answer_to
  received-answer_to none = refl
  received-answer_to (some d) = refl

  close_gate-channel : (s : ApprovalState) → (close_gate channel id s).0 ≡ answer_to (get id s.sent)
  unfolding close_gate woken
  close_gate-channel s = received-answer_to (get id s.sent)

  close_gate-timer : (s : ApprovalState) → (close_gate timer id s).0 ≡ timed_out
  unfolding close_gate woken
  close_gate-timer s = refl

  -- Open a gate under a new id, in gate mode and with no injected decision, and let any decisions be
  -- submitted for any ids. The gate waits; its channel then answers by the first decision that was
  -- submitted for it, and denies where there is none; the timer answers with a timeout. So a gate is
  -- never allowed but by a submitted `allow` that came first.
  pub close_gate-open_gate :
      (slot : PendingApprovalSlot) (s : ApprovalState) (ds : List (Text × ApprovalDecision))
      → s.mode ≡ gate
      → s.inject ≡ []
      → get id s.sent ≡ none
      → (let opened = open_gate id slot s in
          let s' = submit_all ds opened.1 in
          (opened.0 ≡ waiting id)
          × ((close_gate channel id s').0 ≡ answer_to (first_for id ds))
          × ((close_gate timer id s').0 ≡ timed_out))
  close_gate-open_gate slot s ds mode none_injected unsent =
      let opened = opened_lem slot s mode none_injected in
      (
        ap (λ r. r.0) opened,
        ap (λ r. (close_gate channel id (submit_all ds r.1)).0) opened
            ∙ close_gate-channel (submit_all ds (record s { pending = insert id slot s.pending }))
            ∙ ap answer_to (
                submit_all-open ds (record s { pending = insert id slot s.pending }) slot
                  (get-insert_self id slot s.pending) unsent),
        close_gate-timer _,
      )

abbrev pub closed : GatewayError
closed = rejected (codes "approval_closed") (some (codes "unknown_or_consumed"))

submit_closed :
    (id : Text) (d : ApprovalDecision) (s : ApprovalState)
    → get id s.pending ≡ none
    → submit_tool_approval id d s ≡ (err closed, s)
unfolding submit_tool_approval submitted
submit_closed id d s shut = rw shut refl

-- A decision that is taken for a gate closes it: any further one for that id is refused, and changes
-- nothing.
pub submit_tool_approval-submit_tool_approval :
    (id : Text) (first second : ApprovalDecision) (s : ApprovalState)
    → (let s' = (submit_tool_approval id first s).1 in
        submit_tool_approval id second s' ≡ (err closed, s'))
submit_tool_approval-submit_tool_approval id first second s =
    let shut : get id (submit_tool_approval id first s).1.pending ≡ none =
      ground (arith, submit-pending id id first s, text_eq_refl id) in
    submit_closed id second (submit_tool_approval id first s).1 shut

open_gate_mode :
    (mode : ToolApprovalMode) (id : Text) (slot : PendingApprovalSlot) (a : ApprovalState)
    → a.mode ≡ mode
    → mode ≡ auto_deny
    → open_gate id slot a ≡ (settled auto_denied, a)
unfolding open_gate
open_gate_mode auto_deny id slot a e h = rw e refl
open_gate_mode gate id slot a e h = cc
open_gate_mode off id slot a e h = cc

-- Where approvals are denied automatically, no gate waits.
pub open_gate-auto_deny :
    (id : Text) (slot : PendingApprovalSlot) (a : ApprovalState)
    → a.mode ≡ auto_deny
    → open_gate id slot a ≡ (settled auto_denied, a)
open_gate-auto_deny id slot a h = open_gate_mode a.mode id slot a refl h
