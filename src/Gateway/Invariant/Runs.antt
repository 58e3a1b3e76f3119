-- ===== src/Gateway/Invariant/Runs.antt =====
-- The gateway as a system of commands and spawned turns: what holds in every state that it reaches.
-- Handlers run one at a time here; the turns that `send_prompt` spawns end in any order, each at any
-- later time.
use atlas_bot.Common.{
  Bool, ◌<◌, Text, codes, some, List, ◌∷◌, ◌++◌, ◌≡◌, ◌≢◌, refl, arith, Dict, get, text_eq,
  text_eq_iff, show, some_inj, Bool-cases, inl, inr,
}
use mathlib.Core.Path.{subst}
use atlas_bot.Json.{Json}
use atlas_bot.Gateway.Types.{
  Task, Gateway, GatewayConfig, UploadMeta, Host, with_config, agent_id, default_agent_id,
  AgentRecord,
}
use atlas_bot.Gateway.Turns.{finish_turn}
use atlas_bot.Gateway.Dispatch.{invoke}
use atlas_bot.Gateway.Invariant.{IsValid, AgentOk}
use atlas_bot.Gateway.Invariant.Agents.{HasRoom}
use atlas_bot.Gateway.Invariant.Commands.{invoke-IsValid}
use atlas_bot.Gateway.Invariant.Running.{finish_turn-IsValid}

-- A command arrives; the sleep of a spawned turn ends and it finishes; or a turn with a delay sees
-- that its cancel channel is gone from the agent's slot and returns.
pub data Step : Gateway → Gateway → Type 0 where
  command :
      (host : Host) (id name : Text) (args : Json) (s : Gateway)
      → HasRoom s
      → Step s (invoke host id name args s).1
  elapse :
      (before after : List Task) (t : Task) (s : Gateway)
      → HasRoom s
      → s.tasks ≡ before ++ t ∷ after
      → Step s (finish_turn t.agent_id t.prompt (record s { tasks = before ++ after })).1
  cancel :
      (before after : List Task) (t : Task) (s : Gateway)
      → s.tasks ≡ before ++ t ∷ after
      → 0 < t.delay
      → get t.agent_id s.pending ≢ some t.turn
      → Step s (record s { tasks = before ++ after })

pub data Reach (s : Gateway) : Gateway → Type 0 where
  here : Reach s s
  next : {t u : Gateway} → Reach s t → Step t u → Reach s u

Step-IsValid : {s t : Gateway} → Step s t → IsValid s → IsValid t
Step-IsValid (command host id name args s room) v = invoke-IsValid host id name args s v room
Step-IsValid (elapse before after t s room e) v =
    (finish_turn-IsValid _ (record { all_ok = v.all_ok })
      (record { agents = room.agents; entries = room.entries }) t.agent_id t.prompt).at
Step-IsValid (cancel before after t s e p q) v = record { all_ok = v.all_ok }

Reach-IsValid : {s t : Gateway} → Reach s t → IsValid s → IsValid t
Reach-IsValid here v = v
Reach-IsValid (next r st) v = Step-IsValid st (Reach-IsValid r v)

module _ (cfg : GatewayConfig) (can_read : Text → Bool) (files : Dict UploadMeta) where
  abbrev Ok : Text → AgentRecord → Type 0
  Ok =
      let s = with_config cfg can_read files in
      AgentOk s.agents s.transcripts s.next_entry_seq s.next_agent_n

  seed-AgentOk :
      (a : AgentRecord)
      → get default_agent_id (with_config cfg can_read files).agents ≡ some a
      → Ok default_agent_id a
  unfolding with_config agent_id codes show get text_eq
  seed-AgentOk a found =
      subst (λ c. Ok default_agent_id c) (some_inj found)
        (record {
          named = refl;
          n = 1;
          numbered = refl;
          handed_out = omega arith;
          members = tt;
          entries = _;
          kept = refl;
          next = _;
          counted = refl;
          rises = omega arith;
        })

  only_seed :
      (k : Text) (a : AgentRecord)
      → get k (with_config cfg can_read files).agents ≡ some a
      → default_agent_id ≡ k
  unfolding with_config get
  only_seed k a found = elim (Bool-cases (text_eq default_agent_id k)) [
    | inl e ↦ (text_eq_iff _ k).0 e
    | inr e ↦ absurd (cc (rw e at found))
  ]

  with_config-IsValid : IsValid (with_config cfg can_read files)
  with_config-IsValid = record {
    all_ok = λ k a found.
        let e = only_seed k a found in subst (λ i. Ok i a) e (seed-AgentOk a (rw e found));
  }

-- In every state that a new gateway reaches, by commands and turns in any order, each agent is
-- stored under its own id, an `agt_N` with N below the counter; the members of a group are agents and
-- no groups; and the sequence numbers of its transcript rise strictly from 1 and stay below its
-- counter.
pub reached-IsValid :
    (cfg : GatewayConfig) (can_read : Text → Bool) (files : Dict UploadMeta) (s : Gateway)
    → Reach (with_config cfg can_read files) s
    → IsValid s
reached-IsValid cfg can_read files s r = Reach-IsValid r (with_config-IsValid cfg can_read files)
