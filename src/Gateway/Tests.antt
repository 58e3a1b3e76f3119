-- ===== src/Gateway/Tests.antt =====
-- The gateway's theorems at concrete inputs.
use atlas_bot.Common.{
  ℕ, ◌+◌, ◌≤◌, Text, codes, text_eq, text_lt, true, false, none, some, [], ◌∷◌, inl, inr, ◌≡◌, ◌↔◌,
  refl, arith, get, Bool-cases, some_inj, max_u64, trim, All,
}
use atlas_bot.Json.{Json, str, object, array, get_str, get_array, nonempty, get_key, items}
use atlas_bot.Gateway.Types.{
  ok, err, GatewayConfig, stub, disk, Host, Gateway, AgentRecord, with_config, default_agent_id,
}
use atlas_bot.Gateway.Groups.{dedup, sort, validate_group_members, parse_member_agent_ids}
use atlas_bot.Gateway.Groups.Members.{
  IsMember, IsParsed, validate_group_members_iff, parse_member_agent_ids-IsParsed,
}
use atlas_bot.Gateway.Turns.{send_prompt, finish_turn}
use atlas_bot.Gateway.Turns.Runs.{accepted, busy, Runs, send_prompt-send_prompt}
use atlas_bot.Gateway.Dispatch.{invoke}
use atlas_bot.Gateway.Invariant.{IsValid}
use atlas_bot.Gateway.Invariant.Agents.{HasRoom}
use atlas_bot.Gateway.Invariant.Commands.{invoke-IsValid}
use atlas_bot.Gateway.Invariant.Runs.{here, next, command, reached-IsValid}

abbrev config : GatewayConfig
config = record {
  turn_delay = 50;
  vnc_mode = stub;
  attach_mode = disk;
  attach_root = codes "/attach";
  upload_root = codes "/upload";
  attach_ttl = 1000;
}

abbrev host : Host
host = record {
  now = 5000;
  uuid = codes "u1";
  mkdir_error = none;
  write_error = none;
  meta_error = none;
  left = λ o. none;
  can_remove = λ _. true;
  meta_at = λ path. none;
  json_bytes = λ _. 100;
  base64_decode = λ _. inr (104 ∷ 105 ∷ []);
  decode_meta = λ bytes. none;
}

abbrev fresh : Gateway
fresh = with_config config (λ _. true) []

abbrev prompt_args : Json
prompt_args = object (("prompt", str (codes "hi")) ∷ [])

seed_counter : (k : Text) (n : ℕ) → get k fresh.next_entry_seq ≡ some n → n + 2 ≤ max_u64
unfolding with_config get
seed_counter k n h = elim (Bool-cases (text_eq default_agent_id k)) [
  | inl e ↦ let two : 2 ≡ n = some_inj (rw e at h) in omega arith
  | inr e ↦ absurd (cc (rw e at h))
]

fresh-HasRoom : HasRoom fresh
unfolding with_config
fresh-HasRoom = record { agents = omega arith; entries = λ k n h. seed_counter k n h }

after_prompt : Gateway
after_prompt = (invoke host default_agent_id (codes "sendPrompt") prompt_args fresh).1

reached-IsValid_example : IsValid after_prompt
unfolding after_prompt
reached-IsValid_example =
    reached-IsValid config (λ _. true) []
      (invoke host default_agent_id (codes "sendPrompt") prompt_args fresh).1
      (next here
        (command host default_agent_id (codes "sendPrompt") prompt_args fresh fresh-HasRoom))

fresh-IsValid : IsValid fresh
fresh-IsValid = reached-IsValid config (λ _. true) [] fresh here

invoke-IsValid_example :
    IsValid
      (invoke host default_agent_id
        (codes "createAgent")
        (object (("name", str (codes "Ann")) ∷ []))
        fresh).1
invoke-IsValid_example =
    invoke-IsValid host default_agent_id (codes "createAgent")
      (object (("name", str (codes "Ann")) ∷ [])) fresh fresh-IsValid fresh-HasRoom

validate_group_members_iff_example :
    (validate_group_members fresh.agents (default_agent_id ∷ []) ≡ ok tt)
    ↔ All (IsMember fresh.agents) (default_agent_id ∷ [])
validate_group_members_iff_example = validate_group_members_iff fresh.agents (default_agent_id ∷ [])

abbrev member_args : Json
member_args = object (
    (
      "memberAgentIds",
      array (str (codes " agt_2") ∷ str (codes "agt_1") ∷ str (codes "agt_2") ∷ []),
    )
    ∷ [])

two_members : parse_member_agent_ids member_args ≡ ok (codes "agt_1" ∷ codes "agt_2" ∷ [])
unfolding parse_member_agent_ids get_array get_key nonempty trim codes text_lt text_eq items dedup
    sort
two_members = refl

parse_member_agent_ids-IsParsed_example : IsParsed member_args (codes "agt_1" ∷ codes "agt_2" ∷ [])
parse_member_agent_ids-IsParsed_example =
    parse_member_agent_ids-IsParsed member_args (codes "agt_1" ∷ codes "agt_2" ∷ []) two_members

prompted : get_str "prompt" prompt_args ≡ some (codes "hi")
unfolding get_str get_key
prompted = refl

abbrev watcher : AgentRecord
watcher = record {
  id = default_agent_id;
  name = codes "Watcher";
  description = codes "P3 stub agent";
  is_running = false;
  created_at = 1700000000000;
  is_group = false;
  member_ids = [];
}

idle : Runs default_agent_id false fresh
unfolding with_config get text_eq codes
idle = (watcher, refl, refl)

send_prompt-send_prompt_example :
    ((send_prompt default_agent_id prompt_args fresh).0 ≡ accepted default_agent_id)
    × (send_prompt default_agent_id prompt_args (send_prompt default_agent_id prompt_args fresh).1
        ≡ (err busy, (send_prompt default_agent_id prompt_args fresh).1))
    × ((send_prompt default_agent_id prompt_args
          (finish_turn default_agent_id
            (codes "hi")
            (send_prompt default_agent_id prompt_args fresh).1).1).0
        ≡ accepted default_agent_id)
send_prompt-send_prompt_example =
    send_prompt-send_prompt default_agent_id prompt_args prompt_args (codes "hi") (codes "hi") fresh
      prompted prompted idle

abbrev running : Gateway
running = record fresh { agents = (default_agent_id, record watcher { is_running = true }) ∷ [] }
