-- ===== src/Gateway/Invariant/Agents.antt =====
-- The commands on agents, groups, channels and transcripts keep the invariant.
use atlas_bot.Common.{ℕ, ◌+◌, ◌≤◌, ◌<◌, Text, some, ◌≡◌, refl, get, max_u64}
use atlas_bot.Json.{Json}
use atlas_bot.Gateway.Types.{
  ok_or-eq-ok, Gateway, Host, Ends, Ends-pure, Ends-return, Ends-get, Ends-lift, Ends-read,
  Ends-modify, Ends-ensure, Ends-bind, Ends-check,
}
use atlas_bot.Gateway.Groups.{list_agents, create_agent, create_group, set_group_members}
use atlas_bot.Gateway.Groups.Members.{validate_group_members_iff}
use atlas_bot.Gateway.Channels.{
  known_agent, view_of, get_agent_channels, connect_channel, disconnect_channel, refresh_channel,
}
use atlas_bot.Gateway.Tail.{get_transcript_tail}
use atlas_bot.Gateway.Invariant.{IsValid, AllOk-write, AllOk-add}

-- No counter is about to wrap around.
pub record HasRoom (s : Gateway) : Type 0 where
  pub agents : s.next_agent_n < max_u64
  pub entries : (k : Text) (n : ℕ) → get k s.next_entry_seq ≡ some n → n + 2 ≤ max_u64

module _ (s : Gateway) (v : IsValid s) (room : HasRoom s) where
  pub create_agent-IsValid : (host : Host) (args : Json) → Ends IsValid (create_agent host args) s
  unfolding create_agent
  create_agent-IsValid host args =
      Ends-lift _ _ s v λ name _. record {
        at = record { all_ok = AllOk-add v.all_ok _ _ room.agents refl tt refl };
      }

  pub create_group-IsValid : (host : Host) (args : Json) → Ends IsValid (create_group host args) s
  unfolding create_group
  create_group-IsValid host args = Ends-lift _ _ s v λ name _. Ends-lift _ _ s v λ ids _.
      Ends-read _ _ s (
        Ends-lift _ _ s v λ u valid. record {
          at = record {
            all_ok =
                AllOk-add v.all_ok _ _ room.agents refl
                  ((validate_group_members_iff s.agents ids).0 valid) refl;
          };
        })

  pub set_group_members-IsValid : (args : Json) → Ends IsValid (set_group_members args) s
  unfolding set_group_members
  set_group_members-IsValid args = Ends-lift _ _ s v λ id _. Ends-lift _ _ s v λ ids _.
      Ends-read _ _ s (
        Ends-lift _ _ s v λ a found. Ends-ensure _ _ _ s v λ group. Ends-lift _ _ s v λ u valid.
          record {
            at = record {
              all_ok =
                  AllOk-write v.all_ok id a _ (ok_or-eq-ok _ _ found) refl refl
                    ((validate_group_members_iff s.agents ids).0 valid);
            };
          })

-- The handlers that do not touch what the invariant reads.
module _ (s : Gateway) (v : IsValid s) where
  pub list_agents-IsValid : Ends IsValid list_agents s
  unfolding list_agents
  list_agents-IsValid = Ends-read _ _ s (Ends-return _ s v)

  pub get_transcript_tail-IsValid :
      (id : Text) (args : Json) → Ends IsValid (get_transcript_tail id args) s
  unfolding get_transcript_tail
  get_transcript_tail-IsValid id args =
      Ends-read _ _ s (Ends-ensure _ _ _ s v λ _. Ends-read _ _ s (Ends-pure _ s v))

  pub known_agent-IsValid : (id : Text) → Ends IsValid (known_agent id) s
  unfolding known_agent
  known_agent-IsValid id = Ends-read _ _ s (Ends-check _ _ s v)

  pub view_of-IsValid : (id : Text) → Ends IsValid (view_of id) s
  unfolding view_of
  view_of-IsValid id = Ends-get _ s v

module _ (s : Gateway) (v : IsValid s) where
  pub get_agent_channels-IsValid : (args : Json) → Ends IsValid (get_agent_channels args) s
  unfolding get_agent_channels
  get_agent_channels-IsValid args =
      Ends-lift _ _ s v
        λ id _. Ends-bind _ _ s (known_agent-IsValid s v id) λ _ t w. view_of-IsValid t w id

  pub connect_channel-IsValid : (args : Json) → Ends IsValid (connect_channel args) s
  unfolding connect_channel
  connect_channel-IsValid args = Ends-lift _ _ s v λ id _. Ends-lift _ _ s v λ platform _.
      Ends-lift _ _ s v λ _ _. Ends-lift _ _ s v λ token _.
        Ends-bind _ _ s (known_agent-IsValid s v id)
          λ _ t w. Ends-modify _ _ t (view_of-IsValid _ (record { all_ok = w.all_ok }) id)

  pub disconnect_channel-IsValid : (args : Json) → Ends IsValid (disconnect_channel args) s
  unfolding disconnect_channel
  disconnect_channel-IsValid args = Ends-lift _ _ s v λ id _. Ends-lift _ _ s v λ platform _.
      Ends-lift _ _ s v λ _ _.
        Ends-bind _ _ s (known_agent-IsValid s v id)
          λ _ t w. Ends-modify _ _ t (view_of-IsValid _ (record { all_ok = w.all_ok }) id)

  pub refresh_channel-IsValid : (args : Json) → Ends IsValid (refresh_channel args) s
  unfolding refresh_channel
  refresh_channel-IsValid args = Ends-lift _ _ s v λ id _. Ends-lift _ _ s v λ platform _.
      Ends-lift _ _ s v λ _ _.
        Ends-bind _ _ s (known_agent-IsValid s v id)
          λ _ t w. Ends-modify _ _ t (view_of-IsValid _ (record { all_ok = w.all_ok }) id)
