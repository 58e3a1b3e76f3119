-- ===== src/Gateway/Channels/Tests.antt =====
-- Channel connections at concrete inputs.
use mathlib.Core.Option
use atlas_bot.Common.{Text, codes, text_eq, none, some, [], ◌∷◌, ◌≡◌}
use atlas_bot.Gateway.Types.{ChannelStore}
use atlas_bot.Gateway.Channels.{
  stub_connected, store_token, forget_token, refresh_stub, refresh_token,
}
use atlas_bot.Gateway.Channels.Connections.{entry_of, entries_after}

abbrev connected_with : Text → ChannelStore
connected_with token = (codes "agt_1", (codes "slack", stub_connected token) ∷ []) ∷ []

entries_after_example :
    (entry_of
        (codes "agt_1")
        (codes "slack")
        (store_token (codes "agt_1") (codes "slack") (codes "two") (connected_with (codes "one")))
      ≡ some (stub_connected (codes "two")))
    × (entry_of
          (codes "agt_1")
          (codes "slack")
          (forget_token (codes "agt_1") (codes "slack") (connected_with (codes "one")))
        ≡ none)
    × (entry_of
          (codes "agt_1")
          (codes "slack")
          (refresh_token (codes "agt_1") (codes "slack") (connected_with (codes "one")))
        ≡ Option.map refresh_stub
            (entry_of (codes "agt_1") (codes "slack") (connected_with (codes "one"))))
unfolding text_eq codes
entries_after_example =
    entries_after (codes "agt_1") (codes "slack") (codes "two") (connected_with (codes "one"))
      (codes "agt_1") (codes "slack")
