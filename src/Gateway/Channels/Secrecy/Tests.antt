-- ===== src/Gateway/Channels/Secrecy/Tests.antt =====
-- Tokens at concrete inputs.
use atlas_bot.Common.{true, Text, codes, [], ◌∷◌, ◌≡◌, refl, trim, text_eq, get, insert}
use atlas_bot.Json.{Json, str, object, get_str, get_nonempty, nonempty, get_key}
use atlas_bot.Gateway.Types.{◌>>=◌, ok, stub, memory, Gateway, with_config, ChannelStore}
use atlas_bot.Gateway.Channels.{
  stub_connected, sand_channels_view, parse_channel_id, parse_channel_platform, parse_channel_token,
  connect_channel, require_stub_platform, known_agent, view_of, store_token,
}
use atlas_bot.Gateway.Channels.Secrecy.{
  map_values, without_tokens, view_hides_tokens, connect_channel_hides_token,
}

abbrev store_with : Text → ChannelStore
store_with token = (codes "agt_1", (codes "slack", stub_connected token) ∷ []) ∷ []

same_but_tokens :
    without_tokens (store_with (codes "one")) ≡ without_tokens (store_with (codes "two"))
unfolding without_tokens map_values stub_connected
same_but_tokens = refl

view_hides_tokens_example :
    sand_channels_view (store_with (codes "one")) (codes "agt_1")
    ≡ sand_channels_view (store_with (codes "two")) (codes "agt_1")
view_hides_tokens_example =
    view_hides_tokens (store_with (codes "one")) (store_with (codes "two")) (codes "agt_1")
      same_but_tokens

abbrev connect_args : Text → Json
connect_args token =
    object
      (("id", str (codes "agt_1")) ∷ ("platform", str (codes "slack")) ∷ ("token", str token) ∷ [])

abbrev channel_gateway : Gateway
channel_gateway =
    with_config
      (record {
        turn_delay = 50;
        vnc_mode = stub;
        attach_mode = memory;
        attach_root = codes "/attach";
        upload_root = codes "/upload";
        attach_ttl = 1000;
      })
      (λ _. true) []

first_token : parse_channel_token (connect_args (codes "one")) ≡ ok (codes "one")
unfolding parse_channel_token get_nonempty get_str nonempty get_key trim codes
first_token = refl

second_token : parse_channel_token (connect_args (codes "two")) ≡ ok (codes "two")
unfolding parse_channel_token get_nonempty get_str nonempty get_key trim codes
second_token = refl

same_id :
    parse_channel_id (connect_args (codes "one")) ≡ parse_channel_id (connect_args (codes "two"))
unfolding parse_channel_id get_nonempty get_str nonempty get_key
same_id = refl

id_given : parse_channel_id (connect_args (codes "one")) ≡ ok (codes "agt_1")
unfolding parse_channel_id get_nonempty get_str nonempty get_key trim codes
id_given = refl

platform_given : parse_channel_platform (connect_args (codes "one")) ≡ ok (codes "slack")
unfolding parse_channel_platform get_nonempty get_str nonempty get_key trim codes
platform_given = refl

-- The first call stores its token and answers with the view that shows the connection.
connects :
    (connect_channel (connect_args (codes "one")) channel_gateway).0
    ≡ ok (sand_channels_view (store_with (codes "one")) (codes "agt_1"))
unfolding connect_channel ◌>>=◌ parse_channel_id get_nonempty trim codes parse_channel_platform
    require_stub_platform text_eq parse_channel_token known_agent get with_config view_of
    store_token insert
connects = refl

same_platform :
    parse_channel_platform (connect_args (codes "one"))
    ≡ parse_channel_platform (connect_args (codes "two"))
unfolding parse_channel_platform get_nonempty get_str nonempty get_key
same_platform = refl

connect_channel_hides_token_example :
    (connect_channel (connect_args (codes "one")) channel_gateway).0
    ≡ (connect_channel (connect_args (codes "two")) channel_gateway).0
connect_channel_hides_token_example =
    connect_channel_hides_token (connect_args (codes "one")) (connect_args (codes "two"))
      (codes "one") (codes "two") channel_gateway same_id same_platform first_token second_token
