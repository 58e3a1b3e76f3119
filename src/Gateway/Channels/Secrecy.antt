-- ===== src/Gateway/Channels/Secrecy.antt =====
-- No reply of the channel commands depends on a stored token.
mod Tests
use mathlib.Core.Option
use mathlib.Core.Path.{ap₂}
use atlas_bot.Common.{
  Text, Option, none, some, List, [], ◌∷◌, ◌≡◌, refl, sym, ap, ◌∙◌, arith, Dict, get, insert,
}
use atlas_bot.Json.{Json}
use atlas_bot.Gateway.Types.{
  Result, ok, err, Gateway, Exec, ◌>>=◌, ◌>>◌, lift, modify, ChannelTokenEntry, ChannelStore,
}
use atlas_bot.Gateway.Groups.{sort}
use atlas_bot.Gateway.Channels.{
  stub_connected, connection_value, connection_values, connections, keys, sand_channels_view,
  store_token, known_agent, view_of, require_stub_platform, parse_channel_id,
  parse_channel_platform, parse_channel_token, connect_channel,
}

abbrev forget : ChannelTokenEntry → ChannelTokenEntry
forget e = record e { token = [] }

module _ {A B : Type 0} (f : A → B) where
  map_values : Dict A → Dict B
  map_values [] = []
  map_values ((k, v) ∷ m) = (k, f v) ∷ map_values m

  get-map_values : (k : Text) (m : Dict A) → get k (map_values m) ≡ Option.map f (get k m)
  unfolding get map_values
  get-map_values k [] = refl
  get-map_values k ((j, v) ∷ m) = ground (arith, get-map_values k m)

  insert-map_values :
      (k : Text) (v : A) (m : Dict A) → map_values (insert k v m) ≡ insert k (f v) (map_values m)
  unfolding insert map_values
  insert-map_values k v [] = refl
  insert-map_values k v ((j, w) ∷ m) = ground (arith, insert-map_values k v m)

  keys-map_values : (m : Dict A) → keys (map_values m) ≡ keys m
  unfolding map_values
  keys-map_values [] = refl
  keys-map_values ((k, v) ∷ m) = ap (λ ks. k ∷ ks) (keys-map_values m)

-- The store with every token blanked.
pub without_tokens : ChannelStore → ChannelStore
without_tokens store = map_values (map_values forget) store

connection_values-forget :
    (m : Dict ChannelTokenEntry) (ps : List Text)
    → connection_values (map_values forget m) ps ≡ connection_values m ps
unfolding connection_values connection_value
connection_values-forget m [] = refl
connection_values-forget m (p ∷ ps) =
    ground (arith, get-map_values forget p m, connection_values-forget m ps)

connections-forget :
    (o : Option (Dict ChannelTokenEntry))
    → connections (Option.map (map_values forget) o) ≡ connections o
unfolding connections
connections-forget none = refl
connections-forget (some m) =
    ap (λ ks. connection_values (map_values forget m) (sort ks)) (keys-map_values forget m)
    ∙ connection_values-forget m (sort (keys m))

view-without_tokens :
    (store : ChannelStore) (id : Text)
    → sand_channels_view (without_tokens store) id ≡ sand_channels_view store id
unfolding sand_channels_view without_tokens
view-without_tokens store id =
    rw (get-map_values (map_values forget) id store) (rw (connections-forget (get id store)))

-- The view of an agent's channels is the same over any two stores that differ in tokens alone.
pub view_hides_tokens :
    (first second : ChannelStore) (id : Text)
    → without_tokens first ≡ without_tokens second
    → sand_channels_view first id ≡ sand_channels_view second id
view_hides_tokens first second id h =
    sym (view-without_tokens first id)
    ∙ ap (λ store. sand_channels_view store id) h
    ∙ view-without_tokens second id

store_token-without_tokens :
    (id platform token : Text) (store : ChannelStore)
    → without_tokens (store_token id platform token store)
      ≡ without_tokens (store_token id platform [] store)
unfolding without_tokens store_token stub_connected
store_token-without_tokens id platform token store = simp insert-map_values

view-store_token :
    (id platform first second : Text) (store : ChannelStore)
    → sand_channels_view (store_token id platform first store) id
      ≡ sand_channels_view (store_token id platform second store) id
view-store_token id platform first second store = view_hides_tokens _ _ id (
    store_token-without_tokens id platform first store
    ∙ sym (store_token-without_tokens id platform second store))

-- the handler over its parsed arguments
connect_with : Result Text → Result Text → Result Text → Exec Json
connect_with ri rp rt = do
  id ← lift ri
  platform ← lift rp
  lift (require_stub_platform platform)
  token ← lift rt
  known_agent id
  modify
      (λ s. record s { channel_connections = store_token id platform token s.channel_connections })
  view_of id

connect_channel_lem :
    (args : Json)
    → connect_channel args
      ≡ connect_with
          (parse_channel_id args)
          (parse_channel_platform args)
          (parse_channel_token args)
unfolding connect_channel connect_with
connect_channel_lem args = refl

connect_with_reply :
    (ri rp : Result Text) (first second : Text) (s : Gateway)
    → (connect_with ri rp (ok first) s).0 ≡ (connect_with ri rp (ok second) s).0
unfolding connect_with ◌>>=◌ known_agent view_of
connect_with_reply (err e) rp first second s = refl
connect_with_reply (ok id) (err e) first second s = refl
connect_with_reply (ok id) (ok platform) first second s =
    ground (arith, view-store_token id platform first second s.channel_connections)

-- The reply to `connectChannel` is the same whatever token the arguments hold: two calls on one
-- state that agree on the agent and the platform, and both have a token, get the same answer.
pub connect_channel_hides_token :
    (a b : Json) (first second : Text) (s : Gateway)
    → parse_channel_id a ≡ parse_channel_id b
    → parse_channel_platform a ≡ parse_channel_platform b
    → parse_channel_token a ≡ ok first
    → parse_channel_token b ≡ ok second
    → (connect_channel a s).0 ≡ (connect_channel b s).0
connect_channel_hides_token a b first second s ei ep et ft =
    let reply = λ (ri rp rt : Result Text). (connect_with ri rp rt s).0 in
    let ia = parse_channel_id a in
    let pa = parse_channel_platform a in
    ap (λ m. (m s).0) (connect_channel_lem a)
    ∙ ap (λ r. reply ia pa r) et
    ∙ connect_with_reply ia pa first second s
    ∙ ap₂ (λ ri rp. reply ri rp (ok second)) ei ep
    ∙ ap (λ r. reply (parse_channel_id b) (parse_channel_platform b) r) (sym ft)
    ∙ ap (λ m. (m s).0) (sym (connect_channel_lem b))
