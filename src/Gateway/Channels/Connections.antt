-- ===== src/Gateway/Channels/Connections.antt =====
-- What connecting, refreshing and disconnecting a channel leave in the store.
use mathlib.Core.Option
use atlas_bot.Common.{
  Text, text_eq, Option, none, some, [], ◌∷◌, ◌≡◌, refl, arith, Dict, get, insert, remove,
  text_eq_iff, get-insert, get-remove, if◌then◌else◌, unwrap_or,
}
use atlas_bot.Gateway.Types.{ChannelTokenEntry, ChannelStore}
use atlas_bot.Gateway.Channels.{
  stub_connected, store_token, forget_token, put_nonempty, forget_in, refresh_entry, refresh_in,
  refresh_stub, refresh_token,
}

-- the entry of a platform of an agent
pub entry_of : Text → Text → ChannelStore → Option ChannelTokenEntry
entry_of id platform store = get platform (unwrap_or (get id store) [])

entry_of-store_token :
    (id platform token : Text) (store : ChannelStore) (j q : Text)
    → entry_of j q (store_token id platform token store) ≡ (
        if text_eq id j
        then (if text_eq platform q then some (stub_connected token) else entry_of j q store)
        else entry_of j q store)
unfolding entry_of store_token
entry_of-store_token id platform token store j q =
    let inner = unwrap_or (get id store) [] in
    ground (
      arith,
      get-insert id j (insert platform (stub_connected token) inner) store,
      get-insert platform q (stub_connected token) inner,
      text_eq_iff id j,
    )

entry_of-put_nonempty :
    (id : Text) (m : Dict ChannelTokenEntry) (store : ChannelStore) (j q : Text)
    → entry_of j q (put_nonempty id m store)
      ≡ (if text_eq id j then get q m else entry_of j q store)
unfolding entry_of put_nonempty get
entry_of-put_nonempty id [] store j q = ground (arith, get-remove id j store)
entry_of-put_nonempty id (r ∷ m) store j q = ground (arith, get-insert id j (r ∷ m) store)

entry_of-forget_in :
    (o : Option (Dict ChannelTokenEntry)) (id platform : Text) (store : ChannelStore) (j q : Text)
    → get id store ≡ o
    → entry_of j q (forget_in id platform o store) ≡ (
        if text_eq id j
        then (if text_eq platform q then none else entry_of j q store)
        else entry_of j q store)
unfolding forget_in entry_of get
entry_of-forget_in none id platform store j q e = ground (arith, text_eq_iff id j)
entry_of-forget_in (some m) id platform store j q e = ground (
  arith,
  entry_of-put_nonempty id (remove platform m) store j q,
  get-remove platform q m,
  text_eq_iff id j,
)

-- Disconnecting a platform of an agent removes that entry and no other.
entry_of-forget_token :
    (id platform : Text) (store : ChannelStore) (j q : Text)
    → entry_of j q (forget_token id platform store) ≡ (
        if text_eq id j
        then (if text_eq platform q then none else entry_of j q store)
        else entry_of j q store)
unfolding forget_token
entry_of-forget_token id platform store j q =
    entry_of-forget_in (get id store) id platform store j q refl

entry_of-refresh_entry :
    (o : Option ChannelTokenEntry) (id platform : Text) (m : Dict ChannelTokenEntry)
    (store : ChannelStore) (j q : Text)
    → get id store ≡ some m
    → get platform m ≡ o
    → entry_of j q (refresh_entry id platform m o store) ≡ (
        if text_eq id j
        then (if text_eq platform q
            then Option.map refresh_stub (entry_of j q store)
            else entry_of j q store)
        else entry_of j q store)
unfolding refresh_entry entry_of
entry_of-refresh_entry none id platform m store j q e there =
    ground (arith, e, there, text_eq_iff id j, text_eq_iff platform q)
entry_of-refresh_entry (some c) id platform m store j q e there = ground (
  arith,
  e,
  there,
  text_eq_iff id j,
  text_eq_iff platform q,
  get-insert id j (insert platform (refresh_stub c) m) store,
  get-insert platform q (refresh_stub c) m,
)

entry_of-refresh_in :
    (o : Option (Dict ChannelTokenEntry)) (id platform : Text) (store : ChannelStore) (j q : Text)
    → get id store ≡ o
    → entry_of j q (refresh_in id platform o store) ≡ (
        if text_eq id j
        then (if text_eq platform q
            then Option.map refresh_stub (entry_of j q store)
            else entry_of j q store)
        else entry_of j q store)
unfolding refresh_in entry_of get
entry_of-refresh_in none id platform store j q e = ground (arith, text_eq_iff id j)
entry_of-refresh_in (some m) id platform store j q e =
    entry_of-refresh_entry (get platform m) id platform m store j q e refl

-- Connecting sets the entry of that agent and platform to the stub connection with the token,
-- disconnecting removes it, and refreshing resets its status and detail if it is there; each leaves
-- the entries of all other agents and platforms as they were.
pub entries_after :
    (id platform token : Text) (store : ChannelStore) (j q : Text)
    → (entry_of j q (store_token id platform token store) ≡ (
        if text_eq id j
        then (if text_eq platform q then some (stub_connected token) else entry_of j q store)
        else entry_of j q store))
      × (entry_of j q (forget_token id platform store) ≡ (
          if text_eq id j
          then (if text_eq platform q then none else entry_of j q store)
          else entry_of j q store))
      × (entry_of j q (refresh_token id platform store) ≡ (
          if text_eq id j
          then (if text_eq platform q
              then Option.map refresh_stub (entry_of j q store)
              else entry_of j q store)
          else entry_of j q store))
unfolding refresh_token
entries_after id platform token store j q = (
  entry_of-store_token id platform token store j q,
  entry_of-forget_token id platform store j q,
  entry_of-refresh_in (get id store) id platform store j q refl,
)
