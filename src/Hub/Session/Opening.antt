-- ===== src/Hub/Session/Opening.antt =====
-- Nothing but an authenticated hello opens a session.
use atlas_bot.Common.{
  Text, codes, text_eq, Bool, true, false, Option, none, some, List, [], ◌∷◌, ◌⊎◌, inl, inr, ◌≡◌,
  refl, arith, if◌then◌else◌,
}
use atlas_bot.Json.{Json}
use atlas_bot.Hub.Types.{Hub, GatewayOps, Clock, Request, Wire}
use atlas_bot.Hub.Errors.{RpcError, error}
use atlas_bot.Hub.Events.{register_connection}
use atlas_bot.Hub.Rpc.{hello_ack}
use atlas_bot.Hub.Auth.{AuthError, Jwt, authenticate}
use atlas_bot.Hub.Session.{
  Session, Reply, Frames, with_user, admit, gate_hello, greet, greet_request, asked, parsed,
  bare_hello, hello_request, on_request, on_value, on_text, is_bare_hello, is_request, opened,
  answer, hello_required,
}

named :
    (user : Text) (a : RpcError ⊎ Text) (conn u : Text)
    → with_user user a ≡ inr (conn, u)
    → Path (AuthError ⊎ Text) (inr user) (inr u)
unfolding with_user
named user (inl e) conn u h = cc
named user (inr c) conn u h = ground (arith, h)

module _ {G : Type 0} (wire : Wire) (clock : Clock) (gw : GatewayOps G) (jwt : Jwt) where
  -- What a frame makes of a session without hello: nothing, or an opened session whose bearer
  -- authenticated, with its connection registered.
  pub data Opening (s : Session) (h : Hub G) : Session × Hub G → Type 0 where
    shut : Opening s h (s, h)
    open_for :
        (conn user : Text)
        → authenticate jwt s.auth_config s.bearer ≡ inr user
        → Opening s h
            (record s { connection_id = conn; hello_done = true }, register_connection conn h)

  admitted :
      (hello : Json) (d : AuthError ⊎ Text) (conn user : Text)
      → admit wire clock hello d ≡ inr (conn, user)
      → d ≡ inr user
  unfolding admit
  admitted hello (inl e) conn user h = cc
  admitted hello (inr u) conn user h = named u (hello_ack wire clock hello) conn user h

  greet-Opening :
      (g : RpcError ⊎ (Text × Text)) (s : Session) (h : Hub G)
      → ((conn user : Text)
          → g ≡ inr (conn, user)
          → authenticate jwt s.auth_config s.bearer ≡ inr user)
      → Opening s h (greet wire clock gw jwt g s h).1
  unfolding greet opened
  greet-Opening (inl e) s h from = shut
  greet-Opening (inr (conn, user)) s h from = open_for conn user (from conn user refl)

  request-Opening :
      (req : Request) (g : RpcError ⊎ (Text × Text)) (s : Session) (h : Hub G)
      → ((conn user : Text)
          → g ≡ inr (conn, user)
          → authenticate jwt s.auth_config s.bearer ≡ inr user)
      → Opening s h (greet_request wire clock gw jwt req g s h).1
  unfolding greet_request opened
  request-Opening req (inl e) s h from = shut
  request-Opening req (inr (conn, user)) s h from = open_for conn user (from conn user refl)

  bare-Opening :
      (d : Text ⊎ Json) (s : Session) (h : Hub G)
      → Opening s h (bare_hello wire clock gw jwt d s h).1
  unfolding bare_hello gate_hello
  bare-Opening (inl e) s h = shut
  bare-Opening (inr hello) s h = greet-Opening _ s h λ conn user e. admitted hello _ conn user e

  hello-Opening :
      (req : Request) (d : Text ⊎ Json) (s : Session) (h : Hub G)
      → Opening s h (hello_request wire clock gw jwt req d s h).1
  unfolding hello_request gate_hello
  hello-Opening req (inl e) s h = shut
  hello-Opening req (inr hello) s h =
      request-Opening req _ s h λ conn user e. admitted hello _ conn user e

  Opening-if :
      (b : Bool) (s : Session) (h : Hub G) (x y : List Reply × (Session × Hub G))
      → Opening s h x.1
      → Opening s h y.1
      → Opening s h (if b then x else y).1
  Opening-if true s h x y p q = p
  Opening-if false s h x y p q = q

  Opening-else :
      (b : Bool) (s : Session) (h : Hub G) (x y : List Reply × (Session × Hub G))
      → b ≡ false
      → Opening s h y.1
      → Opening s h (if b then x else y).1
  Opening-else true s h x y e p = cc
  Opening-else false s h x y e p = p

  on_request-Opening :
      (req : Request) (s : Session) (h : Hub G)
      → s.hello_done ≡ false
      → Opening s h (on_request wire clock gw jwt req s h).1
  unfolding on_request
  on_request-Opening req s h e =
      Opening-else s.hello_done s h _
        (if text_eq req.method (codes "hello")
          then hello_request wire clock gw jwt req (wire.hello req.params) s h
          else (answer wire clock gw jwt req (error (hello_required s)) ∷ [], (s, h)))
        e
        (Opening-if (text_eq req.method (codes "hello")) s h
          (hello_request wire clock gw jwt req (wire.hello req.params) s h)
          (answer wire clock gw jwt req (error (hello_required s)) ∷ [], (s, h))
          (hello-Opening req (wire.hello req.params) s h) shut)

  asked-Opening :
      (o : Option Request) (s : Session) (h : Hub G)
      → s.hello_done ≡ false
      → Opening s h (asked wire clock gw jwt o s h).1
  unfolding asked
  asked-Opening none s h e = shut
  asked-Opening (some req) s h e = on_request-Opening req s h e

  parsed-Opening :
      (frames : Frames) (o : Option Json) (s : Session) (h : Hub G)
      → s.hello_done ≡ false
      → Opening s h (parsed wire clock gw jwt frames o s h).1
  unfolding parsed on_value
  parsed-Opening frames none s h e = shut
  parsed-Opening frames (some v) s h e =
      let rest =
        if is_request wire clock gw jwt v
        then asked wire clock gw jwt (frames.request v) s h
        else ([], (s, h)) in
      Opening-if (is_bare_hello wire clock gw jwt s v) s h
        (bare_hello wire clock gw jwt (wire.hello v) s h) rest (bare-Opening (wire.hello v) s h)
        (Opening-if (is_request wire clock gw jwt v) s h
          (asked wire clock gw jwt (frames.request v) s h) ([], (s, h))
          (asked-Opening (frames.request v) s h e) shut)

  -- Before its hello, a session takes any text in one of two ways: it leaves the session and the
  -- hub, with the gateway, as they were, or its bearer authenticates, and the frame opens the session
  -- and registers its connection, which is all that changes.
  pub on_text-Opening :
      (frames : Frames) (text : Text) (s : Session) (h : Hub G)
      → s.hello_done ≡ false
      → Opening s h (on_text wire clock gw jwt frames text s h).1
  unfolding on_text
  on_text-Opening frames text s h e = parsed-Opening frames (frames.parse text) s h e
