-- ===== src/Hub/Auth.antt =====
-- The inbound gate of crates/atlas-bot-hub/src/auth.rs: modes, bearer tokens, the allowlist and
-- `authenticate`.
pub mod Gate
use atlas_bot.Common.{
  ℕ, Text, codes, text_eq, Bool, true, false, Option, none, some, List, [], ◌∷◌, ◌++◌, ◌⊎◌, inl,
  inr, any, ◌==◌, if◌then◌else◌, is_empty, trim, to_ascii_lowercase, strip_prefix, ◌or_else◌,
}
use atlas_bot.Json.{nonempty, and_then}
use atlas_bot.Json.{bool, str, object}
use atlas_bot.Hub.Errors.{RpcError, relay, rpc_error, link_required}

pub data AuthMode : Type 0 where
  dev static oidc : AuthMode

-- `AuthMode::parse`
unfoldable pub parse_mode : Text → Option AuthMode
parse_mode s =
    let word = to_ascii_lowercase (trim s) in
    if text_eq word (codes "dev")
    then some dev
    else if text_eq word (codes "static")
    then some static
    else if text_eq word (codes "oidc")
    then some oidc
    else none

-- `JwkEntry`; a number stands for the key with its algorithm, which only `jsonwebtoken` reads
pub record JwkEntry : Type 0 where
  pub kid : Option Text
  pub key : ℕ

-- `AuthConfig`
pub record AuthConfig : Type 0 where
  pub mode : AuthMode
  pub jwt_secret : Option Text
  pub allowlist : Option (List Text)
  pub oidc_issuer : Option Text
  pub oidc_audience : Option Text
  pub jwks_keys : List JwkEntry

pub data AuthError : Type 0 where
  unauthorized not_linked : Text → AuthError

pub data Aud : Type 0 where
  one : Text → Aud
  many : List Text → Aud

pub record Claims : Type 0 where
  pub sub : Text
  pub aud : Option Aud

-- `jsonwebtoken`: the claims of a token under a secret, with HS256; the `kid` of its header; and the
-- claims under a key, with the issuer and the audience to check, where there are some. An error is a
-- text. And whether `UserId::new` takes a subject, and how `{:?}` prints a text, with quotes and escapes.
pub record Jwt : Type 0 where
  pub decode_hs256 : Text → Text → Text ⊎ Claims
  pub decode_header : Text → Text ⊎ Option Text
  pub decode : ℕ → Option Text → Option Text → Text → Text ⊎ Claims
  pub is_user_id : Text → Bool
  pub debug : Text → Text

abbrev pub dev_user_id : Text
dev_user_id = codes "user_local_dev"

-- `AuthContext::from_sub`
from_sub : Jwt → Text ⊎ Claims → AuthError ⊎ Text
from_sub jwt (inl e) = inl (unauthorized e)
from_sub jwt (inr c) =
    if jwt.is_user_id c.sub
    then inr c.sub
    else inl (unauthorized (codes "invalid subject " ++ jwt.debug c.sub))

abbrev pub prefixed : Text → Text ⊎ Claims → Text ⊎ Claims
prefixed what (inl e) = inl (what ++ e)
prefixed what (inr c) = inr c

-- `Aud::contains`
has_audience : Text → Aud → Bool
has_audience want (one s) = text_eq s want
has_audience want (many v) = any (λ s. text_eq s want) v

-- The audience that is configured is one of those of the claims, where they have any.
unfoldable pub names_audience : Option Text → Option Aud → Bool
unfolding has_audience
names_audience none aud = true
names_audience (some want) none = true
names_audience (some want) (some aud) = has_audience want aud

for_audience : Option Text → Text ⊎ Claims → Text ⊎ Claims
unfolding names_audience
for_audience want (inl e) = inl e
for_audience want (inr c) =
    if names_audience want c.aud then inr c else inl (codes "audience mismatch")

key_matches : Option Text → Option Text → Bool
key_matches (some want) (some have) = text_eq want have
key_matches _ _ = true

first_match : Option Text → List JwkEntry → Option JwkEntry
unfolding key_matches
first_match kid [] = none
first_match kid (e ∷ es) =
    let rest = first_match kid es in if key_matches kid e.kid then some e else rest

first : List JwkEntry → Option JwkEntry
first [] = none
first (e ∷ es) = some e

-- the key of the token's `kid`, else the first
unfoldable pub key_for : Option Text → List JwkEntry → Option JwkEntry
unfolding first_match first
key_for kid keys = first_match kid keys or_else first keys

with_key : Jwt → AuthConfig → Text → Option JwkEntry → Text ⊎ Claims
unfolding for_audience
with_key jwt config token none = inl (codes "no JWKS key matched")
with_key jwt config token (some e) =
    for_audience config.oidc_audience (
      prefixed (codes "oidc jwt: ")
        (jwt.decode e.key config.oidc_issuer config.oidc_audience token))

with_header : Jwt → AuthConfig → Text → Text ⊎ Option Text → Text ⊎ Claims
unfolding with_key key_for
with_header jwt config token (inl e) = inl (codes "jwt header: " ++ e)
with_header jwt config token (inr kid) = with_key jwt config token (key_for kid config.jwks_keys)

decode_oidc : Jwt → AuthConfig → Text → Text ⊎ Claims
unfolding with_header
decode_oidc jwt config token =
    if is_empty config.jwks_keys
    then inl (codes "oidc JWKS not loaded (set ATLAS_OIDC_JWKS_JSON or reachable issuer)")
    else with_header jwt config token (jwt.decode_header token)

missing_bearer : AuthError ⊎ Text
missing_bearer = inl (unauthorized (codes "missing bearer token"))

static_subject : Jwt → Option Text → Option Text → AuthError ⊎ Text
unfolding from_sub missing_bearer
static_subject jwt secret none = missing_bearer
static_subject jwt none (some token) =
    inl (unauthorized (codes "ATLAS_AUTH_JWT_SECRET not configured"))
static_subject jwt (some secret) (some token) =
    from_sub jwt (prefixed (codes "jwt: ") (jwt.decode_hs256 token secret))

oidc_subject : Jwt → AuthConfig → Option Text → AuthError ⊎ Text
unfolding from_sub missing_bearer decode_oidc
oidc_subject jwt config none = missing_bearer
oidc_subject jwt config (some token) = from_sub jwt (decode_oidc jwt config token)

subject : Jwt → AuthMode → AuthConfig → Option Text → AuthError ⊎ Text
unfolding static_subject oidc_subject
subject jwt dev config bearer = inr dev_user_id
subject jwt static config bearer = static_subject jwt config.jwt_secret bearer
subject jwt oidc config bearer = oidc_subject jwt config bearer

unfoldable pub listed : Text → List Text → Bool
listed sub list = any (λ s. text_eq s sub) list

enrolled : Option (List Text) → AuthError ⊎ Text → AuthError ⊎ Text
unfolding listed
enrolled list (inl e) = inl e
enrolled none (inr sub) = inr sub
enrolled (some list) (inr sub) =
    if listed sub list then inr sub else inl (not_linked (codes "not_enrolled"))

-- the user id of the context, or the error
unfoldable pub authenticate : Jwt → AuthConfig → Option Text → AuthError ⊎ Text
unfolding subject enrolled
authenticate jwt config bearer = enrolled config.allowlist (subject jwt config.mode config bearer)

unfoldable pub unauthorized_error : Text → RpcError
unauthorized_error detail = rpc_error 32002 (codes "unauthorized") (
    some (
      object (
        ("code", str (codes "unauthorized"))
        ∷ ("retryable", bool false)
        ∷ ("detail", object (("upstream", str detail) ∷ []))
        ∷ [])))

unfoldable pub to_jsonrpc : AuthError → RpcError
unfolding unauthorized_error
to_jsonrpc (unauthorized detail) = unauthorized_error detail
to_jsonrpc (not_linked reason) = relay record {
  code = link_required;
  retryable = false;
  upstream_text = some (codes "allowlist: " ++ reason);
  reason = some reason;
}

-- `split(',')`
push_char : ℕ → List Text → List Text
push_char c [] = (c ∷ []) ∷ []
push_char c (w ∷ ws) = (c ∷ w) ∷ ws

unfoldable pub split_commas : Text → List Text
unfolding push_char
split_commas [] = [] ∷ []
split_commas (c ∷ cs) =
    let rest = split_commas cs in if c == b',' then [] ∷ rest else push_char c rest

-- trimmed, without the empty ones
unfoldable pub trimmed : List Text → List Text
trimmed [] = []
trimmed (w ∷ ws) = let rest = trimmed ws in if is_empty (trim w) then rest else trim w ∷ rest

nonempty_list : List Text → Option (List Text)
nonempty_list [] = none
nonempty_list (w ∷ ws) = some (w ∷ ws)

unfoldable pub parse_allowlist : Option Text → Option (List Text)
unfolding nonempty_list trimmed split_commas
parse_allowlist none = none
parse_allowlist (some raw) = nonempty_list (trimmed (split_commas raw))

unfoldable pub bearer_from_authorization : Option Text → Option Text
unfolding nonempty
bearer_from_authorization value = and_then value (λ v.
    and_then
      (strip_prefix (codes "Bearer ") (trim v) or_else strip_prefix (codes "bearer ") (trim v))
      nonempty)
