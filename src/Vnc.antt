-- ===== src/Vnc.antt =====
-- Desktop descriptors: `mint_vnc_descriptor_value` of crates/atlas-bot-gateway/src/vnc.rs, and
-- `lookup_vnc_token` and `urlencoding_lite` of crates/atlas-bot-gateway/src/lib.rs. The probe of the
-- upstream is a parameter: whether it was healthy, and its version.
pub mod Tokens
mod Tests
use atlas_bot.Common.{
  ℕ, ◌+◌, ◌-◌, ◌/◌, ◌%◌, Text, codes, Bool, ◌&&◌, ◌||◌, Option, none, some, List, [], ◌∷◌, ◌++◌,
  Dict, get, insert, if◌then◌else◌, ltb, ◌==◌, is_empty, is_ascii_alphanumeric, trim, bytes_of,
}
use atlas_bot.Json.{Json, num, str, object}
use atlas_bot.Gateway.Types.{Result, ok, err, invalid_args, VncMode, stub, proxy}

pub record VncTokenRecord : Type 0 where
  pub agent_id : Text
  pub expires_at_ms : ℕ
  pub upstream_addr : Text
  pub rfb_version : Option Text

pub data VncTokenError : Type 0 where
  unknown expired : VncTokenError

pub data Lookup : Type 0 where
  found : VncTokenRecord → Lookup
  missing : VncTokenError → Lookup

looked_up : ℕ → Option VncTokenRecord → Lookup
looked_up now none = missing unknown
looked_up now (some t) = if ltb now t.expires_at_ms then found t else missing expired

unfoldable pub lookup_vnc_token : ℕ → Text → Dict VncTokenRecord → Lookup
unfolding looked_up
lookup_vnc_token now token tokens = looked_up now (get token tokens)

hex : ℕ → ℕ
hex d = if ltb d 10 then d + 48 else d + 55

encode_byte : ℕ → Text
unfolding hex
encode_byte b =
    if is_ascii_alphanumeric b || b == b'-' || b == b'_' || b == b'.' || b == b'~'
    then b ∷ []
    else b'%' ∷ hex (b / 16) ∷ hex (b % 16) ∷ []

encode_bytes : List ℕ → Text
unfolding encode_byte
encode_bytes [] = []
encode_bytes (b ∷ bs) = encode_byte b ++ encode_bytes bs

unfoldable pub urlencoding_lite : Text → Text
unfolding bytes_of encode_bytes
urlencoding_lite s = encode_bytes (bytes_of s)

abbrev pub default_vnc_token_ttl_ms : ℕ
default_vnc_token_ttl_ms = 300000

-- `trim_end_matches('/')`
unfoldable pub trim_slashes : Text → Text
trim_slashes [] = []
trim_slashes (c ∷ s) =
    let rest = trim_slashes s in if is_empty rest && c == b'/' then [] else c ∷ rest

-- `map.retain(|_, t| t.expires_at_ms > now)`
unfoldable pub retain_live : ℕ → Dict VncTokenRecord → Dict VncTokenRecord
retain_live now [] = []
retain_live now ((k, t) ∷ m) =
    let rest = retain_live now m in if ltb now t.expires_at_ms then (k, t) ∷ rest else rest

-- What minting is given: the clock and a UUID, the configuration, and what the probe found.
pub record Mint : Type 0 where
  pub now : ℕ
  pub uuid : Text
  pub public_base : Text
  pub mode : VncMode
  pub upstream : Option Text
  pub healthy : Bool
  pub version : Option Text

-- the upstream of a proxy that answered
unfoldable pub proxy_upstream : Mint → Option Text
proxy_upstream m = elim m.mode [ stub ↦ none | proxy ↦ if m.healthy then m.upstream else none ]

descriptor : Mint → Text → Result Json
descriptor m url =
    ok (object (("vncUrl", str url) ∷ ("expiresHint", num (m.now + default_vnc_token_ttl_ms)) ∷ []))

mint_with : Mint → Text → Option Text → Dict VncTokenRecord → Result Json × Dict VncTokenRecord
unfolding descriptor retain_live trim_slashes urlencoding_lite
mint_with m id none tokens = (
  descriptor m (trim_slashes m.public_base ++ codes "/vnc-stub?agent=" ++ urlencoding_lite id),
  tokens,
)
mint_with m id (some upstream) tokens = (
  descriptor m
      (trim_slashes m.public_base ++ codes "/vnc/" ++ (codes "tok_" ++ m.uuid) ++ codes "/"),
  insert (codes "tok_" ++ m.uuid)
      (record {
        agent_id = id;
        expires_at_ms = m.now + default_vnc_token_ttl_ms;
        upstream_addr = upstream;
        rfb_version = m.version;
      })
      (retain_live m.now tokens),
)

unfoldable pub mint_vnc_descriptor :
    Mint → Text → Dict VncTokenRecord → Result Json × Dict VncTokenRecord
unfolding mint_with proxy_upstream
mint_vnc_descriptor m id tokens =
    if is_empty (trim id)
    then (err (invalid_args (codes "missing agentId")), tokens)
    else mint_with m id (proxy_upstream m) tokens
