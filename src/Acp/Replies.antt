-- ===== src/Acp/Replies.antt =====
-- What the adapter of crates/atlas-acp-adapter/src/lib.rs reads and answers: its methods and errors, the
-- text of a prompt, the rows of its agents, and what comes over a socket.
use atlas_bot.Common.{
  Text, codes, text_eq, Bool, ◌&&◌, not, Option, none, some, List, [], ◌∷◌, ◌⊎◌, inl, inr, any,
  if◌then◌else◌, is_some, join_texts, unwrap_or, ◌or_else◌,
}
use atlas_bot.Json.{Json, null, neg, str, object, get_key, get_str, get_array, as_str}

abbrev pub frozen_whitelist : List Text
frozen_whitelist =
    codes "initialize"
    ∷ codes "agents/list"
    ∷ codes "session/new"
    ∷ codes "session/prompt"
    ∷ codes "session/cancel"
    ∷ codes "transcript/tail"
    ∷ []

unfoldable pub is_whitelisted : Text → Bool
is_whitelisted method = any (λ w. text_eq w method) frozen_whitelist

-- the error codes -32601, -32602 and -32603
abbrev pub err_method_not_found : Json
err_method_not_found = neg 32600

abbrev pub err_invalid_params : Json
err_invalid_params = neg 32601

abbrev pub err_internal : Json
err_internal = neg 32602

unfoldable pub rpc_ok : Json → Json → Json
rpc_ok id result = object (("jsonrpc", str (codes "2.0")) ∷ ("id", id) ∷ ("result", result) ∷ [])

unfoldable pub rpc_error : Json → Json → Text → Json
rpc_error id code message = object (
    ("jsonrpc", str (codes "2.0"))
    ∷ ("id", id)
    ∷ ("error", object (("code", code) ∷ ("message", str message) ∷ []))
    ∷ [])

abbrev pub or_null : Option Json → Json
or_null v = unwrap_or v null

part_of : Json → List Text → List Text
unfolding get_str
part_of item rest = elim (get_str "text" item or_else as_str item) [
  | none ↦ rest
  | some t ↦ t ∷ rest
]

part_list : List Json → List Text
unfolding part_of
part_list [] = []
part_list (item ∷ items) = part_of item (part_list items)

-- the text of a prompt that is no string
unstringed : Json → Option (List Json) → Text
unfolding part_list join_texts get_str
unstringed params (some items) = join_texts (10 ∷ []) (part_list items)
unstringed params none = unwrap_or (get_str "text" params) []

unfoldable pub extract_prompt_text : Json → Text
unfolding unstringed get_str get_array
extract_prompt_text params =
    unwrap_or (get_str "prompt" params) (unstringed params (get_array "prompt" params))

unfoldable pub agent_row : Json → Json
unfolding get_key
agent_row a = object (
    ("agentId", or_null (get_key "agentId" a or_else get_key "id" a))
    ∷ ("name", unwrap_or (get_key "name" a) (str []))
    ∷ ("status", unwrap_or (get_key "status" a) (str (codes "unknown")))
    ∷ [])

-- A session id that the request names, or the bound one; none is missing, and another than the bound
-- one is unknown.
unfoldable pub session_of : Option Text → Option Text → Text ⊎ Text
session_of none none = inl (codes "missing sessionId; call session/new")
session_of none (some bound) = inr bound
session_of (some sid) none = inr sid
session_of (some sid) (some bound) =
    if text_eq bound sid then inr sid else inl (codes "unknown sessionId")

-- What comes over the socket of a client: a text with the UUID that a session of it would get, a ping,
-- both with whether the answer can be sent, a close, another message, or an error.
pub data Incoming : Type 0 where
  text : Text → Text → Bool → Incoming
  ping : Bool → Incoming
  close other failed : Incoming

-- a request without an id
unfoldable pub is_notification : Json → Bool
unfolding get_key
is_notification v = not (is_some (get_key "id" v)) && is_some (get_key "method" v)

abbrev pub method_of : Json → Text
method_of req = unwrap_or (get_str "method" req) []
