-- ===== src/Sandbox/Replies.antt =====
-- The reply of a turn: `context_marker`, `compose_reply`, `build_llm_messages` and `chat_complete` of
-- crates/atlas-bot-gateway/src/box_sidecar.rs. The HTTP exchange with the model is a parameter.
pub mod Echo
use Prim.Native.Nat.{bit_xor}
use atlas_bot.Common.{
  ℕ, zero, suc, ◌+◌, ◌*◌, ◌/◌, ◌%◌, Text, codes, text_eq, Bool, true, false, ◌||◌, not, Option,
  none, some, List, [], ◌∷◌, ◌++◌, if◌then◌else◌, ltb, length, take, is_empty, show, trim, bytes_of,
  join_texts, unwrap_or,
}
use atlas_bot.Json.{Json, str, object, as_array, get_key, get_str, and_then}
use atlas_bot.Gateway.Types.{Result, ok, err, upstream}

-- FNV-1a on 64 bits
mark : ℕ → List ℕ → ℕ
mark h [] = h
mark h (b ∷ bs) = mark ((bit_xor h b * 1099511628211) % 18446744073709551616) bs

hex_digit : ℕ → ℕ
hex_digit d = if ltb d 10 then d + b'0' else d + 87

-- `{:08x}` of 32 bits: the last `k` hexadecimal digits before `out`
hex_digits : ℕ → ℕ → Text → Text
unfolding hex_digit
hex_digits zero n out = out
hex_digits (suc k) n out = hex_digits k (n / 16) (hex_digit (n % 16) ∷ out)

unfoldable pub context_marker : Text → Text
unfolding mark hex_digits bytes_of
context_marker text = hex_digits 8 (mark 14695981039346656037 (bytes_of text) % 4294967296) []

prior_parts : List Text → List Text
unfolding context_marker
prior_parts [] = codes "saw_prior=none" ∷ codes "ctx=none" ∷ []
prior_parts (first ∷ _) =
    (codes "saw_prior=" ++ take 64 first) ∷ (codes "ctx=" ++ context_marker first) ∷ []

evidence_part : Option Text → List Text
evidence_part none = []
evidence_part (some e) = e ∷ []

parts : Text → Text → List Text → Option Text → List Text
unfolding prior_parts evidence_part
parts agent prompt prior evidence =
    (codes "box-sidecar agent=" ++ (agent ++ (codes " turn=" ++ show (length prior + 1))))
      ∷ prior_parts prior
    ++ ((codes "ack=" ++ prompt) ∷ evidence_part evidence)

unfoldable pub compose_reply : Text → Text → List Text → Option Text → Text
unfolding parts join_texts
compose_reply agent prompt prior evidence =
    join_texts (codes " | ") (parts agent prompt prior evidence)

abbrev pub History : Type 0
History = List (Text × Text)

message : Text → Text → Json
message role text = object (("role", str role) ∷ ("content", str text) ∷ [])

unfoldable pub is_spoken : Text → Bool
is_spoken role = text_eq role (codes "user") || text_eq role (codes "assistant")

history_messages : History → List Json
unfolding message is_spoken
history_messages [] = []
history_messages ((role, text) ∷ h) =
    let rest = history_messages h in if is_spoken role then message role text ∷ rest else rest

unfoldable pub build_llm_messages : Text → Text → History → List Json
unfolding history_messages message
build_llm_messages agent prompt history =
    message (codes "system") (
        codes "You are atlas-bot box sidecar agent "
        ++ (agent ++ codes ". Reply concisely. Do not echo the user prompt verbatim."))
      ∷ history_messages history
    ++ (message (codes "user") prompt ∷ [])

-- What comes of the request: it fails, an interrupt comes first, the body is no JSON, or a status (a
-- success or not, and its text) with a body.
pub data Answer : Type 0 where
  send_error : Text → Answer
  interrupted : Answer
  json_error : Text → Answer
  answered : Bool → Text → Json → Answer

abbrev first : List Json → Option Json
first [] = none
first (v ∷ vs) = some v

-- `/choices/0` of an array, or of an object with that key
choice : Json → Option Json → Option Json
choice v none = get_key "0" v
choice v (some w) = some w

unfoldable pub content_of : Json → Text
unfolding get_key as_array choice
content_of v =
    unwrap_or
      (and_then (get_key "choices" v) (λ choices.
        and_then (choice choices (and_then (as_array choices) first))
          (λ c. and_then (get_key "message" c) (get_str "content"))))
      []

-- the guard against a reply that repeats the prompt
unfoldable pub is_echo : Text → Text → Bool
is_echo prompt text = text_eq text prompt || text_eq text (codes "echo: " ++ prompt)

checked_content : Text → Text → Result Text
unfolding is_echo
checked_content prompt text =
    if is_empty text
    then err (upstream (codes "box LLM empty content"))
    else if is_echo prompt text
    then err (upstream (codes "box LLM reply looked like stub echo; refusing"))
    else ok text

unfoldable pub chat_complete : (Json → Text) → Text → Answer → Result Text
unfolding checked_content content_of trim
chat_complete print prompt (send_error e) = err (upstream (codes "box LLM request failed: " ++ e))
chat_complete print prompt interrupted = err (upstream (codes "gateway/run-interrupted"))
chat_complete print prompt (json_error e) = err (upstream (codes "box LLM response json: " ++ e))
chat_complete print prompt (answered false status v) =
    err (upstream (codes "box LLM HTTP " ++ (status ++ (codes ": " ++ print v))))
chat_complete print prompt (answered true status v) = checked_content prompt (trim (content_of v))
