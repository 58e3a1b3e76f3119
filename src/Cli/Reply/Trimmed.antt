-- ===== src/Cli/Reply/Trimmed.antt =====
-- What a reply in text mode looks like.
use atlas_bot.Common.{
  Text, codes, text_eq, Bool, ◌&&◌, ◌||◌, not, false, Option, none, some, [], ◌≡◌, refl, inl, inr,
  Bool-cases, is_empty, trim, trim-trim, to_ascii_lowercase, starts_with, unwrap_or,
}
use atlas_bot.Json.{Json, get_str, get_bool}
use atlas_bot.Gateway.Types.{Result, ok, err}
use atlas_bot.Cli.Reply.{stopped, with_text, is_text, is_object, document, extract_text_mode_reply}

-- An error, or a text without whitespace at its ends.
abbrev IsTrimmed : Result Text → Type 0
IsTrimmed (ok t) = trim t ≡ t
IsTrimmed (err e) = Unit {0}

trim_nil : trim [] ≡ []
unfolding trim
trim_nil = refl

stopped-IsTrimmed : (o : Option Text) → IsTrimmed (stopped o)
unfolding stopped
stopped-IsTrimmed none = trim_nil
stopped-IsTrimmed (some raw) =
    elim (Bool-cases (
      not (is_empty (trim raw))
      && not (text_eq (to_ascii_lowercase (trim raw)) (codes "end_turn")))) [
        | inl e ↦ rw e tt
        | inr e ↦ rw e trim_nil
      ]

with_text-IsTrimmed : (v : Json) (o : Option Text) → IsTrimmed (with_text v o)
unfolding with_text
with_text-IsTrimmed v (some t) = elim (Bool-cases (is_empty (trim t))) [
  | inl e ↦ rw e (stopped-IsTrimmed (get_str "stopReason" v))
  | inr e ↦ rw e (trim-trim t)
]
with_text-IsTrimmed v none = elim (Bool-cases (unwrap_or (get_bool "is_error" v) false)) [
  | inl e ↦ rw e tt
  | inr e ↦ rw e tt
]

document-IsTrimmed : (s : Text) (o : Option Json) → trim s ≡ s → IsTrimmed (document s o)
unfolding document
document-IsTrimmed s none h = h
document-IsTrimmed s (some v) h = elim (Bool-cases (not (is_object v))) [
  | inl e ↦ rw e tt
  | inr e ↦ elim (Bool-cases (is_text (codes "error") (get_str "type" v))) [
    | inl f ↦ rw (e, f) tt
    | inr f ↦ rw (e, f) (with_text-IsTrimmed v (get_str "text" v))
  ]
]

extract-IsTrimmed :
    (from_str : Text → Option Json) (raw : Text) (json_mode : Bool)
    → IsTrimmed (extract_text_mode_reply from_str raw json_mode)
unfolding extract_text_mode_reply
extract-IsTrimmed from_str raw json_mode =
    elim (Bool-cases
      (not json_mode || is_empty (trim raw) || not (starts_with (codes "{") (trim raw)))) [
        | inl e ↦ rw e (trim-trim raw)
        | inr e ↦ rw e (document-IsTrimmed (trim raw) (from_str (trim raw)) (trim-trim raw))
      ]

-- A reply of the command line in text mode, as plain text or out of a JSON document, has no
-- whitespace at its ends.
pub trim-extract_text_mode_reply :
    (from_str : Text → Option Json) (raw : Text) (json_mode : Bool) (t : Text)
    → extract_text_mode_reply from_str raw json_mode ≡ ok t
    → trim t ≡ t
trim-extract_text_mode_reply from_str raw json_mode t h =
    rw h at (extract-IsTrimmed from_str raw json_mode)
