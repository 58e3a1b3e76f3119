-- ===== src/Approval/Classes.antt =====
-- Which CLI tools go without approval.
use atlas_bot.Common.{
  Text, codes, text_eq, Bool, true, false, [], ◌≡◌, refl, Bool-cases, inl, inr, if◌then◌else◌,
  is_empty, trim, to_ascii_lowercase, ◌∷◌,
}
use atlas_bot.Approval.{
  exempt, gated, observe_only, one_of, cli_exempt, cli_gated, normalize_tool_token,
  cli_tool_is_writeish_mcp, classify_cli_tool,
}

empty_key : (key : Text) → is_empty key ≡ true → one_of key cli_exempt ≡ false
unfolding codes text_eq
empty_key [] h = refl
empty_key (c ∷ cs) h = cc

-- the choice that is left where the call is not completed
choice :
    (key : Text) (writeish : Bool)
    → (if is_empty key
        then gated
        else if one_of key cli_exempt
        then exempt
        else if one_of key cli_gated
        then gated
        else if writeish
        then gated
        else gated)
      ≡ (if one_of key cli_exempt then exempt else gated)
choice key writeish = elim (Bool-cases (is_empty key)) [
  | inl e ↦ rw (e, empty_key key e) refl
  | inr e ↦ elim (Bool-cases (one_of key cli_exempt)) [
    | inl x ↦ rw (e, x) refl
    | inr x ↦ elim (Bool-cases (one_of key cli_gated)) [
      | inl g ↦ rw (e, x, g) refl
      | inr g ↦ elim (Bool-cases writeish) [
        | inl w ↦ rw (e, x, g, w) refl
        | inr w ↦ rw (e, x, g, w) refl
      ]
    ]
  ]
]

-- A tool call that is completed is observed; any other is exempt exactly where its name, in lower
-- case and without what is no ASCII letter or digit, is one of the exempt names, and gated otherwise:
-- neither the list of gated names nor the MCP words let anything through.
pub classify_cli_tool_lem :
    (name summary status : Text)
    → classify_cli_tool name summary status ≡ (
        if text_eq (to_ascii_lowercase (trim status)) (codes "completed")
        then observe_only
        else if one_of (normalize_tool_token name) cli_exempt
        then exempt
        else gated)
unfolding classify_cli_tool
classify_cli_tool_lem name summary status =
    elim (Bool-cases (text_eq (to_ascii_lowercase (trim status)) (codes "completed"))) [
      | inl e ↦ rw e refl
      | inr e ↦ rw e (choice (normalize_tool_token name) (cli_tool_is_writeish_mcp name summary))
    ]
