-- ===== src/Hub/Hints/Ingest.antt =====
-- Which posted hints the hub takes.
use atlas_bot.Common.{
  ℕ, Text, text_eq_iff, Bool, true, false, Option, none, some, some_inj, ◌⊎◌, inl, inr, ◌≡◌, ◌≢◌,
  ◌≤◌, ◌<◌, refl, ap, arith, Bool-cases, ltb,
}
use atlas_bot.Gateway.Types.{RuntimeHint}
use atlas_bot.Hub.Types.{Hub, Clock, Wire}
use atlas_bot.Hub.Hints.{
  apply_runtime_hint, event_body_max_bytes, IngestConfig, Headers, extract_event_token, Status,
  no_content, bad_request, unauthorized, forbidden, payload_too_large, same_token, token_ok,
  take_hint, after_token, post_runtime_hint,
}

-- The sender may post: it shows the configured token, or none is configured and going without is
-- allowed.
pub data IsTrusted (config : IngestConfig) (got : Option Text) : Type 0 where
  shown : (token : Text) → config.token ≡ some token → got ≡ some token → IsTrusted config got
  let_in : config.token ≡ none → config.allow_insecure ≡ true → IsTrusted config got

-- The status of a posted hint with what it is the status of, and the hub after it.
pub data Posted {G : Type 0} (wire : Wire) (clock : Clock) (config : IngestConfig)
    (got : Option Text) (size : ℕ) (body : Text ⊎ RuntimeHint) (h : Hub G)
    : Status × Hub G → Type 0 where
  too_large :
      event_body_max_bytes < size → Posted wire clock config got size body h (payload_too_large, h)
  wrong_token :
      (token : Text)
      → size ≤ event_body_max_bytes
      → config.token ≡ some token
      → got ≢ some token
      → Posted wire clock config got size body h (unauthorized, h)
  not_let_in :
      size ≤ event_body_max_bytes
      → config.token ≡ none
      → config.allow_insecure ≡ false
      → Posted wire clock config got size body h (forbidden, h)
  unreadable :
      (e : Text)
      → size ≤ event_body_max_bytes
      → IsTrusted config got
      → body ≡ inl e
      → Posted wire clock config got size body h (bad_request, h)
  taken :
      (hint : RuntimeHint)
      → size ≤ event_body_max_bytes
      → IsTrusted config got
      → body ≡ inr hint
      → Posted wire clock config got size body h (no_content, apply_runtime_hint wire clock hint h)

same_token-eq : (token : Text) (got : Option Text) → same_token token got ≡ true → got ≡ some token
unfolding same_token
same_token-eq token none h = cc
same_token-eq token (some t) h = ap some ((text_eq_iff t token).0 h)

same_token-ne : (token : Text) (got : Option Text) → same_token token got ≡ false → got ≢ some token
unfolding same_token
same_token-ne token none h e = cc
same_token-ne token (some t) h e = cc (h, (text_eq_iff t token).1 (some_inj e))

module _ {G : Type 0} (wire : Wire) (clock : Clock) (config : IngestConfig) (got : Option Text)
    (size : ℕ) (body : Text ⊎ RuntimeHint) (h : Hub G) (fits : size ≤ event_body_max_bytes) where
  take_hint-Posted :
      (b : Text ⊎ RuntimeHint)
      → body ≡ b
      → IsTrusted config got
      → Posted wire clock config got size body h (take_hint wire clock b h)
  unfolding take_hint
  take_hint-Posted (inl e) same t = unreadable e fits t same
  take_hint-Posted (inr hint) same t = taken hint fits t same

  token_ok-Posted :
      (o : Option Text) (insecure : Bool)
      → config.token ≡ o
      → config.allow_insecure ≡ insecure
      → Posted wire clock config got size body h
          (after_token wire clock (token_ok o insecure got) body h)
  unfolding token_ok after_token
  token_ok-Posted none true e i = take_hint-Posted body refl (let_in e i)
  token_ok-Posted none false e i = not_let_in fits e i
  token_ok-Posted (some token) insecure e i = elim (Bool-cases (same_token token got)) [
    | inl k ↦ rw k (take_hint-Posted body refl (shown token e (same_token-eq token got k)))
    | inr k ↦ rw k (wrong_token token fits e (same_token-ne token got k))
  ]

module _ {G : Type 0} (wire : Wire) (clock : Clock) where
  -- A posted hint is applied to the hub exactly where its body is not too long, the sender shows the
  -- configured token (or none is configured and going without is allowed), and the body decodes; the
  -- answer is then `no_content`. Otherwise the hub stays as it was and the answer is the one of the
  -- first that fails: `payload_too_large`, `unauthorized` for another token than the configured one or
  -- no token, `forbidden` where none is configured, and `bad_request`.
  pub post_runtime_hint-Posted :
      (config : IngestConfig) (hs : Headers) (size : ℕ) (body : Text ⊎ RuntimeHint) (h : Hub G)
      → Posted wire clock config
          (extract_event_token hs)
          size
          body
          h
          (post_runtime_hint wire clock config hs size body h)
  unfolding post_runtime_hint
  post_runtime_hint-Posted config hs size body h =
      elim (Bool-cases (ltb event_body_max_bytes size)) [
        | inl e ↦ rw e (too_large (ground arith))
        | inr e ↦ rw e (
            token_ok-Posted wire clock config (extract_event_token hs) size body h (ground arith)
              config.token config.allow_insecure refl refl)
      ]
