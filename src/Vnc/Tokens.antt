-- ===== src/Vnc/Tokens.antt =====
-- What a minted token opens, and for how long.
use atlas_bot.Common.{
  ℕ, ◌+◌, ◌≤◌, Text, codes, text_eq, text_eq_iff, Bool, true, false, Option, none, some, [], ◌∷◌,
  ◌++◌, ◌≡◌, refl, ap, ◌∙◌, arith, Dict, get, insert, get-insert, get-insert_self, Distinct,
  if◌then◌else◌, ltb, is_empty, trim,
}
use atlas_bot.Vnc.{
  VncTokenRecord, found, missing, expired, lookup_vnc_token, looked_up, retain_live, Mint,
  proxy_upstream, mint_with, mint_vnc_descriptor,
}

retain_live-none :
    (now : ℕ) (m : Dict VncTokenRecord) (k : Text)
    → get k m ≡ none
    → get k (retain_live now m) ≡ none
unfolding get retain_live
retain_live-none now [] k h = refl
retain_live-none now ((j, t) ∷ m) k h = ground (arith, h, retain_live-none now m k)

abbrev kept : ℕ → Option VncTokenRecord → Option VncTokenRecord
kept now none = none
kept now (some t) = if ltb now t.expires_at_ms then some t else none

get-retain_live :
    (now : ℕ) (m : Dict VncTokenRecord) (k : Text)
    → Distinct m
    → get k (retain_live now m) ≡ kept now (get k m)
unfolding get retain_live
get-retain_live now [] k d = refl
get-retain_live now ((j, t) ∷ m) k (new, d) =
    ground (arith, text_eq_iff j k, get-retain_live now m k d, retain_live-none now m j new)

module _ (m : Mint) (id : Text) (tokens : Dict VncTokenRecord) where
  abbrev pub minted : Text → VncTokenRecord
  minted upstream = record {
    agent_id = id;
    expires_at_ms = m.now + 300000;
    upstream_addr = upstream;
    rfb_version = m.version;
  }

  mint_lem :
      (upstream : Text)
      → is_empty (trim id) ≡ false
      → proxy_upstream m ≡ some upstream
      → (mint_vnc_descriptor m id tokens).1
        ≡ insert (codes "tok_" ++ m.uuid) (minted upstream) (retain_live m.now tokens)
  unfolding mint_vnc_descriptor mint_with
  mint_lem upstream named up = rw (named, up) refl

  -- Where the gateway is a proxy whose upstream answered, minting for a named agent stores a token
  -- that opens that agent's desktop at the upstream for five minutes, and is expired from then on.
  pub lookup_vnc_token-mint_vnc_descriptor :
      (upstream : Text) (now : ℕ)
      → is_empty (trim id) ≡ false
      → proxy_upstream m ≡ some upstream
      → lookup_vnc_token now (codes "tok_" ++ m.uuid) (mint_vnc_descriptor m id tokens).1
        ≡ (if ltb now (m.now + 300000) then found (minted upstream) else missing expired)
  unfolding lookup_vnc_token looked_up
  lookup_vnc_token-mint_vnc_descriptor upstream now named up =
      ap (λ t. lookup_vnc_token now (codes "tok_" ++ m.uuid) t) (mint_lem upstream named up)
      ∙ ap (looked_up now)
          (get-insert_self (codes "tok_" ++ m.uuid) (minted upstream) (retain_live m.now tokens))

  kept_found :
      (o : Option VncTokenRecord) (now : ℕ) (t : VncTokenRecord)
      → m.now ≤ now
      → looked_up now o ≡ found t
      → looked_up now (kept m.now o) ≡ found t
  unfolding looked_up
  kept_found none now t later h = cc
  kept_found (some u) now t later h = ground (arith, h)

  mint_cases :
      (b : Bool) (o : Option Text) (now : ℕ) (k : Text) (t : VncTokenRecord)
      → is_empty (trim id) ≡ b
      → proxy_upstream m ≡ o
      → Distinct tokens
      → m.now ≤ now
      → text_eq (codes "tok_" ++ m.uuid) k ≡ false
      → lookup_vnc_token now k tokens ≡ found t
      → lookup_vnc_token now k (mint_vnc_descriptor m id tokens).1 ≡ found t
  unfolding mint_vnc_descriptor mint_with lookup_vnc_token
  mint_cases true o now k t e up d later other h = rw e h
  mint_cases false none now k t e up d later other h = rw (e, up) h
  mint_cases false (some upstream) now k t e up d later other h =
      rw (e, up)
        (ap (looked_up now) (
            get-insert (codes "tok_" ++ m.uuid) k (minted upstream) (retain_live m.now tokens)
            ∙ ap (λ b. if b then some (minted upstream) else get k (retain_live m.now tokens)) other
            ∙ get-retain_live m.now tokens k d)
          ∙ kept_found (get k tokens) now t later h)

  -- Minting, whatever it answers, takes no other token away: one that would open a desktop at a
  -- time after the minting still opens the same desktop at that time.
  pub mint_keeps_tokens :
      (now : ℕ) (k : Text) (t : VncTokenRecord)
      → Distinct tokens
      → m.now ≤ now
      → text_eq (codes "tok_" ++ m.uuid) k ≡ false
      → lookup_vnc_token now k tokens ≡ found t
      → lookup_vnc_token now k (mint_vnc_descriptor m id tokens).1 ≡ found t
  mint_keeps_tokens now k t = mint_cases (is_empty (trim id)) (proxy_upstream m) now k t refl refl
