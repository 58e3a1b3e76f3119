-- ===== src/Hub/Auth/Gate.antt =====
-- Who passes the gate of `authenticate`.
use atlas_bot.Common.{
  Text, true, false, Option, none, some, List, ◌⊎◌, inl, inr, ◌≡◌, ◌↔◌, refl, ◌∙◌, ap, Bool-cases,
  is_empty, codes, sym, [], ◌∷◌,
}
use mathlib.Core.Path.{subst}
use atlas_bot.Hub.Auth.{
  AuthMode, dev, static, oidc, AuthConfig, AuthError, Jwt, dev_user_id, from_sub, static_subject,
  JwkEntry, Claims, prefixed, names_audience, for_audience, first_match, first, key_for, with_key,
  with_header, decode_oidc, oidc_subject, subject, missing_bearer, listed, enrolled, authenticate,
}

module _ (jwt : Jwt) (config : AuthConfig) where
  -- What shows that a bearer is a subject, in each mode.
  pub data Proves : AuthMode → Option Text → Text → Type 0 where
    local : (bearer : Option Text) → Proves dev bearer dev_user_id
    signed :
        (secret token : Text) (c : Claims)
        → config.jwt_secret ≡ some secret
        → jwt.decode_hs256 token secret ≡ inr c
        → jwt.is_user_id c.sub ≡ true
        → Proves static (some token) c.sub
    issued :
        (token : Text) (kid : Option Text) (e : JwkEntry) (c : Claims)
        → jwt.decode_header token ≡ inr kid
        → key_for kid config.jwks_keys ≡ some e
        → jwt.decode e.key config.oidc_issuer config.oidc_audience token ≡ inr c
        → names_audience config.oidc_audience c.aud ≡ true
        → jwt.is_user_id c.sub ≡ true
        → Proves oidc (some token) c.sub

  pub data Enrolled (sub : Text) : Option (List Text) → Type 0 where
    anyone : Enrolled sub none
    on_list : (list : List Text) → listed sub list ≡ true → Enrolled sub (some list)

answer_or : Text → AuthError ⊎ Text → Text
answer_or t (inl e) = t
answer_or t (inr u) = u

inr_same : {t u : Text} → Path (AuthError ⊎ Text) (inr t) (inr u) → t ≡ u
unfolding answer_or
inr_same {t} h = ap (answer_or t) h

from_sub-inr :
    (jwt : Jwt) (d : Text ⊎ Claims) (sub : Text)
    → from_sub jwt d ≡ inr sub
    → (c : Claims) × (d ≡ inr c) × (c.sub ≡ sub) × (jwt.is_user_id c.sub ≡ true)
unfolding from_sub
from_sub-inr jwt (inl e) sub h = cc
from_sub-inr jwt (inr c) sub h = elim (Bool-cases (jwt.is_user_id c.sub)) [
  | inl e ↦ (c, refl, inr_same (rw e at h), e)
  | inr e ↦ absurd (cc (rw e at h))
]

prefixed-inr : (what : Text) (d : Text ⊎ Claims) (c : Claims) → prefixed what d ≡ inr c → d ≡ inr c
prefixed-inr what (inl e) c h = cc
prefixed-inr what (inr d) c h = h

claims_or : Claims → Text ⊎ Claims → Claims
claims_or c (inl e) = c
claims_or c (inr d) = d

for_audience-inr :
    (want : Option Text) (d : Text ⊎ Claims) (c : Claims)
    → for_audience want d ≡ inr c
    → (d ≡ inr c) × (names_audience want c.aud ≡ true)
unfolding for_audience claims_or
for_audience-inr want (inl e) c h = cc
for_audience-inr want (inr d) c h = elim (Bool-cases (names_audience want d.aud)) [
  | inl e ↦
      let same : d ≡ c = ap (claims_or d) (rw e at h) in
      (ap inr same, ap (λ c. names_audience want c.aud) (sym same) ∙ e)
  | inr e ↦ absurd (cc (rw e at h))
]

module _ (jwt : Jwt) (config : AuthConfig) where
  signed_by :
      (o : Option Text) (token sub : Text)
      → config.jwt_secret ≡ o
      → static_subject jwt o (some token) ≡ inr sub
      → Proves jwt config static (some token) sub
  unfolding static_subject
  signed_by none token sub e h = cc
  signed_by (some secret) token sub e h =
      let decoded = jwt.decode_hs256 token secret in
      let (c, read, same, valid) = from_sub-inr jwt (prefixed (codes "jwt: ") decoded) sub h in
      subst (Proves jwt config static (some token)) same
        (signed secret token c e (prefixed-inr (codes "jwt: ") decoded c read) valid)

  issued_by :
      (token sub : Text) (kid : Option Text) (o : Option JwkEntry)
      → jwt.decode_header token ≡ inr kid
      → key_for kid config.jwks_keys ≡ o
      → from_sub jwt (with_key jwt config token o) ≡ inr sub
      → Proves jwt config oidc (some token) sub
  unfolding with_key from_sub
  issued_by token sub kid none head key h = cc
  issued_by token sub kid (some e) head key h =
      let decoded = jwt.decode e.key config.oidc_issuer config.oidc_audience token in
      let (c, read, same, valid) =
        from_sub-inr jwt (for_audience config.oidc_audience (prefixed (codes "oidc jwt: ") decoded))
          sub h in
      let (passed, names) = for_audience-inr config.oidc_audience _ c read in
      subst (Proves jwt config oidc (some token)) same (
        issued token kid e c head key (prefixed-inr (codes "oidc jwt: ") decoded c passed) names
          valid)

  headed_by :
      (token sub : Text) (d : Text ⊎ Option Text)
      → jwt.decode_header token ≡ d
      → from_sub jwt (with_header jwt config token d) ≡ inr sub
      → Proves jwt config oidc (some token) sub
  unfolding with_header from_sub
  headed_by token sub (inl e) head h = cc
  headed_by token sub (inr kid) head h =
      issued_by token sub kid (key_for kid config.jwks_keys) head refl h

  has_keys :
      (kid : Option Text) (e : JwkEntry) (keys : List JwkEntry)
      → key_for kid keys ≡ some e
      → is_empty keys ≡ false
  unfolding key_for first_match first
  has_keys kid e [] h = cc
  has_keys kid e (k ∷ keys) h = refl

  proven :
      (mode : AuthMode) (bearer : Option Text) (sub : Text)
      → subject jwt mode config bearer ≡ inr sub
      → Proves jwt config mode bearer sub
  unfolding subject static_subject oidc_subject missing_bearer decode_oidc from_sub
  proven dev bearer sub h = subst (λ t. Proves jwt config dev bearer t) (inr_same h) (local bearer)
  proven static none sub h = cc
  proven static (some token) sub h = signed_by config.jwt_secret token sub refl h
  proven oidc none sub h = cc
  proven oidc (some token) sub h = elim (Bool-cases (is_empty config.jwks_keys)) [
    | inl e ↦ absurd (cc (rw e at h))
    | inr e ↦ headed_by token sub (jwt.decode_header token) refl (rw e at h)
  ]

  proved :
      (mode : AuthMode) (bearer : Option Text) (sub : Text)
      → Proves jwt config mode bearer sub
      → subject jwt mode config bearer ≡ inr sub
  unfolding subject static_subject oidc_subject from_sub decode_oidc with_header with_key
      for_audience
  proved mode bearer sub (local b) = refl
  proved mode bearer sub (signed secret token c e d v) = rw (e, d, v) refl
  proved mode bearer sub (issued token kid e c head key d names v) =
      rw (has_keys kid e config.jwks_keys key, head, key, d, names, v) refl

  enrolled-inr :
      (l : Option (List Text)) (a : AuthError ⊎ Text) (sub : Text)
      → enrolled l a ≡ inr sub
      → (a ≡ inr sub) × Enrolled jwt config sub l
  unfolding enrolled
  enrolled-inr l (inl e) sub h = cc
  enrolled-inr none (inr t) sub h = (h, anyone)
  enrolled-inr (some list) (inr t) sub h = elim (Bool-cases (listed t list)) [
    | inl e ↦
        let same : t ≡ sub = inr_same (rw e at h) in (ap inr same, on_list list (rw same at e))
    | inr e ↦ absurd (cc (rw e at h))
  ]

  enrolled-Enrolled :
      (l : Option (List Text)) (sub : Text)
      → Enrolled jwt config sub l
      → enrolled l (inr sub) ≡ inr sub
  unfolding enrolled
  enrolled-Enrolled l sub anyone = refl
  enrolled-Enrolled l sub (on_list list e) = rw e refl

  -- A session gets the user `sub` exactly where its bearer proves that subject in the mode of the
  -- configuration (dev: any bearer, and the local user alone; static: a bearer token that decodes
  -- under the configured secret; oidc: a bearer token that decodes, with the configured issuer and
  -- audience, under the first loaded key that no two different `kid`s rule out, or else the first of
  -- all, and whose audiences, if it has some, have the configured one; both with a valid user id) and the
  -- allowlist, if there is one, has it.
  pub authenticate_iff :
      (bearer : Option Text) (sub : Text)
      → (authenticate jwt config bearer ≡ inr sub)
        ↔ (Proves jwt config config.mode bearer sub × Enrolled jwt config sub config.allowlist)
  unfolding authenticate
  authenticate_iff bearer sub = (
    λ h.
        let (a, l) = enrolled-inr config.allowlist (subject jwt config.mode config bearer) sub h in
        (proven config.mode bearer sub a, l),
    λ (p, l).
        ap (enrolled config.allowlist) (proved config.mode bearer sub p)
        ∙ enrolled-Enrolled config.allowlist sub l,
  )
