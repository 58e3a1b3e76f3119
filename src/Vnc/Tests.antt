-- ===== src/Vnc/Tests.antt =====
-- Tokens at concrete inputs.
use atlas_bot.Common.{
  ◌+◌, codes, text_eq, true, false, some, [], ◌∷◌, ◌++◌, ◌≡◌, refl, arith, Dict, get, if◌then◌else◌,
  ltb, is_empty, trim,
}
use atlas_bot.Gateway.Types.{proxy}
use atlas_bot.Vnc.{
  VncTokenRecord, found, missing, expired, lookup_vnc_token, looked_up, Mint, proxy_upstream,
  mint_vnc_descriptor,
}
use atlas_bot.Vnc.Tokens.{minted, lookup_vnc_token-mint_vnc_descriptor, mint_keeps_tokens}

abbrev mint : Mint
mint = record {
  now = 1000;
  uuid = codes "a";
  public_base = codes "http://h/";
  mode = proxy;
  upstream = some (codes "h:5900");
  healthy = true;
  version = some (codes "003.008");
}

abbrev other_token : VncTokenRecord
other_token = record {
  agent_id = codes "agt_2";
  expires_at_ms = 4000;
  upstream_addr = codes "h:5900";
  rfb_version = some (codes "003.008");
}

abbrev one_token : Dict VncTokenRecord
one_token = (codes "tok_b", other_token) ∷ []

agent_named : is_empty (trim (codes "agt_1")) ≡ false
unfolding trim codes
agent_named = refl

has_upstream : proxy_upstream mint ≡ some (codes "h:5900")
unfolding proxy_upstream
has_upstream = refl

lookup_vnc_token-mint_vnc_descriptor_example :
    lookup_vnc_token 2000
      (codes "tok_" ++ codes "a")
      (mint_vnc_descriptor mint (codes "agt_1") one_token).1
    ≡ (if ltb 2000 (1000 + 300000)
        then found (minted mint (codes "agt_1") one_token (codes "h:5900"))
        else missing expired)
lookup_vnc_token-mint_vnc_descriptor_example =
    lookup_vnc_token-mint_vnc_descriptor mint (codes "agt_1") one_token (codes "h:5900") 2000
      agent_named has_upstream

tokens_differ : text_eq (codes "tok_" ++ codes "a") (codes "tok_b") ≡ false
unfolding text_eq codes
tokens_differ = refl

other_found : lookup_vnc_token 2000 (codes "tok_b") one_token ≡ found other_token
unfolding lookup_vnc_token looked_up get text_eq codes
other_found = refl

mint_keeps_tokens_example :
    lookup_vnc_token 2000 (codes "tok_b") (mint_vnc_descriptor mint (codes "agt_1") one_token).1
    ≡ found other_token
unfolding get
mint_keeps_tokens_example =
    mint_keeps_tokens mint (codes "agt_1") one_token 2000 (codes "tok_b") other_token (refl, tt)
      (omega arith) tokens_differ other_found
