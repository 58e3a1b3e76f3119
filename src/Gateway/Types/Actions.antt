-- ===== src/Gateway/Types/Actions.antt =====
-- The async handlers of crates/atlas-bot-gateway/src/lib.rs as actions on the shared state.
use atlas_bot.Common.{Bool, true, false}
use atlas_bot.Gateway.Types.Records.{Result, ok, err, GatewayError, Gateway}

-- An async handler: it returns a result and leaves the state as it is then, also when it fails.
abbrev pub Exec : Type 0 → Type 0
Exec A = Gateway → Result A × Gateway

unfoldable pub pure : {A : Type 0} → A → Exec A
pure a s = (ok a, s)

unfoldable pub throw : {A : Type 0} → GatewayError → Exec A
throw e s = (err e, s)

unfoldable pub lift : {A : Type 0} → Result A → Exec A
lift r s = (r, s)

unfoldable pub read : {A : Type 0} → (Gateway → A) → Exec A
read f s = (ok (f s), s)

unfoldable pub modify : (Gateway → Gateway) → Exec (Unit {0})
modify f s = (ok tt, f s)

unfoldable pub ensure : Bool → GatewayError → Exec (Unit {0})
ensure true e s = (ok tt, s)
ensure false e s = (err e, s)

abbrev pub continue : {A B : Type 0} → Result A → (A → Exec B) → Exec B
continue (ok a) f s = f a s
continue (err e) f s = (err e, s)

infixl 5 ◌>>=◌ ◌>>◌
-- opening this opens the other actions too
unfoldable pub ◌>>=◌ : {A B : Type 0} → Exec A → (A → Exec B) → Exec B
unfolding pure throw lift read modify ensure
◌>>=◌ m f s = let (r, s') = m s in continue r f s'

abbrev pub ◌>>◌ : {B : Type 0} → Exec (Unit {0}) → Exec B → Exec B
m >> k = m >>= λ _. k
