-- ===== src/Gateway/Types/Endings.antt =====
-- The states in which actions end.
use atlas_bot.Common.{Bool, true, false, ◌≡◌, refl}
use atlas_bot.Gateway.Types.Records.{Result, ok, err, GatewayError, Gateway}
use atlas_bot.Gateway.Types.Actions.{Exec, pure, throw, lift, read, modify, ensure, continue, ◌>>=◌}

-- A property of the state in which an action ends, whether it returns or fails, with a rule for
-- each way to build an action.
pub record Ends {A : Type 0} (P : Gateway → Type 0) (m : Exec A) (s : Gateway) : Type 0 where
  pub at : P (m s).1

module _ {P : Gateway → Type 0} {A : Type 0} where
  pub Ends-pure : (a : A) (s : Gateway) → P s → Ends P (pure a) s
  unfolding pure
  Ends-pure a s p = record { at = p }

  pub Ends-throw : (e : GatewayError) (s : Gateway) → P s → Ends P (throw {A = A} e) s
  unfolding throw
  Ends-throw e s p = record { at = p }

  pub Ends-return : (r : Result A) (s : Gateway) → P s → Ends P (lift r) s
  unfolding lift
  Ends-return r s p = record { at = p }

  pub Ends-get : (g : Gateway → A) (s : Gateway) → P s → Ends P (read g) s
  unfolding read
  Ends-get g s p = record { at = p }

module _ {P : Gateway → Type 0} {A B : Type 0} where
  pub Ends-lift :
      (r : Result A) (f : A → Exec B) (s : Gateway)
      → P s
      → ((a : A) → r ≡ ok a → Ends P (f a) s)
      → Ends P (lift r >>= f) s
  unfolding ◌>>=◌
  Ends-lift (ok a) f s p k = record { at = (k a refl).at }
  Ends-lift (err e) f s p k = record { at = p }

  pub Ends-read :
      (g : Gateway → A) (f : A → Exec B) (s : Gateway)
      → Ends P (f (g s)) s
      → Ends P (read g >>= f) s
  unfolding ◌>>=◌
  Ends-read g f s k = record { at = k.at }

pub Ends-check :
    {P : Gateway → Type 0} (b : Bool) (e : GatewayError) (s : Gateway) → P s → Ends P (ensure b e) s
unfolding ensure
Ends-check true e s p = record { at = p }
Ends-check false e s p = record { at = p }

module _ {P : Gateway → Type 0} {B : Type 0} where
  pub Ends-modify :
      (g : Gateway → Gateway) (f : Unit {0} → Exec B) (s : Gateway)
      → Ends P (f tt) (g s)
      → Ends P (modify g >>= f) s
  unfolding ◌>>=◌
  Ends-modify g f s k = record { at = k.at }

  pub Ends-ensure :
      (b : Bool) (e : GatewayError) (f : Unit {0} → Exec B) (s : Gateway)
      → P s
      → (b ≡ true → Ends P (f tt) s)
      → Ends P (ensure b e >>= f) s
  unfolding ◌>>=◌
  Ends-ensure true e f s p k = record { at = (k refl).at }
  Ends-ensure false e f s p k = record { at = p }

module _ {P : Gateway → Type 0} {A B : Type 0} where
  continue-Ends :
      (r : Result A) (f : A → Exec B) (s : Gateway)
      → P s
      → ((a : A) (s' : Gateway) → P s' → Ends P (f a) s')
      → P (continue r f s).1
  continue-Ends (ok a) f s p k = (k a s p).at
  continue-Ends (err e) f s p k = p

  -- where the rest needs no more than the property itself
  pub Ends-bind :
      (m : Exec A) (f : A → Exec B) (s : Gateway)
      → Ends P m s
      → ((a : A) (s' : Gateway) → P s' → Ends P (f a) s')
      → Ends P (m >>= f) s
  unfolding ◌>>=◌
  Ends-bind m f s p k = record { at = continue-Ends (m s).0 f (m s).1 p.at k }
