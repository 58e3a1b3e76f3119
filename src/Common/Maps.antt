-- ===== src/Common/Maps.antt =====
-- `HashMap` with text keys, as an association list. The program sorts what it reads off a map, or
-- treats each entry alone, so no property depends on the order of the entries.
use mathlib.Core.Path.{◌≡◌, refl}
use mathlib.Core.Bool.{Bool}
use mathlib.Core.Option.{Option, none, some}
use mathlib.Core.List.{List, [], ◌∷◌}
use native.Mathlib.Omega.{arith}
use mathlib.Core.Logic.{inl, inr}
use atlas_bot.Common.Tests.{if◌then◌else◌, is_some, Bool-cases}
use atlas_bot.Common.Texts.{Text, text_eq, text_eq_iff, text_eq_refl}

abbrev pub Dict {ℓ} : Type ℓ → Type ℓ
Dict V = List (Text × V)

module _ {ℓ} {V : Type ℓ} where
  -- `get`
  unfoldable pub get : Text → Dict V → Option V
  get k [] = none
  get k ((j, v) ∷ m) = if text_eq j k then some v else get k m

  -- `insert`
  unfoldable pub insert : Text → V → Dict V → Dict V
  insert k v [] = (k, v) ∷ []
  insert k v ((j, w) ∷ m) = if text_eq j k then (k, v) ∷ m else (j, w) ∷ insert k v m

  -- `remove`
  unfoldable pub remove : Text → Dict V → Dict V
  remove k [] = []
  remove k ((j, v) ∷ m) = let rest = remove k m in if text_eq j k then rest else (j, v) ∷ rest

  -- `contains_key`
  abbrev pub contains_key : Text → Dict V → Bool
  contains_key k m = is_some (get k m)

  pub get-insert :
      (k j : Text) (v : V) (m : Dict V)
      → get j (insert k v m) ≡ (if text_eq k j then some v else get j m)
  unfolding get insert
  get-insert k j v [] = refl
  get-insert k j v ((i, w) ∷ m) =
      ground (arith, text_eq_iff k j, text_eq_iff i k, text_eq_iff i j, get-insert k j v m)

  pub get-remove :
      (k j : Text) (m : Dict V) → get j (remove k m) ≡ (if text_eq k j then none else get j m)
  unfolding get remove
  get-remove k j [] = ground arith
  get-remove k j ((i, w) ∷ m) =
      ground (arith, text_eq_iff k j, text_eq_iff i k, text_eq_iff i j, get-remove k j m)

  pub get-insert_self : (k : Text) (v : V) (m : Dict V) → get k (insert k v m) ≡ some v
  get-insert_self k v m = simp (get-insert, text_eq_refl)

-- Each key has one entry, as in a `HashMap`.
module _ {ℓ} {V : Type ℓ} where
  abbrev pub Distinct : Dict V → Type ℓ
  Distinct [] = Unit
  Distinct ((k, v) ∷ m) = (get k m ≡ none) × Distinct m

  pub Distinct-insert : (k : Text) (v : V) (m : Dict V) → Distinct m → Distinct (insert k v m)
  unfolding get insert
  Distinct-insert k v [] d = (refl, tt)
  Distinct-insert k v ((j, w) ∷ m) (new, d) = elim (Bool-cases (text_eq j k)) [
    | inl e ↦ rw e (rw ((text_eq_iff j k).0 e) at new, d)
    | inr e ↦ rw e (
      ground (arith, get-insert k j v m, text_eq_iff k j, text_eq_iff j k),
      Distinct-insert k v m d,
    )
  ]

  pub Distinct-remove : (k : Text) (m : Dict V) → Distinct m → Distinct (remove k m)
  unfolding get remove
  Distinct-remove k [] d = tt
  Distinct-remove k ((j, w) ∷ m) (new, d) = elim (Bool-cases (text_eq j k)) [
    | inl e ↦ rw e (Distinct-remove k m d)
    | inr e ↦ rw e (ground (arith, get-remove k j m), Distinct-remove k m d)
  ]

pub ruleset dict_laws = (get-insert, get-remove, text_eq_refl)
