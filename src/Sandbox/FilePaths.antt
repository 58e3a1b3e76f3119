-- ===== src/Sandbox/FilePaths.antt =====
-- `std::path` on Unix, as crates/atlas-bot-gateway/src/box_sidecar.rs uses it: a path is a text, and
-- its components are what it is compared by.
use atlas_bot.Common.{
  ℕ, Text, codes, text_eq, text_eq_refl, Bool, true, false, ◌&&◌, ◌||◌, Option, none, some, List,
  [], ◌∷◌, ◌++◌, ◌≡◌, refl, ap, sym, ◌∙◌, arith, ◌==◌, if◌then◌else◌, is_empty, inl, inr,
  Bool-cases, append_assoc, append_nil,
}

pub data Component : Type 0 where
  root_dir cur_dir parent_dir : Component
  normal : Text → Component

-- the pieces between slashes: the first, and the others
abbrev piece : ℕ → Text × List Text → Text × List Text
piece c p = if c == b'/' then ([], p.0 ∷ p.1) else (c ∷ p.0, p.1)

unfoldable pub pieces : Text → Text × List Text
pieces [] = ([], [])
pieces (c ∷ s) = piece c (pieces s)

-- empty pieces and dots are skipped
abbrev named : Text → List Component → List Component
named s rest =
    if is_empty s || text_eq s (codes ".")
    then rest
    else if text_eq s (codes "..")
    then parent_dir ∷ rest
    else normal s ∷ rest

unfoldable pub names : List Text → List Component
names [] = []
names (s ∷ ss) = named s (names ss)

-- `Path::is_absolute`
unfoldable pub is_absolute : Text → Bool
is_absolute [] = false
is_absolute (c ∷ s) = c == b'/'

-- the root, or the dot that a relative path starts with
unfoldable pub lead : Text → List Component
unfolding is_absolute pieces
lead t =
    if is_absolute t
    then root_dir ∷ []
    else if text_eq (pieces t).0 (codes ".")
    then cur_dir ∷ []
    else []

-- the components behind that
unfoldable pub names_of : Text → List Component
unfolding pieces names
names_of t = names ((pieces t).0 ∷ (pieces t).1)

-- `Path::components`
unfoldable pub components : Text → List Component
unfolding lead names_of
components t = lead t ++ names_of t

ends_with_slash : Text → Bool
ends_with_slash [] = false
ends_with_slash (c ∷ s) = if is_empty s then c == b'/' else ends_with_slash s

-- `Path::join`
unfoldable pub join : Text → Text → Text
unfolding is_absolute ends_with_slash
join base p =
    if is_absolute p
    then p
    else if is_empty base || ends_with_slash base
    then base ++ p
    else base ++ b'/' ∷ p

unfoldable pub same : Component → Component → Bool
same root_dir root_dir = true
same cur_dir cur_dir = true
same parent_dir parent_dir = true
same (normal s) (normal t) = text_eq s t
same _ _ = false

-- `Path::starts_with`, on components
unfoldable pub begins : List Component → List Component → Bool
unfolding same
begins [] cs = true
begins (b ∷ bs) [] = false
begins (b ∷ bs) (c ∷ cs) = same b c && begins bs cs

-- `Path::parent` and `Path::file_name`, on components
unfoldable pub parent : List Component → Option (List Component)
parent [] = none
parent (c ∷ d ∷ cs) = elim (parent (d ∷ cs)) [ none ↦ some (c ∷ []) | some ps ↦ some (c ∷ ps) ]
parent (root_dir ∷ []) = none
parent (c ∷ []) = some []

unfoldable pub file_name : List Component → List Component
file_name [] = []
file_name (normal s ∷ []) = normal s ∷ []
file_name (c ∷ []) = []
file_name (c ∷ d ∷ cs) = file_name (d ∷ cs)

pieces_slash :
    (a b : Text)
    → pieces (a ++ b'/' ∷ b) ≡ ((pieces a).0, (pieces a).1 ++ (pieces b).0 ∷ (pieces b).1)
unfolding pieces
pieces_slash [] b = refl
pieces_slash (c ∷ a) b = elim (Bool-cases (c == b'/')) [
  | inl e ↦ rw (e, pieces_slash a b) refl
  | inr e ↦ rw (e, pieces_slash a b) refl
]

names-append : (xs ys : List Text) → names (xs ++ ys) ≡ names xs ++ names ys
unfolding names
names-append [] ys = refl
names-append (x ∷ xs) ys = ground (arith, names-append xs ys)

names_of_slash : (a b : Text) → names_of (a ++ b'/' ∷ b) ≡ names_of a ++ names_of b
unfolding names_of
names_of_slash a b =
    ap (λ p. names (p.0 ∷ p.1)) (pieces_slash a b)
    ∙ names-append ((pieces a).0 ∷ (pieces a).1) ((pieces b).0 ∷ (pieces b).1)

lead_slash : (c : ℕ) (a b : Text) → lead (c ∷ a ++ b'/' ∷ b) ≡ lead (c ∷ a)
unfolding lead
lead_slash c a b = rw (pieces_slash (c ∷ a) b) refl

slash_at_end : (s : Text) → ends_with_slash s ≡ true → (a : Text) × (s ≡ a ++ b'/' ∷ [])
unfolding ends_with_slash
slash_at_end [] h = cc
slash_at_end (c ∷ []) h = ([], ground arith)
slash_at_end (c ∷ d ∷ s) h = let (a, e) = slash_at_end (d ∷ s) h in (c ∷ a, ap (λ t. c ∷ t) e)

components_slash :
    (c : ℕ) (a p : Text) → components (c ∷ a ++ b'/' ∷ p) ≡ components (c ∷ a) ++ names_of p
unfolding components
components_slash c a p =
    ap (λ l. l ++ names_of (c ∷ a ++ b'/' ∷ p)) (lead_slash c a p)
    ∙ ap (λ n. lead (c ∷ a) ++ n) (names_of_slash (c ∷ a) p)
    ∙ sym (append_assoc (lead (c ∷ a)) (names_of (c ∷ a)) (names_of p))

components_after_slash :
    (a p : Text) → components (a ++ b'/' ∷ p) ≡ components (a ++ b'/' ∷ []) ++ names_of p
components_after_slash [] p = unfold components in refl
components_after_slash (c ∷ a) p =
    components_slash c a p
    ∙ ap (λ l. l ++ names_of p)
        (sym (components_slash c a [] ∙ unfold names_of in append_nil (components (c ∷ a))))

pub components-join :
    (base p : Text)
    → is_empty base ≡ false
    → is_absolute p ≡ false
    → components (join base p) ≡ components base ++ names_of p
unfolding join
components-join [] p h k = cc
components-join (c ∷ s) p h k = elim (Bool-cases (ends_with_slash (c ∷ s))) [
  | inl e ↦
      let (a, form) = slash_at_end (c ∷ s) e in
      rw (k, e)
        (ap (λ t. components (t ++ p)) form
          ∙ ap components (append_assoc a (b'/' ∷ []) p)
          ∙ components_after_slash a p
          ∙ ap (λ t. components t ++ names_of p) (sym form))
  | inr e ↦ rw (k, e) (components_slash c s p)
]

pub same_refl : (c : Component) → same c c ≡ true
unfolding same
same_refl root_dir = refl
same_refl cur_dir = refl
same_refl parent_dir = refl
same_refl (normal s) = text_eq_refl s

pub begins-append : (bs cs : List Component) → begins bs (bs ++ cs) ≡ true
unfolding begins
begins-append [] cs = refl
begins-append (b ∷ bs) cs = rw (same_refl b, begins-append bs cs)
