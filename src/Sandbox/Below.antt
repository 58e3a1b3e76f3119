-- ===== src/Sandbox/Below.antt =====
-- Paths below a directory, paths above it, and the parent of a path below it.
use atlas_bot.Common.{
  none, some, List, [], ◌∷◌, ◌++◌, ◌⊎◌, inl, inr, ◌≡◌, refl, All, Option-cases, some_inj,
  append_nil, sym, ap, ◌∙◌,
}
use atlas_bot.Sandbox.FilePaths.{Component, parent, normal, root_dir, cur_dir, parent_dir}
use atlas_bot.Sandbox.Resolve.Inside.{IsName}

-- Names from the workspace down, or an ancestor of the workspace or itself.
abbrev pub IsBelow : List Component → List Component → Type 0
IsBelow dir path = (cs : List Component) × (path ≡ dir ++ cs) × All IsName cs

abbrev pub IsAbove : List Component → List Component → Type 0
IsAbove dir path = (cs : List Component) × (path ++ cs ≡ dir)

parent_below :
    (c : Component) (cs : List Component)
    → All IsName (c ∷ cs)
    → (us : List Component) × (parent (c ∷ cs) ≡ some us) × All IsName us
unfolding parent
parent_below (normal s) [] h = ([], refl, tt)
parent_below root_dir [] h = absurd h.0
parent_below cur_dir [] h = absurd h.0
parent_below parent_dir [] h = absurd h.0
parent_below c (d ∷ cs) (n, ns) =
    let (us, e, all) = parent_below d cs ns in (c ∷ us, rw e refl, (n, all))

parent_append :
    (dir : List Component) (d : Component) (cs us : List Component)
    → parent (d ∷ cs) ≡ some us
    → parent (dir ++ d ∷ cs) ≡ some (dir ++ us)
unfolding parent
parent_append [] d cs us h = h
parent_append (c ∷ []) d cs us h = rw h refl
parent_append (c ∷ e ∷ dir) d cs us h = rw (parent_append (e ∷ dir) d cs us h) refl

parent-none : (c : Component) (cs : List Component) → parent (c ∷ cs) ≡ none → cs ≡ []
unfolding parent
parent-none c [] h = refl
parent-none c (d ∷ cs) h = elim (Option-cases (parent (d ∷ cs))) [
  | inl e ↦ cc (rw e at h)
  | inr (us, e) ↦ cc (rw e at h)
]

parent_above :
    (c : Component) (cs us : List Component)
    → parent (c ∷ cs) ≡ some us
    → (d : Component) × (us ++ d ∷ [] ≡ c ∷ cs)
unfolding parent
parent_above root_dir [] us h = cc
parent_above cur_dir [] us h = (cur_dir, ap (λ l. l ++ cur_dir ∷ []) (sym (some_inj h)))
parent_above parent_dir [] us h = (parent_dir, ap (λ l. l ++ parent_dir ∷ []) (sym (some_inj h)))
parent_above (normal s) [] us h = (normal s, ap (λ l. l ++ normal s ∷ []) (sym (some_inj h)))
parent_above c (d ∷ cs) us h = elim (Option-cases (parent (d ∷ cs))) [
  | inl e ↦ (
    d,
    ap (λ l. l ++ d ∷ []) (sym (some_inj (rw e at h)))
        ∙ ap (λ l. c ∷ d ∷ l) (sym (parent-none d cs e)),
  )
  | inr (ps, e) ↦
      let (x, f) = parent_above d cs ps e in
      (x, ap (λ l. l ++ x ∷ []) (sym (some_inj (rw e at h))) ∙ ap (λ l. c ∷ l) f)
]

no_parent : parent [] ≡ none
unfolding parent
no_parent = refl

pub on_path :
    (dir path up : List Component)
    → IsBelow dir path
    → parent path ≡ some up
    → IsBelow dir up ⊎ IsAbove dir up
on_path dir [] up ([], e, all) h = cc no_parent
on_path dir (c ∷ p) up ([], e, all) h =
    let (d, f) = parent_above c p up h in inr (d ∷ [], f ∙ e ∙ append_nil dir)
on_path dir path up (c ∷ cs, e, all) h =
    let (us, f, names) = parent_below c cs all in
    inl (us, some_inj (sym h ∙ ap parent e ∙ parent_append dir c cs us f), names)
