-- ===== src/Sandbox/Resolve/Inside.antt =====
-- Which paths the sandbox resolves, and where they lie.
use atlas_bot.Common.{
  Text, true, false, ◌||◌, Option, none, some, List, [], ◌∷◌, ◌++◌, inl, inr, ◌↔◌, ◌≡◌, refl, ap,
  sym, ◌∙◌, arith, All, text_eq, codes, is_empty, trim, Bool-cases,
}
use atlas_bot.Sandbox.FilePaths.{
  Component, root_dir, cur_dir, parent_dir, normal, components, components-join, names_of, names,
  pieces, lead, is_absolute, join, begins, begins-append,
}
use atlas_bot.Sandbox.Resolve.{Links, refused, within, checked, resolve_sandbox_path}

-- a component that goes down, or nowhere
abbrev pub IsDown : Component → Type 0
IsDown (normal s) = Unit {0}
IsDown cur_dir = Unit {0}
IsDown root_dir = ⊥
IsDown parent_dir = ⊥

-- the name of an entry
abbrev pub IsName : Component → Type 0
IsName (normal s) = Unit {0}
IsName _ = ⊥

names-IsName : (ss : List Text) → All IsDown (names ss) → All IsName (names ss)
unfolding names
names-IsName [] h = tt
names-IsName (s ∷ ss) h = elim (Bool-cases (is_empty s || text_eq s (codes "."))) [
  | inl e ↦ rw e (names-IsName ss (rw e at h))
  | inr e ↦ elim (Bool-cases (text_eq s (codes ".."))) [
    | inl f ↦ absurd (let k = rw (e, f) at h in k.0)
    | inr f ↦ rw (e, f) (tt, names-IsName ss (let k = rw (e, f) at h in k.1))
  ]
]

All-behind : (cs ds : List Component) → All IsDown (cs ++ ds) → All IsDown ds
All-behind [] ds h = h
All-behind (c ∷ cs) ds h = All-behind cs ds h.1

names_of-IsName : (t : Text) → All IsDown (components t) → All IsName (names_of t)
unfolding components names_of
names_of-IsName t h =
    names-IsName ((pieces t).0 ∷ (pieces t).1) (All-behind (lead t) (names_of t) h)

-- Relative, not empty, and without `..`.
pub record IsLocal (rel : Text) : Type 0 where
  pub something : is_empty rel ≡ false
  pub relative : is_absolute rel ≡ false
  pub down : All IsDown (components rel)

refused-none : (rel : Text) (cs : List Component) → All IsDown cs → refused rel cs ≡ none
unfolding refused
refused-none rel [] h = refl
refused-none rel (normal s ∷ cs) h = refused-none rel cs h.1
refused-none rel (cur_dir ∷ cs) h = refused-none rel cs h.1
refused-none rel (root_dir ∷ cs) h = absurd h.0
refused-none rel (parent_dir ∷ cs) h = absurd h.0

none-refused : (rel : Text) (cs : List Component) → refused rel cs ≡ none → All IsDown cs
unfolding refused
none-refused rel [] h = tt
none-refused rel (normal s ∷ cs) h = (tt, none-refused rel cs h)
none-refused rel (cur_dir ∷ cs) h = (tt, none-refused rel cs h)
none-refused rel (root_dir ∷ cs) h = cc
none-refused rel (parent_dir ∷ cs) h = cc

module _ (v : Links) (cwd : Text) (named : is_empty cwd ≡ false) where
  below :
      (rel : Text)
      → is_absolute rel ≡ false
      → begins (components cwd) (components (join cwd rel)) ≡ true
  below rel h = rw (components-join cwd rel named h) (begins-append (components cwd) (names_of rel))

  within-join : (rel : Text) → is_absolute rel ≡ false → within v cwd rel ≡ inr (join cwd rel)
  unfolding within
  within-join rel h = rw (below rel h) (ground arith)

  pub resolve_IsLocal :
      (raw : Text) → IsLocal (trim raw) → resolve_sandbox_path v cwd raw ≡ inr (join cwd (trim raw))
  unfolding resolve_sandbox_path
  resolve_IsLocal raw loc =
      rw (loc.something, loc.relative, refused-none (trim raw) (components (trim raw)) loc.down)
        (within-join (trim raw) loc.relative)

  checked-IsDown :
      (rel q : Text) (o : Option Text)
      → refused rel (components rel) ≡ o
      → checked v cwd rel o ≡ inr q
      → All IsDown (components rel)
  unfolding checked
  checked-IsDown rel q none e h = none-refused rel (components rel) e
  checked-IsDown rel q (some t) e h = cc

  IsLocal-of : (raw q : Text) → resolve_sandbox_path v cwd raw ≡ inr q → IsLocal (trim raw)
  unfolding resolve_sandbox_path
  IsLocal-of raw q h = elim (Bool-cases (is_empty (trim raw))) [
    | inl e ↦ cc (rw e at h)
    | inr e ↦ elim (Bool-cases (is_absolute (trim raw))) [
      | inl f ↦ cc (rw (e, f) at h)
      | inr f ↦ record {
        something = e;
        relative = f;
        down =
            checked-IsDown (trim raw) q (refused (trim raw) (components (trim raw))) refl
              (rw (e, f) at h);
      }
    ]
  ]

  -- A path is resolved exactly where its trimmed text is not empty, is relative and has no `..`; the
  -- result is that text joined to the workspace, whatever the file system holds. The path of the
  -- workspace is not empty.
  pub resolve_sandbox_path_iff :
      (raw q : Text)
      → (resolve_sandbox_path v cwd raw ≡ inr q) ↔ (IsLocal (trim raw) × (q ≡ join cwd (trim raw)))
  resolve_sandbox_path_iff raw q = (
    λ h. let loc = IsLocal-of raw q h in (loc, cc (resolve_IsLocal raw loc)),
    λ h. resolve_IsLocal raw h.0 ∙ ap inr (sym h.1),
  )

  -- What is resolved lies in the workspace: its components are those of the workspace and then names
  -- alone, neither `..` nor a root. The path of the workspace is not empty.
  pub resolve_sandbox_path-IsName :
      (raw q : Text)
      → resolve_sandbox_path v cwd raw ≡ inr q
      → (cs : List Component) × (components q ≡ components cwd ++ cs) × All IsName cs
  resolve_sandbox_path-IsName raw q h =
      let loc = IsLocal-of raw q h in
      let at : q ≡ join cwd (trim raw) = cc (resolve_IsLocal raw loc) in
      (
        names_of (trim raw),
        ap components at ∙ components-join cwd (trim raw) named loc.relative,
        names_of-IsName (trim raw) loc.down,
      )
