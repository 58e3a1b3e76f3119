-- ===== src/Gateway/Groups/Members.antt =====
-- `parse_member_agent_ids` and `validate_group_members`: which member lists are accepted, and in
-- what form.
use atlas_bot.Common.{
  Text, codes, text_eq, text_eq_iff, text_lt, text_lt_total, Bool, true, false, some, List, [], ◌∷◌,
  ◌≡◌, ◌↔◌, inl, inr, refl, sym, ◌∙◌, arith, ap, any, Dict, get, is_empty, Bool-cases, Option-cases,
  All, if◌then◌else◌,
}
use atlas_bot.Json.{Json, as_str, get_array, nonempty}
use atlas_bot.Json
use atlas_bot.Gateway.Types.{
  GatewayError, Result, ok, err, invalid_args, and_then-eq-ok, ok_or-eq-ok, AgentRecord,
}
use atlas_bot.Gateway.Groups.{
  insert_sorted, sort, keep, dedup, parse_entries, parse_member_agent_ids, validate_group_members,
}

abbrev has : Text → List Text → Bool
has id ids = any (text_eq id) ids

abbrev IsSorted : List Text → Type 0
IsSorted [] = Unit
IsSorted (x ∷ []) = Unit
IsSorted (x ∷ y ∷ ys) = (text_lt y x ≡ false) × IsSorted (y ∷ ys)

-- strictly, so without repetition
abbrev pub IsAscending : List Text → Type 0
IsAscending [] = Unit
IsAscending (x ∷ []) = Unit
IsAscending (x ∷ y ∷ ys) = (text_lt x y ≡ true) × IsAscending (y ∷ ys)

text_lt_asymm : (s t : Text) → text_lt s t ≡ true → text_lt t s ≡ false
unfolding text_lt
text_lt_asymm [] [] h = refl
text_lt_asymm [] (b ∷ t) h = refl
text_lt_asymm (a ∷ s) [] h = cc
text_lt_asymm (a ∷ s) (b ∷ t) h = ground (arith, text_lt_asymm s t)

insert_sorted-IsSorted : (x : Text) (ys : List Text) → IsSorted ys → IsSorted (insert_sorted x ys)
unfolding insert_sorted
insert_sorted-IsSorted x [] h = tt
insert_sorted-IsSorted x (y ∷ []) h = ground (arith, text_lt_asymm y x)
insert_sorted-IsSorted x (y ∷ z ∷ zs) h =
    ground (arith, text_lt_asymm y x, text_lt_asymm z x, insert_sorted-IsSorted x (z ∷ zs))

sort-IsSorted : (xs : List Text) → IsSorted (sort xs)
unfolding sort
sort-IsSorted [] = tt
sort-IsSorted (x ∷ xs) = insert_sorted-IsSorted x (sort xs) (sort-IsSorted xs)

has-insert_sorted : (id x : Text) (ys : List Text) → has id (insert_sorted x ys) ≡ has id (x ∷ ys)
unfolding insert_sorted
has-insert_sorted id x [] = refl
has-insert_sorted id x (y ∷ ys) = ground (arith, has-insert_sorted id x ys)

has-sort : (id : Text) (xs : List Text) → has id (sort xs) ≡ has id xs
unfolding sort
has-sort id [] = refl
has-sort id (x ∷ xs) = ground (arith, has-insert_sorted id x (sort xs), has-sort id xs)

has-keep : (id x : Text) (ys : List Text) → has id (keep x ys) ≡ has id (x ∷ ys)
unfolding keep
has-keep id x [] = refl
has-keep id x (y ∷ ys) = ground (arith, text_eq_iff x y)

has-dedup : (id : Text) (xs : List Text) → has id (dedup xs) ≡ has id xs
unfolding dedup
has-dedup id [] = refl
has-dedup id (x ∷ xs) = ground (arith, has-keep id x (dedup xs), has-dedup id xs)

keep_head : (x : Text) (ys : List Text) → (zs : List Text) × (keep x ys ≡ x ∷ zs)
unfolding keep
keep_head x [] = ([], refl)
keep_head x (y ∷ ys) = elim (Bool-cases (text_eq x y)) [
  | inl e ↦ (ys, rw e (ap (λ z. z ∷ ys) (sym ((text_eq_iff x y).0 e))))
  | inr e ↦ (y ∷ ys, rw e)
]

keep-IsAscending :
    (x y : Text) (ys : List Text)
    → text_lt y x ≡ false
    → IsAscending (y ∷ ys)
    → IsAscending (keep x (y ∷ ys))
unfolding keep
keep-IsAscending x y ys h k = ground (arith, text_lt_total y x h, text_eq_iff x y, text_eq_iff y x)

dedup-IsAscending : (xs : List Text) → IsSorted xs → IsAscending (dedup xs)
unfolding dedup
dedup-IsAscending [] h = tt
dedup-IsAscending (x ∷ []) h = unfold keep in tt
dedup-IsAscending (x ∷ y ∷ ys) (h, k) =
    let (zs, e) = keep_head y (dedup ys) in
    let ih : IsAscending (y ∷ zs) = rw (← e) (dedup-IsAscending (y ∷ ys) k) in
    rw e (keep-IsAscending x y zs h ih)

-- The entries of the array name these ids.
abbrev pub Names : List Json → List Text → Type 0
Names [] [] = Unit
Names (v ∷ vs) (id ∷ ids) = (Json.and_then (as_str v) nonempty ≡ some id) × Names vs ids
Names _ _ = ⊥

parse_entries_sound : (vs : List Json) (ids : List Text) → parse_entries vs ≡ ok ids → Names vs ids
unfolding parse_entries
parse_entries_sound [] [] h = tt
parse_entries_sound [] (id ∷ ids) h = cc
parse_entries_sound (v ∷ vs) ids h =
    let (id, named, h') = and_then-eq-ok _ _ h in
    let (rest, parsed, e) = and_then-eq-ok _ _ h' in
    let e' : id ∷ rest ≡ ids = ground arith in
    rw (← e') (ok_or-eq-ok _ _ named, parse_entries_sound vs rest parsed)

parse_entries_complete :
    (vs : List Json) (ids : List Text) → Names vs ids → parse_entries vs ≡ ok ids
unfolding parse_entries
parse_entries_complete [] [] h = refl
parse_entries_complete [] (id ∷ ids) h = absurd h
parse_entries_complete (v ∷ vs) [] h = absurd h
parse_entries_complete (v ∷ vs) (id ∷ ids) (h, k) = rw h (rw (parse_entries_complete vs ids k))

-- a group may have these members
abbrev pub IsMember : Dict AgentRecord → Text → Type 0
IsMember agents id = (a : AgentRecord) × (get id agents ≡ some a) × (a.is_group ≡ false)

validate_sound :
    (agents : Dict AgentRecord) (ids : List Text)
    → validate_group_members agents ids ≡ ok tt
    → All (IsMember agents) ids
unfolding validate_group_members
validate_sound agents [] h = tt
validate_sound agents (id ∷ ids) h = elim (Option-cases (get id agents)) [
  | inl e ↦ absurd (cc (h, e))
  | inr (a, e) ↦ elim (Bool-cases a.is_group) [
    | inl g ↦ absurd (ground (arith, e, g))
    | inr g ↦ ((a, e, g), validate_sound agents ids (ground (arith, e, g)))
  ]
]

validate_complete :
    (agents : Dict AgentRecord) (ids : List Text)
    → All (IsMember agents) ids
    → validate_group_members agents ids ≡ ok tt
unfolding validate_group_members
validate_complete agents [] h = refl
validate_complete agents (id ∷ ids) ((a, e, g), h) =
    ground (arith, e, g, validate_complete agents ids h)

-- A list of member ids is accepted exactly when each is the id of an agent that is no group.
pub validate_group_members_iff :
    (agents : Dict AgentRecord) (ids : List Text)
    → (validate_group_members agents ids ≡ ok tt) ↔ All (IsMember agents) ids
validate_group_members_iff agents ids = (validate_sound agents ids, validate_complete agents ids)

-- What a successful parse gives: the ids that the array's entries name, trimmed and not empty, each
-- once and in strictly ascending order.
pub record IsParsed (args : Json) (ids : List Text) : Type 0 where
  pub entries : List Json
  pub given : get_array "memberAgentIds" args ≡ some entries
  pub named : List Text
  pub names : Names entries named
  pub some_entry : is_empty ids ≡ false
  pub ascending : IsAscending ids
  pub same_ids : (id : Text) → any (text_eq id) ids ≡ any (text_eq id) named

finish_parse :
    (named ids : List Text)
    → (if is_empty (dedup (sort named))
        then err (invalid_args (codes "empty memberAgentIds"))
        else ok (dedup (sort named)))
      ≡ ok ids
    → (dedup (sort named) ≡ ids) × (is_empty ids ≡ false)
finish_parse named ids h = elim (Bool-cases (is_empty (dedup (sort named)))) [
  | inl e ↦ absurd (cc (rw e at h))
  | inr e ↦ let same : dedup (sort named) ≡ ids = ground (arith, rw e at h) in (same, rw (← same) e)
]

past_guard {ℓ} :
    {A : Type ℓ} (t : Bool) (e : GatewayError) (r : Result A) {a : A}
    → (if t then err e else r) ≡ ok a
    → (t ≡ false) × (r ≡ ok a)
past_guard true e r h = cc
past_guard false e r h = (refl, h)

-- A successful `parse_member_agent_ids` returns the ids that the entries of `memberAgentIds` name,
-- trimmed and none of them empty, as a set in strictly ascending order, at least one.
pub parse_member_agent_ids-IsParsed :
    (args : Json) (ids : List Text) → parse_member_agent_ids args ≡ ok ids → IsParsed args ids
unfolding parse_member_agent_ids
parse_member_agent_ids-IsParsed args ids h =
    let (entries, given, h1) = and_then-eq-ok _ _ h in
    let (some_left, h2) = past_guard (is_empty entries) _ _ h1 in
    let (named, parsed, h3) = and_then-eq-ok _ _ h2 in
    let (same, some_entry) = finish_parse named ids h3 in
    record {
      entries = entries;
      given = ok_or-eq-ok _ _ given;
      named = named;
      names = parse_entries_sound entries named parsed;
      some_entry = some_entry;
      ascending = rw (← same) (dedup-IsAscending (sort named) (sort-IsSorted named));
      same_ids = λ id. sym (ap (has id) same) ∙ has-dedup id (sort named) ∙ has-sort id named;
    }
