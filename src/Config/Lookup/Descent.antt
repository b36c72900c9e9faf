-- ===== src/Config/Lookup/Descent.antt =====
-- Without included files a lookup is a descent along the names. (config_parser.c)
use open_tube_engine_old.Base.{
  ℕ, ◌≡◌, ◌≢◌, refl, sym, ap, ◌∙◌, subst, true, false, List, [], ◌∷◌, Option, none, some, arith,
  inl, inr, Bool-cases,
}
use open_tube_engine_old.Http.Chars.{Bytes}
use open_tube_engine_old.Http.Headers.{equal_bytes}
use open_tube_engine_old.Http.Headers.Scans.{equal_bytes-eq, equal_bytes_refl}
use open_tube_engine_old.Config.Setting.{
  Setting, setting, Value, unset, string, bool, int, int64, float, group, Settings, nil, cons,
  childs, setting_name, setting_value, config_find_child_by_name,
}
use open_tube_engine_old.Config.Lookup.{
  is_include, Next, go_on, choose, round, search_value, search_included, unless_empty,
  config_lookup_relative, config_lookup,
}
use open_tube_engine_old.Config.Lookup.Dotted.{dotted, IsSegment, AreSegments, segments-dotted}

-- No child of a setting, at any depth, is an included file.
unfoldable mutual
  pub HasNoInclude : Setting → Type 0
  HasNoInclude (setting n l v) = ValueHasNoInclude v

  pub ValueHasNoInclude : Value → Type 0
  ValueHasNoInclude unset = Unit {0}
  ValueHasNoInclude (string s) = Unit {0}
  ValueHasNoInclude (bool b) = Unit {0}
  ValueHasNoInclude (int n) = Unit {0}
  ValueHasNoInclude (int64 n) = Unit {0}
  ValueHasNoInclude (float n) = Unit {0}
  ValueHasNoInclude (group l) = HaveNoInclude l

  pub HaveNoInclude : Settings → Type 0
  HaveNoInclude nil = Unit {0}
  HaveNoInclude (cons x l) = (is_include x ≡ false) × HasNoInclude x × HaveNoInclude l

-- The first of the settings with the name, where there is one.
pub data FirstNamed (name : Bytes) : Settings → Option Setting → Type 0 where
  missing : FirstNamed name nil none
  here : {x : Setting} {l : Settings} → setting_name x ≡ name → FirstNamed name (cons x l) (some x)
  later :
      {x : Setting} {l : Settings} {r : Option Setting}
      → setting_name x ≢ name
      → FirstNamed name l r
      → FirstNamed name (cons x l) r

-- The reference: from a setting to the first child with the name, and on from there.
pub data Descends : Setting → Bytes → List Bytes → Option Setting → Type 0 where
  arrives :
      {s : Setting} {name : Bytes} {r : Option Setting}
      → FirstNamed name (childs (setting_value s)) r
      → Descends s name [] r
  lost :
      {s : Setting} {name m : Bytes} {more : List Bytes}
      → FirstNamed name (childs (setting_value s)) none
      → Descends s name (m ∷ more) none
  goes_on :
      {s x : Setting} {name m : Bytes} {more : List Bytes} {r : Option Setting}
      → FirstNamed name (childs (setting_value s)) (some x)
      → Descends x m more r
      → Descends s name (m ∷ more) r

find_child-FirstNamed :
    (l : Settings) (name : Bytes) → FirstNamed name l (config_find_child_by_name l name)
unfolding config_find_child_by_name
find_child-FirstNamed nil name = missing
find_child-FirstNamed (cons x l) name = elim (Bool-cases (equal_bytes name (setting_name x))) [
  | inl same ↦ rw same (here (sym (equal_bytes-eq name (setting_name x) same)))
  | inr other ↦ rw other (
      later
        (λ e. absurd (
          let t : equal_bytes name (setting_name x) ≡ true = rw e (equal_bytes_refl name) in
          ground (arith, other)))
        (find_child-FirstNamed l name))
]

-- The same by the code's search, for the proofs.
unfoldable descend : Setting → Bytes → List Bytes → Option Setting
descend s name [] = config_find_child_by_name (childs (setting_value s)) name
descend s name (m ∷ more) = elim (config_find_child_by_name (childs (setting_value s)) name) [
  | none ↦ none
  | some x ↦ descend x m more
]

search_included-none :
    (name : Bytes) (next : Next) (l : Settings)
    → HaveNoInclude l
    → search_included name next none l ≡ none
unfolding search_included HaveNoInclude
search_included-none name next nil h = refl
search_included-none name next (cons (setting [] k v) l) h =
    absurd (let e : true ≡ false = h.0 in ground arith)
search_included-none name next (cons (setting (c ∷ n) k v) l) h =
    search_included-none name next l h.2

search_value-none :
    (name : Bytes) (next : Next) (v : Value)
    → ValueHasNoInclude v
    → search_value name next none v ≡ none
unfolding search_value HaveNoInclude
search_value-none name next unset h = refl
search_value-none name next (string s) h = refl
search_value-none name next (bool b) h = refl
search_value-none name next (int n) h = refl
search_value-none name next (int64 n) h = refl
search_value-none name next (float n) h = refl
search_value-none name next (group l) h = search_included-none name next l h

find_child-HasNoInclude :
    (l : Settings) (name : Bytes) (x : Setting)
    → HaveNoInclude l
    → config_find_child_by_name l name ≡ some x
    → HasNoInclude x
unfolding config_find_child_by_name HaveNoInclude
find_child-HasNoInclude nil name x h e = cc
find_child-HasNoInclude (cons y l) name x h e =
    elim (Bool-cases (equal_bytes name (setting_name y))) [
      | inl same ↦
          let e' : some y ≡ some x = rw same at e in
          subst HasNoInclude (let e'' : y ≡ x = cc in e'') h.1
      | inr other ↦
          find_child-HasNoInclude l name x h.2
            (let e' : config_find_child_by_name l name ≡ some x = rw other at e in e')
    ]

childs-HaveNoInclude : (v : Value) → ValueHasNoInclude v → HaveNoInclude (childs v)
unfolding HaveNoInclude
childs-HaveNoInclude unset h = tt
childs-HaveNoInclude (string s) h = tt
childs-HaveNoInclude (bool b) h = tt
childs-HaveNoInclude (int n) h = tt
childs-HaveNoInclude (int64 n) h = tt
childs-HaveNoInclude (float n) h = tt
childs-HaveNoInclude (group l) h = h

choose-none : (next : Next) (o : Option Setting) → choose next none o none ≡ go_on next none o
choose-none next none = refl
choose-none next (some x) = refl

-- A round takes the child with the name.
round-found :
    (name : Bytes) (next : Next) (n : Bytes) (l : ℕ) (v : Value)
    → ValueHasNoInclude v
    → round name next none (setting n l v)
      ≡ go_on next none (config_find_child_by_name (childs v) name)
unfolding round
round-found name next n l v h =
    ap (choose next none (config_find_child_by_name (childs v) name))
      (search_value-none name next v h)
    ∙ choose-none next (config_find_child_by_name (childs v) name)

not_empty-name : (name : Bytes) (r : Option Setting) → IsSegment name → unless_empty name r ≡ r
not_empty-name [] r v = absurd (let e : [] ≡ v.first ∷ v.more = v.not_empty in cc)
not_empty-name (c ∷ name) r v = refl

go_on-last : (o : Option Setting) → go_on none none o ≡ o
go_on-last none = refl
go_on-last (some x) = refl

go_on-more :
    (m : Bytes) (more : List Bytes) (o : Option Setting)
    → ((x : Setting) → o ≡ some x → config_lookup_relative (m ∷ more) none x ≡ descend x m more)
    → go_on (some (config_lookup_relative (m ∷ more))) none o
      ≡ elim o [ none ↦ none | some x ↦ descend x m more ]
go_on-more m more none h = refl
go_on-more m more (some x) h = h x refl

relative-descend :
    (name : Bytes) (more : List Bytes) (s : Setting)
    → AreSegments name more
    → HasNoInclude s
    → config_lookup_relative (name ∷ more) none s ≡ descend s name more
unfolding config_lookup_relative descend HasNoInclude
relative-descend name [] (setting n l v) h free =
    not_empty-name name _ h
    ∙ round-found name none n l v free
    ∙ go_on-last (config_find_child_by_name (childs v) name)
relative-descend name (m ∷ more) (setting n l v) h free =
    not_empty-name name _ h.0
    ∙ round-found name (some (config_lookup_relative (m ∷ more))) n l v free
    ∙ go_on-more m more (config_find_child_by_name (childs v) name) (λ x e.
      relative-descend m more x h.1
        (find_child-HasNoInclude (childs v) name x (childs-HaveNoInclude v free) e))

descend_step :
    (s : Setting) (name m : Bytes) (more : List Bytes) (o : Option Setting)
    → FirstNamed name (childs (setting_value s)) o
    → ((x : Setting) → Descends x m more (descend x m more))
    → Descends s name (m ∷ more) (elim o [ none ↦ none | some x ↦ descend x m more ])
descend_step s name m more none first rest = lost first
descend_step s name m more (some x) first rest = goes_on first (rest x)

descend-Descends :
    (name : Bytes) (more : List Bytes) (s : Setting) → Descends s name more (descend s name more)
unfolding descend
descend-Descends name [] s = arrives (find_child-FirstNamed (childs (setting_value s)) name)
descend-Descends name (m ∷ more) s =
    descend_step s name m more (config_find_child_by_name (childs (setting_value s)) name)
      (find_child-FirstNamed (childs (setting_value s)) name) (descend-Descends m more)

-- In a tree without included files, `config_lookup` of names with dots between them, none of them
-- empty and none with a dot of its own, gives where the descent along the names arrives: at each
-- name the first child with exactly that name, and NULL where there is none.
pub config_lookup-Descends :
    (name : Bytes) (more : List Bytes) (root : Setting)
    → AreSegments name more
    → HasNoInclude root
    → Descends root name more (config_lookup root (dotted name more))
unfolding config_lookup
config_lookup-Descends name more root h free =
    subst (Descends root name more)
      (sym (
        ap (λ p. config_lookup_relative p none root) (segments-dotted name more h)
        ∙ relative-descend name more root h free))
      (descend-Descends name more root)
