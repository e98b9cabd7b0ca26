-- ===== src/Core/Paths/Within.antt =====
-- The paths of SafeDownloadPath and SafeSaveDir in internal/core/downloader.go lie in their root.
use lunefetch.Base.{
  ◌==◌, ◌≡◌, refl, sym, ap, ◌∙◌, subst, if◌then◌else◌, [], ◌∷◌, ◌++◌, Option, none, some, Bool,
  true, false, ◌&&◌, ◌||◌, All, All-append, arith, Bool-cases, inl, inr, ==_refl,
}
use lunefetch.Core.Names.{Text, same_text, dot, dot_dot, any_of}
use lunefetch.Core.Paths.{
  Components, parent, enter, clean_from, components, is_abs, from_cwd, abs, rel, escapes, confined,
  is_blank, safe_save_dir,
}

pub same_refl : (t : Text) → same_text t t ≡ true
unfolding same_text
same_refl [] = refl
same_refl (c ∷ cs) = rw (==_refl c) (same_refl cs)

same_eq : (t u : Text) → same_text t u ≡ true → t ≡ u
unfolding same_text
same_eq [] [] h = refl
same_eq [] (d ∷ ds) h = cc
same_eq (c ∷ cs) [] h = cc
same_eq (c ∷ cs) (d ∷ ds) h = ground (arith, same_eq cs ds)

-- A component other than "", "." and "..".
abbrev pub IsPlain : Text → Type 0
IsPlain c = (same_text c [] || same_text c dot || same_text c dot_dot) ≡ false

parent-IsPlain : (cs : Components) → All IsPlain cs → All IsPlain (parent cs)
unfolding parent
parent-IsPlain [] h = tt
parent-IsPlain (c ∷ []) h = tt
parent-IsPlain (c ∷ d ∷ cs) h = (h.0, parent-IsPlain (d ∷ cs) h.1)

clean_from-IsPlain : (done cs : Components) → All IsPlain done → All IsPlain (clean_from done cs)
unfolding clean_from
clean_from-IsPlain done [] h = h
clean_from-IsPlain done (c ∷ cs) h = clean_from-IsPlain (enter done c) cs entered
  where
    entered : All IsPlain (enter done c)
    entered = elim (Bool-cases (same_text c [] || same_text c dot)) [
      | inl skipped ↦ rw skipped h
      | inr new ↦ elim (Bool-cases (same_text c dot_dot)) [
        | inl up ↦ rw (new, up) (parent-IsPlain done h)
        | inr down ↦
            rw (new, down) (All-append IsPlain done (c ∷ []) h (ground (arith, new, down), tt))
      ]
    ]

abs-IsPlain :
    (cwd : Option Text) (path : Text) (d : Components) → abs cwd path ≡ some d → All IsPlain d
unfolding abs
abs-IsPlain cwd path d h = elim (Bool-cases (is_abs path)) [
  | inl rooted ↦
      subst (All IsPlain) (cc (rw rooted at h)) (clean_from-IsPlain [] (components path) tt)
  | inr local ↦ relative cwd (rw local at h)
]
  where
    relative : (o : Option Text) → from_cwd o path ≡ some d → All IsPlain d
    relative none e = cc
    relative (some dir) e =
        subst (All IsPlain) (cc e) (clean_from-IsPlain [] (components dir ++ components path) tt)

pub rel-append : (r rest : Components) → rel r (r ++ rest) ≡ rest
unfolding rel
rel-append [] rest = refl
rel-append (b ∷ bs) rest = rw (same_refl b) (rel-append bs rest)

-- A relative path that does not begin with ".." goes down.
rel-inside : (r d : Components) → escapes (rel r d) ≡ false → (rest : Components) × (d ≡ r ++ rest)
unfolding rel
rel-inside [] d h = (d, refl)
rel-inside (b ∷ bs) [] h = cc (sym (same_refl dot_dot) ∙ h)
rel-inside (b ∷ bs) (t ∷ ts) h = elim (Bool-cases (same_text b t)) [
  | inl same ↦
      let (rest, e) = rel-inside bs ts (rw same at h) in
      (rest, ap (λ c. c ∷ ts) (sym (same_eq b t same)) ∙ ap (λ cs. b ∷ cs) e)
  | inr other ↦ cc (sym (same_refl dot_dot) ∙ rw other at h)
]

pub escapes-plain : (cs : Components) → All IsPlain cs → escapes cs ≡ false
escapes-plain [] h = refl
escapes-plain (c ∷ cs) h = ground (arith, h.0)

All-drop : (r rest : Components) → All IsPlain (r ++ rest) → All IsPlain rest
All-drop [] rest h = h
All-drop (c ∷ cs) rest h = All-drop cs rest h.1

confined-append :
    (r rest : Components)
    → All IsPlain (r ++ rest)
    → confined r (some (r ++ rest)) ≡ some (r ++ rest)
confined-append r rest h = rw (rel-append r rest, escapes-plain rest (All-drop r rest h))

-- Whether a path begins with the components of another.
abbrev pub starts_with : Components → Components → Bool
starts_with [] d = true
starts_with (b ∷ bs) [] = false
starts_with (b ∷ bs) (t ∷ ts) = same_text b t && starts_with bs ts

starts_with-append : (r rest : Components) → starts_with r (r ++ rest) ≡ true
starts_with-append [] rest = refl
starts_with-append (b ∷ bs) rest = rw (same_refl b) (starts_with-append bs rest)

append-starts_with :
    (r d : Components) → starts_with r d ≡ true → (rest : Components) × (d ≡ r ++ rest)
append-starts_with [] d h = (d, refl)
append-starts_with (b ∷ bs) [] h = cc
append-starts_with (b ∷ bs) (t ∷ ts) h = elim (Bool-cases (same_text b t)) [
  | inl same ↦
      let (rest, e) = append-starts_with bs ts (rw same at h) in
      (rest, ap (λ c. c ∷ ts) (sym (same_eq b t same)) ∙ ap (λ cs. b ∷ cs) e)
  | inr other ↦ cc (rw other at h)
]

abbrev pub below_only : Components → Option Components → Option Components
below_only r none = none
below_only r (some d) = if starts_with r d then some d else none

confined_lem :
    (r : Components) (o : Option Components)
    → ((d : Components) → o ≡ some d → All IsPlain d)
    → confined r o ≡ below_only r o
confined_lem r none plain = refl
confined_lem r (some d) plain = elim (Bool-cases (starts_with r d)) [
  | inl below ↦
      let (rest, e) = append-starts_with r d below in
      rw below (
        subst (λ c. confined r (some c) ≡ some c) (sym e)
          (confined-append r rest (subst (All IsPlain) e (plain d refl))))
  | inr beside ↦ elim (Bool-cases (escapes (rel r d))) [
    | inl leaves ↦ rw (beside, leaves)
    | inr stays ↦
        let (rest, e) = rel-inside r d stays in
        cc (sym (starts_with-append r rest) ∙ ap (starts_with r) (sym e) ∙ beside)
  ]
]

abbrev pub AllPlain : Option Components → Type 0
AllPlain none = Unit
AllPlain (some d) = All IsPlain d

below_only-AllPlain :
    (r : Components) (o : Option Components)
    → ((d : Components) → o ≡ some d → All IsPlain d)
    → AllPlain (below_only r o)
below_only-AllPlain r none plain = tt
below_only-AllPlain r (some d) plain = elim (Bool-cases (starts_with r d)) [
  | inl below ↦ rw below (plain d refl)
  | inr beside ↦ rw beside tt
]

-- For a root that resolves to `r`: SafeSaveDir answers `r` for a blank directory, nothing for one with
-- NUL, and else the directory as it resolves, if it begins with the components of `r`, and nothing
-- otherwise; no component of what it answers is empty, "." or "..".
pub safe_save_dir-IsWithin :
    (cwd : Option Text) (root dir : Text) (r : Components)
    → abs cwd root ≡ some r
    → (safe_save_dir cwd root dir ≡ (
        if is_blank dir
        then some r
        else if any_of (λ c. c == 0) dir
        then none
        else below_only r (abs cwd dir)))
      × AllPlain (safe_save_dir cwd root dir)
unfolding safe_save_dir
safe_save_dir-IsWithin cwd root dir r at_r =
    let resolved : confined r (abs cwd dir) ≡ below_only r (abs cwd dir) =
      confined_lem r (abs cwd dir) (λ d e. abs-IsPlain cwd dir d e) in
    elim (Bool-cases (is_blank dir)) [
      | inl blank ↦ rw (at_r, blank) (refl, abs-IsPlain cwd root r at_r)
      | inr given ↦ elim (Bool-cases (any_of (λ c. c == 0) dir)) [
        | inl nul ↦ rw (at_r, given, nul) (refl, tt)
        | inr clear ↦
            rw (at_r, given, clear)
              (
                resolved,
                subst AllPlain (sym resolved)
                    (below_only-AllPlain r (abs cwd dir) (λ d e. abs-IsPlain cwd dir d e)),
              )
      ]
    ]
