-- ===== src/Node/Workspace/Paths.antt =====
-- Which paths stay inside the workspace.
use uprava.Prelude.{
  ◌≡◌, refl, sym, ap, ◌∙◌, subst, ◌⊎◌, inl, inr, Bool, true, false, ◌||◌, not, List, [], ◌∷◌, ◌++◌,
  arith, Text, codes, text_eq, contains_text, trim, text_eq_iff, if◌then◌else◌, Bool-cases,
  is_empty, retain, split,
}
use uprava.Node.Events.{WorkspaceInspectError}
use uprava.Node.Workspace.{
  Component, components, inner_components, first_component, is_absolute, path_escape, absolute_path,
  push_components, safe_workspace_relative_path,
}

-- A piece of a path that names an entry: it is neither empty nor `.`.
unfoldable pub names_entry : Text → Bool
names_entry piece = not (is_empty piece || text_eq piece (codes "."))

append_nil : (xs : List Text) → xs ++ [] ≡ xs
append_nil [] = refl
append_nil (x ∷ xs) = ap (λ t. x ∷ t) (append_nil xs)

append_one : (xs ys : List Text) (x : Text) → (xs ++ x ∷ []) ++ ys ≡ xs ++ x ∷ ys
append_one [] ys x = refl
append_one (z ∷ xs) ys x = ap (λ t. z ∷ t) (append_one xs ys x)

-- What the loop makes of the pieces.
outcome : List Text → List Text → WorkspaceInspectError ⊎ List Text
outcome acc pieces =
    if contains_text pieces (codes "..")
    then inl path_escape
    else inr (acc ++ retain names_entry pieces)

dots-names_entry : (piece : Text) → text_eq piece (codes "..") ≡ true → names_entry piece ≡ true
unfolding names_entry text_eq
dots-names_entry piece h = rw ((text_eq_iff piece (codes "..")).0 h) refl

pub skipped-not_dots :
    (piece : Text)
    → (is_empty piece || text_eq piece (codes ".")) ≡ true
    → text_eq piece (codes "..") ≡ false
unfolding names_entry
skipped-not_dots piece h = elim (Bool-cases (text_eq piece (codes ".."))) [
  | inl e ↦ ground (arith, h, dots-names_entry piece e)
  | inr e ↦ e
]

push_inner :
    (pieces acc : List Text) → push_components acc (inner_components pieces) ≡ outcome acc pieces
unfolding push_components inner_components contains_text names_entry outcome
push_inner [] acc = ap inr (sym (append_nil acc))
push_inner (piece ∷ pieces) acc = elim (Bool-cases (is_empty piece || text_eq piece (codes "."))) [
  | inl skip ↦ rw (skip, skipped-not_dots piece skip) (push_inner pieces acc)
  | inr name ↦ elim (Bool-cases (text_eq piece (codes ".."))) [
    | inl up ↦ rw (name, up) refl
    | inr down ↦
        rw (name, down)
          (push_inner pieces (acc ++ piece ∷ [])
            ∙ ap (λ t. if contains_text pieces (codes "..") then inl path_escape else inr t)
                (append_one acc (retain names_entry pieces) piece))
  ]
]

push_first :
    (pieces acc : List Text) (cs : List Component)
    → push_components acc (first_component pieces ++ cs) ≡ push_components acc cs
unfolding push_components
push_first [] acc cs = refl
push_first (piece ∷ pieces) acc cs = elim (Bool-cases (text_eq piece (codes "."))) [
  | inl e ↦ rw e refl
  | inr e ↦ rw e refl
]

safe_short :
    (s : Text)
    → (is_empty s || text_eq s (codes ".")) ≡ true
    → (is_absolute s ≡ false) × (outcome [] (split 47 s) ≡ inr [])
unfolding outcome split contains_text names_entry text_eq
safe_short [] h = (refl, refl)
safe_short (c ∷ s) h =
    let dot : c ∷ s ≡ codes "." = (text_eq_iff (c ∷ s) (codes ".")).0 (ground (arith, h)) in
    subst (λ x. (is_absolute x ≡ false) × (outcome [] (split 47 x) ≡ inr [])) (sym dot) (refl, refl)

safe_trimmed :
    (s : Text)
    → (if is_empty s || text_eq s (codes ".")
        then inr []
        else if is_absolute s
        then inl absolute_path
        else push_components [] (components s))
      ≡ (if is_absolute s then inl absolute_path else outcome [] (split 47 s))
unfolding components
safe_trimmed s = elim (Bool-cases (is_empty s || text_eq s (codes "."))) [
  | inl short ↦ rw (short, (safe_short s short).0) (sym (safe_short s short).1)
  | inr long ↦ elim (Bool-cases (is_absolute s)) [
    | inl root ↦ rw (long, root) refl
    | inr rel ↦
        rw (long, rel)
          (push_first (split 47 s) [] (inner_components (split 47 s)) ∙ push_inner (split 47 s) [])
  ]
]

-- A path of the workspace inspector is refused exactly if it is absolute or if one of its pieces
-- between slashes, after the white space around the path is dropped, is `..`. Otherwise it is the
-- list of its pieces without the empty ones and without `.`.
pub safe_workspace_relative_path_lem :
    (path : Text)
    → safe_workspace_relative_path path ≡ (
        if is_absolute (trim path)
        then inl absolute_path
        else if contains_text (split 47 (trim path)) (codes "..")
        then inl path_escape
        else inr (retain names_entry (split 47 (trim path))))
unfolding safe_workspace_relative_path outcome
safe_workspace_relative_path_lem path = safe_trimmed (trim path)
