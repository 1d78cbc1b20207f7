-- ===== src/Server/Task/Paths.antt =====
-- Which artifact paths Core accepts.
use uprava.Prelude.{
  ◌≤◌, ◌≡◌, refl, sym, ◌∙◌, inl, inr, Bool, true, false, ◌||◌, List, [], ◌∷◌, arith, Text, codes,
  text_eq, contains_text, trim, if◌then◌else◌, Bool-cases, length, is_empty, any, split, All,
  any-append,
}
use uprava.Node.Workspace.{components, inner_components, first_component, is_absolute}
use uprava.Node.Workspace.Paths.{skipped-not_dots}
use uprava.Server.Task.{
  refused_path, escaping_component, has_glob, validate_relative_evidence_path, validate_paths,
  max_task_path_chars,
}
use uprava.Server.Support.{AppError, Validated}

any-inner_components :
    (pieces : List Text)
    → any escaping_component (inner_components pieces) ≡ contains_text pieces (codes "..")
unfolding inner_components contains_text
any-inner_components [] = refl
any-inner_components (piece ∷ pieces) =
    elim (Bool-cases (is_empty piece || text_eq piece (codes "."))) [
      | inl skip ↦ rw (skip, skipped-not_dots piece skip) (any-inner_components pieces)
      | inr name ↦ elim (Bool-cases (text_eq piece (codes ".."))) [
        | inl up ↦ rw (name, up) refl
        | inr down ↦ rw (name, down) (any-inner_components pieces)
      ]
    ]

any-first_component : (pieces : List Text) → any escaping_component (first_component pieces) ≡ false
any-first_component [] = refl
any-first_component (piece ∷ pieces) = elim (Bool-cases (text_eq piece (codes "."))) [
  | inl e ↦ rw e refl
  | inr e ↦ rw e refl
]

any-components :
    (path : Text)
    → is_absolute path ≡ false
    → any escaping_component (components path) ≡ contains_text (split 47 path) (codes "..")
unfolding components
any-components path rel =
    rw
      (
        rel,
        any-append escaping_component (first_component (split 47 path))
            (inner_components (split 47 path)),
        any-first_component (split 47 path),
      )
      (any-inner_components (split 47 path))

-- A path that names something inside the work tree.
pub record Contained (path : Text) : Type 0 where
  pub given : is_empty (trim path) ≡ false
  pub bounded : length path ≤ max_task_path_chars
  pub relative : is_absolute path ≡ false
  pub inside : contains_text (split 47 path) (codes "..") ≡ false
  pub plain : has_glob path ≡ false

-- What passes a check has passed its condition and what comes behind it.
pub passed :
    (b : Bool) (e : AppError) (v : Validated)
    → (if b then inl e else v) ≡ inr tt
    → (b ≡ false) × (v ≡ inr tt)
passed true e v h = ground (arith, h)
passed false e v h = (refl, h)

pub passed_first :
    (v w : Validated) → elim v [ inl e ↦ inl e | inr ok ↦ w ] ≡ inr tt → (v ≡ inr tt) × (w ≡ inr tt)
passed_first (inl e) w h = ground (arith, h)
passed_first (inr ok) w h = (refl, h)

validate_relative_evidence_path-Contained :
    (path : Text) → validate_relative_evidence_path path ≡ inr tt → Contained path
unfolding validate_relative_evidence_path
validate_relative_evidence_path-Contained path h =
    let (ok, done) = passed (refused_path path) _ _ h in
    record {
      given = ground (arith, ok);
      bounded = ground (arith, ok);
      relative = ground (arith, ok);
      inside = sym (any-components path (ground (arith, ok))) ∙ ground (arith, ok);
      plain = ground (arith, ok);
    }

pub validate_paths-Contained :
    (paths : List Text) → validate_paths paths ≡ inr tt → All Contained paths
unfolding validate_paths
validate_paths-Contained [] h = tt
validate_paths-Contained (path ∷ paths) h =
    let (first, rest) =
      passed_first (validate_relative_evidence_path path) (validate_paths paths) h in
    (validate_relative_evidence_path-Contained path first, validate_paths-Contained paths rest)

pass_first :
    (v w : Validated) → v ≡ inr tt → w ≡ inr tt → elim v [ inl e ↦ inl e | inr ok ↦ w ] ≡ inr tt
pass_first (inl e) w h k = ground (arith, h)
pass_first (inr ok) w h k = k

Contained-accepted : (path : Text) → Contained path → validate_relative_evidence_path path ≡ inr tt
unfolding validate_relative_evidence_path
Contained-accepted path c =
    let inside = any-components path c.relative ∙ c.inside in
    let ok : refused_path path ≡ false =
      ground (arith, c.given, c.bounded, c.relative, inside, c.plain) in
    rw ok refl

pub paths-accepted : (paths : List Text) → All Contained paths → validate_paths paths ≡ inr tt
unfolding validate_paths
paths-accepted [] c = refl
paths-accepted (path ∷ paths) c =
    pass_first (validate_relative_evidence_path path) (validate_paths paths)
      (Contained-accepted path c.0) (paths-accepted paths c.1)
