-- ===== src/Server/Rows.antt =====
-- Lemmas on the statements that select and update rows.
use uprava.Prelude.{
  some_value, ◌≡◌, refl, ap, ◌∙◌, subst, inl, inr, Bool, true, false, some, List, [], ◌∷◌, map,
  arith, if◌then◌else◌, Bool-cases, is_some, retain, any, All,
}
use uprava.Server.Tables.{select_one, update_where}

pub retain-update_where :
    {A : Type 0} (q p : A → Bool) (f : A → A) (xs : List A)
    → ((x : A) → p x ≡ true → (q x ≡ false) × (q (f x) ≡ false))
    → retain q (update_where p f xs) ≡ retain q xs
unfolding update_where
retain-update_where q p f [] h = refl
retain-update_where q p f (x ∷ xs) h = elim (Bool-cases (p x)) [
  | inl e ↦ rw (e, (h x e).0, (h x e).1) (retain-update_where q p f xs h)
  | inr e ↦ rw (e, retain-update_where q p f xs h) refl
]

pub map-update_where :
    {A B : Type 0} (k : A → B) (p : A → Bool) (f : A → A) (xs : List A)
    → ((x : A) → k (f x) ≡ k x)
    → map k (update_where p f xs) ≡ map k xs
unfolding update_where
map-update_where k p f [] h = refl
map-update_where k p f (x ∷ xs) h = elim (Bool-cases (p x)) [
  | inl e ↦ rw (e, h x, map-update_where k p f xs h) refl
  | inr e ↦ rw (e, map-update_where k p f xs h) refl
]

pub All-retain-update_where :
    {A : Type 0} (P : A → Type 0) (q p : A → Bool) (f : A → A) (rows : List A)
    → ((r : A) → q (f r) ≡ q r)
    → ((r : A) → q r ≡ true → p r ≡ false → P r)
    → ((r : A) → p r ≡ true → P (f r))
    → All P (retain q (update_where p f rows))
unfolding update_where
All-retain-update_where P q p f [] keeps stays moved = tt
All-retain-update_where P q p f (r ∷ rows) keeps stays moved =
    let rest = All-retain-update_where P q p f rows keeps stays moved in
    elim (Bool-cases (p r)) [
      | inl e ↦ elim (Bool-cases (q r)) [
        | inl c ↦ rw (e, keeps r, c) (moved r e, rest)
        | inr c ↦ rw (e, keeps r, c) rest
      ]
      | inr e ↦ elim (Bool-cases (q r)) [
        | inl c ↦ rw (e, c) (stays r c e, rest)
        | inr c ↦ rw (e, c) rest
      ]
    ]

pub All-weaken {ℓ} :
    {A : Type ℓ} {P Q : A → Type 0} (xs : List A) → ((x : A) → P x → Q x) → All P xs → All Q xs
All-weaken [] f h = tt
All-weaken (x ∷ xs) f h = (f x h.0, All-weaken xs f h.1)

pub select_one-any {ℓ} :
    {A : Type ℓ} (p : A → Bool) (xs : List A) → any p xs ≡ is_some (select_one p xs)
unfolding select_one
select_one-any p [] = refl
select_one-any p (x ∷ xs) = elim (Bool-cases (p x)) [
  | inl e ↦ rw e refl
  | inr e ↦ rw e (select_one-any p xs)
]

pub select_one-All {ℓ} :
    {A : Type ℓ} (P : A → Type 0) (p : A → Bool) (xs : List A) (x : A)
    → All P xs
    → select_one p xs ≡ some x
    → P x
unfolding select_one
select_one-All P p [] x h e = grind arith
select_one-All P p (y ∷ ys) x h e = elim (Bool-cases (p y)) [
  | inl b ↦
      subst P (some_value y x (subst (λ c. (if c then some y else select_one p ys) ≡ some x) b e))
        h.0
  | inr b ↦
      select_one-All P p ys x h.1
        (subst (λ c. (if c then some y else select_one p ys) ≡ some x) b e)
]

pub any-update_where :
    {A : Type 0} (p q : A → Bool) (f : A → A) (rows : List A)
    → ((r : A) → p (f r) ≡ p r)
    → any p (update_where q f rows) ≡ any p rows
unfolding update_where
any-update_where p q f [] keeps = refl
any-update_where p q f (r ∷ rows) keeps = elim (Bool-cases (q r)) [
  | inl e ↦ rw (e, keeps r, any-update_where p q f rows keeps) refl
  | inr e ↦ rw (e, any-update_where p q f rows keeps) refl
]

pub All-update_where :
    {A : Type 0} (P : A → Type 0) (q : A → Bool) (f : A → A) (rows : List A)
    → ((r : A) → P r → P (f r))
    → All P rows
    → All P (update_where q f rows)
unfolding update_where
All-update_where P q f [] keeps h = tt
All-update_where P q f (r ∷ rows) keeps h = elim (Bool-cases (q r)) [
  | inl e ↦ rw e (keeps r h.0, All-update_where P q f rows keeps h.1)
  | inr e ↦ rw e (h.0, All-update_where P q f rows keeps h.1)
]

pub All-retain :
    {A : Type 0} (P : A → Type 0) (p : A → Bool) (rows : List A)
    → All P rows
    → All P (retain p rows)
All-retain P p [] h = tt
All-retain P p (r ∷ rows) h = elim (Bool-cases (p r)) [
  | inl e ↦ rw e (h.0, All-retain P p rows h.1)
  | inr e ↦ rw e (All-retain P p rows h.1)
]

pub select_one-update_where :
    {A : Type 0} (q p : A → Bool) (f : A → A) (rows : List A) (row : A)
    → ((r : A) → q (f r) ≡ q r)
    → p row ≡ false
    → select_one q rows ≡ some row
    → select_one q (update_where p f rows) ≡ some row
unfolding select_one update_where
select_one-update_where q p f [] row keeps still h = h
select_one-update_where q p f (r ∷ rows) row keeps still h = elim (Bool-cases (q r)) [
  | inl c ↦
      let here =
        some_value r row (subst (λ b. (if b then some r else select_one q rows) ≡ some row) c h) in
      rw (ap p here ∙ still, c) (ap some here)
  | inr c ↦
      let rest = subst (λ b. (if b then some r else select_one q rows) ≡ some row) c h in
      let more = select_one-update_where q p f rows row keeps still rest in
      elim (Bool-cases (p r)) [ inl e ↦ rw (e, keeps r, c) more | inr e ↦ rw (e, c) more ]
]
