-- ===== src/Server/Publication/Values.antt =====
-- The values of an optional column, their maximum, and ascending lists of them.
use uprava.Prelude.{
  false-true, zero, suc, ◌≡◌, refl, sym, ap, ◌∙◌, subst, Option, none, some, List, [], ◌∷◌, ◌++◌,
  arith, unwrap_or, is_some, i64_max, All, All-append, maxℤ, ◌≤ℤ◌, ◌<ℤ◌, maxℤ-ge_left,
  maxℤ-ge_right, ℤ, pos, negsuc, i64_succ,
}
use uprava.Server.Tables.{max_value, greater}

abbrev pub with_value : Option ℤ → List ℤ → List ℤ
with_value none ns = ns
with_value (some n) ns = n ∷ ns

-- The values of the rows that have one.
unfoldable pub values {ℓ} : {A : Type ℓ} → (A → Option ℤ) → List A → List ℤ
values f [] = []
values f (x ∷ xs) = with_value (f x) (values f xs)

abbrev pub Ascending : List ℤ → Type 0
Ascending [] = Unit
Ascending (n ∷ ns) = All (λ m. n <ℤ m) ns × Ascending ns

pub Ascending-append_one :
    (ns : List ℤ) (n : ℤ) → Ascending ns → All (λ m. m <ℤ n) ns → Ascending (ns ++ n ∷ [])
Ascending-append_one [] n h k = (tt, tt)
Ascending-append_one (m ∷ ns) n h k =
    (All-append (λ i. m <ℤ i) ns (n ∷ []) h.0 (k.0, tt), Ascending-append_one ns n h.1 k.1)

pub ++-nil : (ns : List ℤ) → ns ++ [] ≡ ns
++-nil [] = refl
++-nil (n ∷ ns) = ap (λ l. n ∷ l) (++-nil ns)

with_value-append :
    (o : Option ℤ) (ns ms : List ℤ) → with_value o (ns ++ ms) ≡ with_value o ns ++ ms
with_value-append none ns ms = refl
with_value-append (some n) ns ms = refl

pub values-append {ℓ} :
    {A : Type ℓ} (f : A → Option ℤ) (xs ys : List A)
    → values f (xs ++ ys) ≡ values f xs ++ values f ys
unfolding values
values-append f [] ys = refl
values-append f (x ∷ xs) ys =
    ap (with_value (f x)) (values-append f xs ys)
    ∙ with_value-append (f x) (values f xs) (values f ys)

All-weaken_le : (a b : ℤ) (ns : List ℤ) → a ≤ℤ b → All (λ n. n ≤ℤ a) ns → All (λ n. n ≤ℤ b) ns
All-weaken_le a b [] h k = tt
All-weaken_le a b (n ∷ ns) h k = (omega (arith, h, k.0), All-weaken_le a b ns h k.1)

greater-bounds :
    (o rest : Option ℤ) (d : ℤ) (ns : List ℤ)
    → All (λ n. n ≤ℤ unwrap_or rest d) ns
    → (rest ≡ none → ns ≡ [])
    → All (λ n. n ≤ℤ unwrap_or (greater o rest) d) (with_value o ns)
greater-bounds none rest d ns h e = h
greater-bounds (some n) none d ns h e = (omega arith, subst (All (λ m. m ≤ℤ n)) (sym (e refl)) tt)
greater-bounds (some n) (some m) d ns h e =
    (maxℤ-ge_left n m, All-weaken_le m (maxℤ n m) ns (maxℤ-ge_right n m) h)

greater-none :
    (o rest : Option ℤ) (ns : List ℤ)
    → (rest ≡ none → ns ≡ [])
    → greater o rest ≡ none
    → with_value o ns ≡ []
greater-none none rest ns h e = h e
greater-none (some n) none ns h e = absurd (false-true (ap is_some (sym e)))
greater-none (some n) (some m) ns h e = absurd (false-true (ap is_some (sym e)))

max_value-none {ℓ} :
    {A : Type ℓ} (f : A → Option ℤ) (xs : List A) → max_value f xs ≡ none → values f xs ≡ []
unfolding values max_value
max_value-none f [] h = refl
max_value-none f (x ∷ xs) h =
    greater-none (f x) (max_value f xs) (values f xs) (max_value-none f xs) h

-- No value is greater than the maximum, if there is one.
pub values-max_value {ℓ} :
    {A : Type ℓ} (f : A → Option ℤ) (xs : List A) (d : ℤ)
    → All (λ n. n ≤ℤ unwrap_or (max_value f xs) d) (values f xs)
unfolding values max_value
values-max_value f [] d = tt
values-max_value f (x ∷ xs) d =
    greater-bounds (f x) (max_value f xs) d (values f xs) (values-max_value f xs d)
      (max_value-none f xs)

<ℤ-i64_succ : (n m : ℤ) → n ≤ℤ m → m <ℤ pos i64_max → n <ℤ i64_succ m
<ℤ-i64_succ n (pos m) h k = ground (arith, h, k)
<ℤ-i64_succ n (negsuc zero) h k = ground (arith, h, k)
<ℤ-i64_succ n (negsuc (suc m)) h k = ground (arith, h, k)

pub next-greater :
    (ns : List ℤ) (m : ℤ) → All (λ n. n ≤ℤ m) ns → m <ℤ pos i64_max → All (λ n. n <ℤ i64_succ m) ns
next-greater [] m h k = tt
next-greater (n ∷ ns) m h k = (<ℤ-i64_succ n m h.0 k, next-greater ns m h.1 k)

abbrev pub Below : ℤ → Type 0
Below n = n <ℤ pos i64_max

maxℤ-Below : (n m : ℤ) → Below n → Below m → Below (maxℤ n m)
maxℤ-Below n m h k = ground (arith, h, k)

greater-Below :
    (o rest : Option ℤ) (ns : List ℤ)
    → All Below (with_value o ns)
    → (All Below ns → Below (unwrap_or rest (pos 0)))
    → Below (unwrap_or (greater o rest) (pos 0))
greater-Below none rest ns h k = k h
greater-Below (some n) none ns h k = h.0
greater-Below (some n) (some m) ns h k = maxℤ-Below n m h.0 (k h.1)

pub max_value-Below {ℓ} :
    {A : Type ℓ} (f : A → Option ℤ) (xs : List A)
    → All Below (values f xs)
    → Below (unwrap_or (max_value f xs) (pos 0))
unfolding values max_value
max_value-Below f [] h = omega arith
max_value-Below f (x ∷ xs) h =
    greater-Below (f x) (max_value f xs) (values f xs) h (max_value-Below f xs)

pub All-append_left : (ns ms : List ℤ) → All Below (ns ++ ms) → All Below ns
All-append_left [] ms h = tt
All-append_left (n ∷ ns) ms h = (h.0, All-append_left ns ms h.1)
