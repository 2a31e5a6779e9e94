-- ===== src/Run.antt =====
-- Calls that may throw. `out_of_range` is what `at` throws on a vector or a deque, `network` what asio
-- throws where no error code is asked for.
use aegis_proxy.Common.{
  length-set, ℕ, zero, suc, ◌<◌, ◌≡◌, refl, ap, subst, Bool, true, false, if◌then◌else◌, ◌⊎◌, inl,
  inr, List, [], ◌∷◌, some, arith, length, get_elem?, set,
}

pub data Exception : Type 0 where
  out_of_range network : Exception

pub data Run {ℓ} (A : Type ℓ) : Type ℓ where
  ok : A → Run A
  throw : Exception → Run A

infixl 5 ◌>>=◌
abbrev pub ◌>>=◌ {ℓ κ} : {A : Type ℓ} {B : Type κ} → Run A → (A → Run B) → Run B
ok a >>= f = f a
throw e >>= f = throw e

module _ {ℓ} {A : Type ℓ} where
  -- `xs.at(i)`.
  unfoldable pub at : List A → ℕ → Run A
  at [] i = throw out_of_range
  at (x ∷ xs) zero = ok x
  at (x ∷ xs) (suc i) = at xs i

  -- `xs.at(i)` as the target of a write.
  unfoldable pub update : List A → ℕ → (A → A) → Run (List A)
  update [] i f = throw out_of_range
  update (x ∷ xs) zero f = ok (f x ∷ xs)
  update (x ∷ xs) (suc i) f = do ys ← update xs i f; ok (x ∷ ys)

  pub at-get_elem? : (xs : List A) (i : ℕ) (x : A) → get_elem? xs i ≡ some x → at xs i ≡ ok x
  unfolding at
  at-get_elem? [] i x h = cc
  at-get_elem? (y ∷ xs) zero x h = ground arith
  at-get_elem? (y ∷ xs) (suc i) x h = at-get_elem? xs i x h

  pub update-set :
      (xs : List A) (i : ℕ) (f : A → A) (x : A)
      → get_elem? xs i ≡ some x
      → update xs i f ≡ ok (set xs i (f x))
  unfolding update
  update-set [] i f x h = cc
  update-set (y ∷ xs) zero f x h = ground arith
  update-set (y ∷ xs) (suc i) f x h = rw (update-set xs i f x h)

  pub in_range : (xs : List A) (i : ℕ) → i < length xs → (x : A) × (get_elem? xs i ≡ some x)
  in_range [] i h = absurd (omega arith)
  in_range (x ∷ xs) zero h = (x, refl)
  in_range (x ∷ xs) (suc i) h = in_range xs i (omega arith)

-- What a run gives, if it does not throw.
abbrev pub Ensures {ℓ κ} : {A : Type ℓ} → (A → Type κ) → Run A → Type κ
Ensures P (ok a) = P a
Ensures P (throw e) = Unit

pub Ensures-bind {ℓ κ μ} :
    {A : Type ℓ} {B : Type κ} (P : B → Type μ) (m : Run A) (f : A → Run B)
    → ((a : A) → m ≡ ok a → Ensures P (f a))
    → Ensures P (m >>= f)
Ensures-bind P (ok a) f h = h a refl
Ensures-bind P (throw e) f h = tt

pub Ensures-ok {ℓ κ} :
    {A : Type ℓ} (P : A → Type κ) (m : Run A) {a : A} → Ensures P m → m ≡ ok a → P a
Ensures-ok P m h e = subst (Ensures P) e h

pub Ensures-map {ℓ κ μ} :
    {A : Type ℓ} (P : A → Type κ) (Q : A → Type μ) (m : Run A)
    → ((a : A) → P a → Q a)
    → Ensures P m
    → Ensures Q m
Ensures-map P Q (ok a) f h = f a h
Ensures-map P Q (throw e) f h = tt

pub Run-cases {ℓ} :
    {A : Type ℓ} (m : Run A) → ((a : A) × (m ≡ ok a)) ⊎ ((e : Exception) × (m ≡ throw e))
Run-cases (ok a) = inl (a, refl)
Run-cases (throw e) = inr (e, refl)

pub Ensures-if {ℓ κ} :
    {A : Type ℓ} (P : A → Type κ) (test : Bool) (m n : Run A)
    → (test ≡ true → Ensures P m)
    → (test ≡ false → Ensures P n)
    → Ensures P (if test then m else n)
Ensures-if P true m n yes_case no_case = yes_case refl
Ensures-if P false m n yes_case no_case = no_case refl

-- A run that does not throw, and what it gives.
abbrev pub Total {ℓ} : {A : Type ℓ} → (A → Type 0) → Run A → Type 0
Total P (ok a) = P a
Total P (throw e) = ⊥

pub Total-bind {ℓ κ} :
    {A : Type ℓ} {B : Type κ} (P : B → Type 0) (Q : A → Type 0) (m : Run A) (f : A → Run B)
    → Total Q m
    → ((a : A) → Q a → Total P (f a))
    → Total P (m >>= f)
Total-bind P Q (ok a) f q h = h a q
Total-bind P Q (throw e) f q h = absurd q

pub Total-map {ℓ} :
    {A : Type ℓ} (P Q : A → Type 0) (m : Run A) → ((a : A) → P a → Q a) → Total P m → Total Q m
Total-map P Q (ok a) f p = f a p
Total-map P Q (throw e) f p = p

pub Total-if {ℓ} :
    {A : Type ℓ} (P : A → Type 0) (test : Bool) (m n : Run A)
    → Total P m
    → Total P n
    → Total P (if test then m else n)
Total-if P true m n p q = p
Total-if P false m n p q = q

pub Total-value {ℓ} : {A : Type ℓ} (P : A → Type 0) (m : Run A) {a : A} → Total P m → m ≡ ok a → P a
Total-value P m t e = subst (Total P) e t

pub Total-ok {ℓ} :
    {A : Type ℓ} (P : A → Type 0) (m : Run A) → Total P m → (a : A) × (m ≡ ok a) × P a
Total-ok P (ok a) p = (a, refl, p)
Total-ok P (throw e) p = absurd p

module _ {ℓ} {A : Type ℓ} where
  pub at-Total : (xs : List A) (i : ℕ) → i < length xs → Total (λ _. Unit {0}) (at xs i)
  at-Total xs i h = let (x, e) = in_range xs i h in rw (at-get_elem? xs i x e) tt

  pub update-Total :
      (xs : List A) (i : ℕ) (f : A → A)
      → i < length xs
      → Total (λ ys. length ys ≡ length xs) (update xs i f)
  update-Total xs i f h =
      let (x, e) = in_range xs i h in rw (update-set xs i f x e) (length-set xs i (f x))

  pub update-length :
      (xs : List A) (i : ℕ) (f : A → A) → Ensures (λ ys. length ys ≡ length xs) (update xs i f)
  unfolding update
  update-length [] i f = tt
  update-length (x ∷ xs) zero f = refl
  update-length (x ∷ xs) (suc i) f = Ensures-bind _ (update xs i f) _ (λ ys e.
      ap suc (Ensures-ok (λ ys. length ys ≡ length xs) (update xs i f) (update-length xs i f) e))
