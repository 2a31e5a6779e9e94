-- ===== src/Text/Decimal.antt =====
-- The digits of the texts that `std::to_string` gives, and the numbers that they stand for.
use aegis_proxy.Common.{
  All-append, ℕ, zero, suc, ◌+◌, ◌-◌, ◌*◌, ◌/◌, ◌%◌, ◌≤◌, ◌<◌, ◌≡◌, refl, sym, subst, ap, ◌∙◌, [],
  ◌∷◌, ◌++◌, arith, All, ltb, ◌&&◌, if◌then◌else◌, Bool-cases, inl, inr,
}
use aegis_proxy.Text.{Bytes, decimal, to_string}

abbrev pub IsDigit : ℕ → Type 0
IsDigit c = (48 ≤ c) × (c < 58)

decimal-digits : (fuel n : ℕ) → All IsDigit (decimal fuel n)
unfolding decimal
decimal-digits zero n = tt
decimal-digits (suc fuel) n = elim (Bool-cases (ltb n 10)) [
  | inl small ↦ rw (small, decimal) ((omega arith, ground arith), tt)
  | inr large ↦
      rw (large, decimal)
        (All-append IsDigit (decimal fuel (n / 10)) _ (decimal-digits fuel (n / 10))
          ((omega arith, omega arith), tt))
]

pub to_string-digits : (n : ℕ) → All IsDigit (to_string n)
unfolding to_string
to_string-digits n = decimal-digits (suc n) n

-- The number that a decimal text stands for, after the digits that stand for `acc`.
unfoldable pub value_from : ℕ → Bytes → ℕ
value_from acc [] = acc
value_from acc (c ∷ cs) = value_from (acc * 10 + (c - 48)) cs

unfoldable pub value : Bytes → ℕ
unfolding value_from
value cs = value_from 0 cs

value_from-append :
    (acc c : ℕ) (cs : Bytes) → value_from acc (cs ++ c ∷ []) ≡ value_from acc cs * 10 + (c - 48)
unfolding value_from
value_from-append acc c [] = refl
value_from-append acc c (d ∷ cs) = value_from-append (acc * 10 + (d - 48)) c cs

value_from-decimal : (fuel n : ℕ) → n < fuel → value_from 0 (decimal fuel n) ≡ n
unfolding decimal value_from
value_from-decimal zero n h = absurd (omega arith)
value_from-decimal (suc fuel) n h = elim (Bool-cases (ltb n 10)) [
  | inl small ↦ rw (small, decimal) (omega arith)
  | inr large ↦
      rw (large, decimal)
        (let ge : 10 ≤ n = ground arith in
          omega (
            arith,
            value_from-append 0 (48 + n % 10) (decimal fuel (n / 10)),
            value_from-decimal fuel (n / 10) (omega arith),
          ))
]

-- `std::to_string` keeps the number.
pub value-to_string : (n : ℕ) → value (to_string n) ≡ n
unfolding value to_string
value-to_string n = value_from-decimal (suc n) n (omega arith)

pub to_string-injective : (m n : ℕ) → to_string m ≡ to_string n → m ≡ n
to_string-injective m n e = sym (value-to_string m) ∙ ap value e ∙ value-to_string n

same_head : (x y : ℕ) (xs ys : Bytes) → x ∷ xs ≡ y ∷ ys → x ≡ y
same_head x y xs ys e = cc

-- A separator that is no digit splits a text in one way.
pub split_at :
    (sep : ℕ) (xs ys us vs : Bytes)
    → ¬ IsDigit sep
    → All IsDigit xs
    → All IsDigit ys
    → xs ++ sep ∷ us ≡ ys ++ sep ∷ vs
    → (xs ≡ ys) × (us ≡ vs)
split_at sep [] [] us vs n p q e = (refl, cc)
split_at sep [] (y ∷ ys) us vs n p q e =
    absurd (n (subst IsDigit (sym (same_head sep y us (ys ++ sep ∷ vs) e)) q.0))
split_at sep (x ∷ xs) [] us vs n p q e =
    absurd (n (subst IsDigit (same_head x sep (xs ++ sep ∷ us) vs e) p.0))
split_at sep (x ∷ xs) (y ∷ ys) us vs n p q e =
    let (rest, tails) = split_at sep xs ys us vs n p.1 q.1 (cc) in (cc, tails)

-- The digits that a text begins with.
unfoldable pub leading : Bytes → Bytes
leading [] = []
leading (c ∷ cs) = if ltb 47 c && ltb c 58 then c ∷ leading cs else []

-- Digits are read up to a byte that is none.
pub leading-append :
    (c : ℕ) (xs ys : Bytes) → ¬ IsDigit c → All IsDigit xs → leading (xs ++ c ∷ ys) ≡ xs
unfolding leading
leading-append c [] ys n a = ground arith
leading-append c (d ∷ xs) ys n a = ground (arith, leading-append c xs ys n a.1)

pub leading-digits : (xs : Bytes) → All IsDigit xs → leading xs ≡ xs
unfolding leading
leading-digits [] a = refl
leading-digits (c ∷ xs) a = ground (arith, leading-digits xs a.1)

append-cons : (xs : Bytes) (y : ℕ) → (c : ℕ) × (cs : Bytes) × (xs ++ y ∷ [] ≡ c ∷ cs)
append-cons [] y = (y, [], refl)
append-cons (x ∷ xs) y = (x, xs ++ y ∷ [], refl)

pub to_string-cons : (n : ℕ) → (c : ℕ) × (cs : Bytes) × (to_string n ≡ c ∷ cs)
unfolding to_string decimal
to_string-cons n = elim (Bool-cases (ltb n 10)) [
  | inl small ↦ rw (small, decimal) (48 + n, [], refl)
  | inr large ↦ rw (large, decimal) (append-cons (decimal n (n / 10)) (48 + n % 10))
]
