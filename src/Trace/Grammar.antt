-- ===== src/Trace/Grammar.antt =====
-- How a log tool reads the lines of tracer.hpp: a line is words, and a word is a key, "=", and a value.
use aegis_proxy.Common.{
  ℕ, ◌≡◌, refl, ◌≢◌, Bool, true, false, List, [], ◌∷◌, ◌++◌, Option, none, some, arith, All,
  All-append, ◌==◌, if◌then◌else◌,
}
use aegis_proxy.Text.{Bytes}
use aegis_proxy.Trace.{Fields}

unfoldable pub extend : ℕ → List Bytes → List Bytes
extend c [] = (c ∷ []) ∷ []
extend c (w ∷ ws) = (c ∷ w) ∷ ws

-- The pieces of a text between the separators.
unfoldable pub split : ℕ → Bytes → List Bytes
unfolding extend
split sep [] = [] ∷ []
split sep (c ∷ cs) = let pieces = split sep cs in if c == sep then [] ∷ pieces else extend c pieces

-- The key and the value of a word, if there is a "=" in it.
unfoldable pub key_value : Bytes → Option (Bytes × Bytes)
key_value [] = none
key_value (c ∷ cs) =
    let rest = key_value cs in
    if c == 61
    then some ([], cs)
    else elim rest [ none ↦ none | some (key, value) ↦ some (c ∷ key, value) ]

unfoldable pub key_values : List Bytes → Option Fields
unfolding key_value
key_values [] = some []
key_values (w ∷ ws) = elim (key_value w) [
  | none ↦ none
  | some pair ↦ elim (key_values ws) [ none ↦ none | some pairs ↦ some (pair ∷ pairs) ]
]

-- Empty lines are passed over.
unfoldable pub read_lines : List Bytes → Option (List Fields)
unfolding key_values split
read_lines [] = some []
read_lines ([] ∷ ls) = read_lines ls
read_lines ((c ∷ cs) ∷ ls) = elim (key_values (split 32 (c ∷ cs))) [
  | none ↦ none
  | some pairs ↦ elim (read_lines ls) [ none ↦ none | some rest ↦ some (pairs ∷ rest) ]
]

unfoldable pub read_log : Bytes → Option (List Fields)
unfolding split read_lines
read_log text = read_lines (split 10 text)

unfoldable pub begins : Bytes → Bytes → Bool
begins [] text = true
begins (x ∷ xs) [] = false
begins (x ∷ xs) (c ∷ cs) = if x == c then begins xs cs else false

-- The lines that begin with a label.
unfoldable pub keep : Bytes → List Bytes → Bytes
unfolding begins
keep label [] = []
keep label (l ∷ ls) = let rest = keep label ls in if begins label l then l ++ (10 ∷ rest) else rest

-- `grep` for a label at the beginning of a line.
unfoldable pub grep : Bytes → Bytes → Bytes
unfolding split keep
grep label text = keep label (split 10 text)

-- A text without a separator in it.
abbrev pub Free : ℕ → Bytes → Type 0
Free sep = All (λ c. c ≢ sep)

pub Free-append : (sep : ℕ) (xs ys : Bytes) → Free sep xs → Free sep ys → Free sep (xs ++ ys)
Free-append sep = All-append (λ c. c ≢ sep)

pub split-append :
    (sep : ℕ) (xs ys : Bytes) → Free sep xs → split sep (xs ++ sep ∷ ys) ≡ xs ∷ split sep ys
unfolding split extend
split-append sep [] ys f = ground arith
split-append sep (x ∷ xs) ys f = ground (arith, split-append sep xs ys f.1)

pub split-Free : (sep : ℕ) (xs : Bytes) → Free sep xs → split sep xs ≡ xs ∷ []
unfolding split extend
split-Free sep [] f = refl
split-Free sep (x ∷ xs) f = ground (arith, split-Free sep xs f.1)

abbrev pub word : Bytes × Bytes → Bytes
word (key, value) = key ++ (61 ∷ value)

pub key_value-word :
    (key value : Bytes) → Free 61 key → key_value (word (key, value)) ≡ some (key, value)
unfolding key_value
key_value-word [] value f = refl
key_value-word (x ∷ xs) value f = ground (arith, key_value-word xs value f.1)

pub grep-append :
    (label l rest : Bytes)
    → Free 10 l
    → grep label (l ++ (10 ∷ rest))
      ≡ (if begins label l then l ++ (10 ∷ grep label rest) else grep label rest)
unfolding grep keep
grep-append label l rest f = rw (split-append 10 l rest f) refl
