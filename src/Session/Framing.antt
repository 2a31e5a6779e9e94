-- ===== src/Session/Framing.antt =====
-- How a client reads the responses of session.cpp and main.cpp: the head ends at the first empty
-- line, and one of its lines declares the size of the body.
use aegis_proxy.Common.{
  ℕ, ◌≡◌, refl, ap, ◌∙◌, ◌≢◌, [], ◌∷◌, ◌++◌, Option, none, some, arith, All, ◌==◌, if◌then◌else◌,
  length,
}
use mathlib.Core.List.{append_assoc}
use aegis_proxy.Text.{Bytes, bytes, to_string}
use aegis_proxy.Text.Decimal.{
  IsDigit, to_string-digits, value, value-to_string, leading, leading-append,
}
use aegis_proxy.Session.Status.{response_text}

-- How many bytes of "\r\n\r\n" were read, after one byte more.
progress : ℕ → ℕ → ℕ
progress seen c =
    if c == 13
    then (if seen == 2 then 3 else 1)
    else if c == 10
    then (if seen == 1 then 2 else if seen == 3 then 4 else 0)
    else 0

behind_empty_line : ℕ → Bytes → Option Bytes
unfolding progress
behind_empty_line seen [] = none
behind_empty_line seen (c ∷ cs) =
    if progress seen c == 4 then some cs else behind_empty_line (progress seen c) cs

-- The body of a response.
pub body_of : Bytes → Option Bytes
unfolding behind_empty_line
body_of text = behind_empty_line 0 text

strip : Bytes → Bytes → Option Bytes
strip [] text = some text
strip (x ∷ xs) [] = none
strip (x ∷ xs) (c ∷ cs) = if x == c then strip xs cs else none

-- What follows the first occurrence of a label.
behind : Bytes → Bytes → Option Bytes
unfolding strip
behind label [] = none
behind label (c ∷ cs) = elim (strip label (c ∷ cs)) [
  | some rest ↦ some rest
  | none ↦ behind label cs
]

-- The size that a response declares.
pub declared_length : Bytes → Option ℕ
unfolding behind
declared_length text = elim (behind (bytes "\r\nContent-Length: ") text) [
  | none ↦ none
  | some rest ↦ some (value (leading rest))
]

abbrev pub OneLine : Bytes → Type 0
OneLine = All (λ c. (c ≢ 13) × (c ≢ 10))

behind_empty_line-append :
    (xs ys : Bytes) → OneLine xs → behind_empty_line 0 (xs ++ ys) ≡ behind_empty_line 0 ys
unfolding behind_empty_line progress
behind_empty_line-append [] ys a = refl
behind_empty_line-append (c ∷ xs) ys a = ground (arith, behind_empty_line-append xs ys a.1)

behind-append :
    (label xs ys : Bytes) → OneLine xs → behind (13 ∷ label) (xs ++ ys) ≡ behind (13 ∷ label) ys
unfolding behind strip
behind-append label [] ys a = refl
behind-append label (c ∷ xs) ys a = ground (arith, behind-append label xs ys a.1)

digits-OneLine : (xs : Bytes) → All IsDigit xs → OneLine xs
digits-OneLine [] a = tt
digits-OneLine (c ∷ xs) a = ((λ e. omega arith, λ e. omega arith), digits-OneLine xs a.1)

-- The response as its pieces in a row.
spread :
    (code : ℕ) (reason kind body : Bytes)
    → response_text code reason kind body
      ≡ bytes "HTTP/1.1 "
        ++ (to_string code
            ++ (bytes " "
                ++ (reason
                    ++ (bytes "\r\nContent-Type: "
                        ++ (kind
                            ++ (bytes "\r\nContent-Length: "
                                ++ (to_string (length body)
                                    ++ (bytes "\r\nConnection: close\r\n\r\n" ++ body))))))))
unfolding response_text
spread code reason kind body = simp append_assoc

to_string-OneLine : (n : ℕ) → OneLine (to_string n)
to_string-OneLine n = digits-OneLine (to_string n) (to_string-digits n)

behind_label :
    (code : ℕ) (reason kind body : Bytes)
    → OneLine reason
    → OneLine kind
    → behind (bytes "\r\nContent-Length: ") (response_text code reason kind body)
      ≡ some (to_string (length body) ++ (bytes "\r\nConnection: close\r\n\r\n" ++ body))
unfolding behind strip
behind_label code reason kind body p q =
    let label = bytes "\nContent-Length: " in
    rw
      (
        spread code reason kind body,
        behind-append label (to_string code) _ (to_string-OneLine code),
        behind-append label reason _ p,
        behind-append label kind _ q,
      )
      refl

-- A client that reads up to the first empty line gets the body whole, and the size that the head
-- declares is the body's, for every reason and type that hold no line break.
pub response_read_back :
    (code : ℕ) (reason kind body : Bytes)
    → OneLine reason
    → OneLine kind
    → (body_of (response_text code reason kind body) ≡ some body)
      × (declared_length (response_text code reason kind body) ≡ some (length body))
unfolding body_of declared_length behind_empty_line behind strip progress
response_read_back code reason kind body p q = (
  rw
      (
        spread code reason kind body,
        behind_empty_line-append (to_string code) _ (to_string-OneLine code),
        behind_empty_line-append reason _ p,
        behind_empty_line-append kind _ q,
        behind_empty_line-append (to_string (length body)) _ (to_string-OneLine (length body)),
      )
      refl,
  rw (behind_label code reason kind body p q, declared_length)
      (ap (λ t. some (value t))
          (leading-append 13 (to_string (length body)) _ (λ d. omega arith)
            (to_string-digits (length body)))
        ∙ ap some (value-to_string (length body))),
)
