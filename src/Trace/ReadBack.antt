-- ===== src/Trace/ReadBack.antt =====
-- The lines that TraceLogger in tracer.hpp writes, read by the words and the keys of each.
use aegis_proxy.Common.{ℕ, ◌≡◌, refl, ap, ◌∙◌, sym, ◌≢◌, List, [], ◌∷◌, ◌++◌, some, arith, All, map}
use mathlib.Core.List.{append_assoc, append-nil}
use aegis_proxy.Text.{Bytes, bytes}
use aegis_proxy.Trace.{Fields, field_text, event_line}
use aegis_proxy.Trace.Grammar.{
  grep, keep, begins, grep-append, split, key_values, read_lines, read_log, Free, Free-append,
  split-append, split-Free, word, key_value-word,
}

-- No space and no line break.
abbrev pub OneWord : Bytes → Type 0
OneWord text = Free 32 text × Free 10 text

-- A key is one word without a "=", and its value is one word.
abbrev pub Legible : Fields → Type 0
Legible = All (λ f. Free 61 f.0 × OneWord f.0 × OneWord f.1)

-- A call of `event`.
pub record Entry : Type 0 where
  pub correlation_id : Bytes
  pub name : Bytes
  pub fields : Fields

-- What a line is to say.
abbrev pub said : Entry → Fields
said e = (bytes "cid", e.correlation_id) ∷ (bytes "event", e.name) ∷ e.fields

abbrev pub LegibleEntry : Entry → Type 0
LegibleEntry e = OneWord e.correlation_id × OneWord e.name × Legible e.fields

-- The text that these calls leave, one after another.
unfoldable pub written : List Entry → Bytes
written [] = []
written (e ∷ es) = event_line e.correlation_id e.name e.fields ++ written es

word-Free :
    (sep : ℕ) (key value : Bytes)
    → sep ≢ 61
    → Free sep key
    → Free sep value
    → Free sep (word (key, value))
word-Free sep key value d k v = Free-append sep key _ k ((λ e. d (sym e)), v)

words-field_text :
    (fs : Fields) (xs : Bytes)
    → Free 32 xs
    → Legible fs
    → split 32 (xs ++ field_text fs) ≡ xs ∷ map word fs
unfolding field_text
words-field_text [] xs f l = ap (split 32) (append-nil xs) ∙ split-Free 32 xs f
words-field_text ((key, value) ∷ fs) xs f l =
    let rest = field_text fs in
    split-append 32 xs (key ++ (61 ∷ (value ++ rest))) f
    ∙ ap (λ t. xs ∷ split 32 t) (sym (append_assoc key (61 ∷ value) rest))
    ∙ ap (λ ws. xs ∷ ws)
        (words-field_text fs (word (key, value))
          (word-Free 32 key value (λ e. omega arith) l.0.1.0 l.0.2.0) l.1)

field_text-Free : (fs : Fields) → Legible fs → Free 10 (field_text fs)
unfolding field_text
field_text-Free [] l = tt
field_text-Free ((key, value) ∷ fs) l = (
  (λ e. omega arith),
  Free-append 10 key _ l.0.1.1
      ((λ e. omega arith), Free-append 10 value _ l.0.2.1 (field_text-Free fs l.1)),
)

key_values-words : (fs : Fields) → Legible fs → key_values (map word fs) ≡ some fs
unfolding key_values
key_values-words [] l = refl
key_values-words ((key, value) ∷ fs) l =
    rw (key_values, key_value-word key value l.0.0, key_values-words fs l.1) refl

-- A line without its line break.
abbrev line : Entry → Bytes
line e = word (bytes "cid", e.correlation_id) ++ field_text ((bytes "event", e.name) ∷ e.fields)

event_line-line :
    (e : Entry) (rest : Bytes)
    → event_line e.correlation_id e.name e.fields ++ rest ≡ line e ++ (10 ∷ rest)
unfolding event_line field_text
event_line-line e rest = simp append_assoc

said-Legible : (e : Entry) → LegibleEntry e → Legible (said e)
said-Legible e (cid, name, fields) = ground arith

line-Free : (e : Entry) → LegibleEntry e → Free 10 (line e)
unfolding field_text
line-Free e l = (field_text-Free (said e) (said-Legible e l)).1

key_values-line : (e : Entry) → LegibleEntry e → key_values (split 32 (line e)) ≡ some (said e)
key_values-line e l =
    let said_well = said-Legible e l in
    ap key_values (
      words-field_text ((bytes "event", e.name) ∷ e.fields) (word (bytes "cid", e.correlation_id))
        (word-Free 32 (bytes "cid") e.correlation_id (λ d. omega arith) said_well.0.1.0
          said_well.0.2.0)
        said_well.1)
    ∙ key_values-words (said e) said_well

-- The lines that any calls of `event` leave on stderr are read back, line by line and in order, as the
-- correlation id, the name and the fields of each call, if ids, names and values hold no space and no
-- line break, and keys hold no "=" besides.
pub read_log-written :
    (es : List Entry) → All LegibleEntry es → read_log (written es) ≡ some (map said es)
unfolding read_log written read_lines split
read_log-written [] l = refl
read_log-written (e ∷ es) l =
    let ih : read_lines (split 10 (written es)) ≡ some (map said es) = read_log-written es l.1 in
    let first : read_lines (line e ∷ split 10 (written es)) ≡ some (said e ∷ map said es) =
      rw (read_lines, key_values-line e l.0, ih) refl in
    ap (λ t. read_lines (split 10 t)) (event_line-line e (written es))
    ∙ ap read_lines (split-append 10 (line e) (written es) (line-Free e l.0))
    ∙ first

pub grep-written :
    (es : List Entry) → All LegibleEntry es → grep (bytes "cid=") (written es) ≡ written es
unfolding written grep split keep begins
grep-written [] l = refl
grep-written (e ∷ es) l =
    let label = bytes "cid=" in
    ap (grep label) (event_line-line e (written es))
    ∙ grep-append label (line e) (written es) (line-Free e l.0)
    ∙ ap (λ t. line e ++ (10 ∷ t)) (grep-written es l.1)
    ∙ sym (event_line-line e (written es))
