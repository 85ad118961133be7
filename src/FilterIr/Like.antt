-- ===== src/FilterIr/Like.antt =====
-- `likeToRegex` of src/filter/compile.ts: a LIKE pattern of SQL as a regular expression.
use Prim.Native.Char.{Char, code}
use mongokit.Prelude.{
  ℕ, String, Bool, true, false, ◌&&◌, ◌||◌, Option, none, some, subst, sym, ◌==◌, List, [], ◌∷◌,
  ◌≡◌, refl, ap, ◌∙◌, any, if◌then◌else◌, Bool-cases, inl, inr, arith,
}

unfoldable pub is_one_of : List ℕ → Char → Bool
is_one_of ns c = any (λ n. code c == n) ns

-- `/[.*+?^${}()|[\]\\]/`
unfoldable pub is_special : Char → Bool
unfolding is_one_of
is_special = is_one_of (
    b'.' ∷ b'*' ∷ b'+' ∷ b'?' ∷ b'^' ∷ b'$' ∷ b'{' ∷ b'}' ∷ b'(' ∷ b')' ∷ b'|' ∷ b'[' ∷ b']' ∷ b'\\'
    ∷ [])

unfoldable pub is_backslash : Char → Bool
is_backslash c = code c == b'\\'

-- The characters that a backslash makes literal.
unfoldable pub is_escapable : Char → Bool
unfolding is_one_of
is_escapable = is_one_of (b'%' ∷ b'_' ∷ b'\\' ∷ [])

-- `escapeRegexChar(ch)`, before the rest of the output.
unfoldable pub escape_regex_char : Char → String → String
unfolding is_special
escape_regex_char c out =
    if is_special c then String.◌∷◌ "\\" (String.◌∷◌ c out) else String.◌∷◌ c out

-- A character that is not part of an escape.
unfoldable pub unescaped : Char → String → String
unfolding escape_regex_char
unescaped c out =
    if code c == b'%'
    then String.◌∷◌ "." (String.◌∷◌ "*" out)
    else if code c == b'_'
    then String.◌∷◌ "." out
    else escape_regex_char c out

-- The loop over the pattern, and the `$` after it.
unfoldable pub like_rest : String → String
unfolding unescaped is_backslash is_escapable escape_regex_char
like_rest String.[] = "$"
like_rest (String.◌∷◌ c String.[]) = unescaped c "$"
like_rest (String.◌∷◌ c (String.◌∷◌ next s)) = elim (is_backslash c && is_escapable next) [
  | true ↦ escape_regex_char next (like_rest s)
  | false ↦ unescaped c (like_rest (String.◌∷◌ next s))
]

unfoldable pub like_to_regex : String → String
unfolding like_rest
like_to_regex pattern = String.◌∷◌ "^" (like_rest pattern)

-- A text as a pattern that stands for itself: a backslash before each wildcard and backslash.
unfoldable pub literally : String → String
unfolding is_escapable
literally String.[] = String.[]
literally (String.◌∷◌ c s) =
    let rest = literally s in
    if is_escapable c then String.◌∷◌ "\\" (String.◌∷◌ c rest) else String.◌∷◌ c rest

-- A text as a regular expression without any operator.
unfoldable pub escaped : String → String
unfolding escape_regex_char
escaped String.[] = "$"
escaped (String.◌∷◌ c s) = escape_regex_char c (escaped s)

unescaped-plain :
    (c : Char) (out : String) → is_escapable c ≡ false → unescaped c out ≡ escape_regex_char c out
unfolding unescaped is_escapable is_one_of
unescaped-plain c out h = ground arith

is_backslash_lem : (c : Char) → is_escapable c ≡ false → is_backslash c ≡ false
unfolding is_backslash is_escapable is_one_of
is_backslash_lem c h = ground arith

like_rest-next :
    (c d : Char) (s : String)
    → is_backslash c ≡ false
    → like_rest (String.◌∷◌ c (String.◌∷◌ d s)) ≡ unescaped c (like_rest (String.◌∷◌ d s))
unfolding like_rest
like_rest-next c d s h =
    let step : Bool → String = λ b. elim (b && is_escapable d) [
      | true ↦ escape_regex_char d (like_rest s)
      | false ↦ unescaped c (like_rest (String.◌∷◌ d s))
    ] in
    ap step h

like_rest-plain :
    (c : Char) (s : String)
    → is_escapable c ≡ false
    → like_rest (String.◌∷◌ c s) ≡ escape_regex_char c (like_rest s)
unfolding like_rest
like_rest-plain c String.[] h = unescaped-plain c "$" h
like_rest-plain c (String.◌∷◌ d s) h =
    like_rest-next c d s (is_backslash_lem c h) ∙ unescaped-plain c (like_rest (String.◌∷◌ d s)) h

like_rest-pair :
    (c : Char) (s : String)
    → is_escapable c ≡ true
    → like_rest (String.◌∷◌ "\\" (String.◌∷◌ c s)) ≡ escape_regex_char c (like_rest s)
unfolding like_rest is_backslash
like_rest-pair c s h = rw (like_rest, h) refl

like_rest-literally : (s : String) → like_rest (literally s) ≡ escaped s
unfolding literally escaped like_rest
like_rest-literally String.[] = refl
like_rest-literally (String.◌∷◌ c s) = elim (Bool-cases (is_escapable c)) [
  | inl e ↦
      rw e (like_rest-pair c (literally s) e ∙ ap (escape_regex_char c) (like_rest-literally s))
  | inr e ↦
      rw e (like_rest-plain c (literally s) e ∙ ap (escape_regex_char c) (like_rest-literally s))
]

-- The characters that the grammar of ECMAScript's regular expressions calls SyntaxCharacter.
unfoldable pub is_syntax : Char → Bool
is_syntax c =
    code c == b'^'
    || code c == b'$'
    || code c == b'\\'
    || code c == b'.'
    || code c == b'*'
    || code c == b'+'
    || code c == b'?'
    || code c == b'('
    || code c == b')'
    || code c == b'['
    || code c == b']'
    || code c == b'{'
    || code c == b'}'
    || code c == b'|'

abbrev pub before_text : Char → Option String → Option String
before_text c none = none
before_text c (some s) = some (String.◌∷◌ c s)

-- What a regular expression, after its `^`, matches if it has no operator but the `$` at its end:
-- a character that is no operator stands for itself, and so does one behind a backslash. No text,
-- where an operator stands anywhere else.
unfoldable pub text_of_regex : String → Option String
text_of_regex String.[] = none
text_of_regex (String.◌∷◌ c String.[]) = if code c == b'$' then some String.[] else none
text_of_regex (String.◌∷◌ c (String.◌∷◌ d s)) =
    let escape = if is_syntax d then before_text d (text_of_regex s) else none in
    let plain = before_text c (text_of_regex (String.◌∷◌ d s)) in
    if code c == b'\\' then escape else if is_syntax c then none else plain

is_special-eq-is_syntax : (c : Char) → is_special c ≡ is_syntax c
unfolding is_special is_one_of is_syntax
is_special-eq-is_syntax c = ground arith

escaped-cons : (s : String) → (c : Char) × (r : String) × (escaped s ≡ String.◌∷◌ c r)
unfolding escaped escape_regex_char
escaped-cons String.[] = ("$", String.[], refl)
escaped-cons (String.◌∷◌ c s) = elim (Bool-cases (is_special c)) [
  | inl e ↦ ("\\", String.◌∷◌ c (escaped s), rw e refl)
  | inr e ↦ (c, escaped s, rw e refl)
]

no_backslash : (c : Char) → is_syntax c ≡ false → (code c == b'\\') ≡ false
unfolding is_syntax
no_backslash c h = ground arith

text_of-plain :
    (c : Char) (s : String)
    → is_syntax c ≡ false
    → text_of_regex (String.◌∷◌ c (escaped s)) ≡ before_text c (text_of_regex (escaped s))
unfolding text_of_regex
text_of-plain c s h =
    let (d, r, e) = escaped-cons s in
    subst (λ t. text_of_regex (String.◌∷◌ c t) ≡ before_text c (text_of_regex t)) (sym e)
      (rw (no_backslash c h, h) refl)

text_of-escaped : (s : String) → text_of_regex (escaped s) ≡ some s
unfolding text_of_regex escaped escape_regex_char
text_of-escaped String.[] = refl
text_of-escaped (String.◌∷◌ c s) = elim (Bool-cases (is_special c)) [
  | inl e ↦
      let f : is_syntax c ≡ true = sym (is_special-eq-is_syntax c) ∙ e in
      rw (e, f, text_of-escaped s) refl
  | inr e ↦
      let f : is_syntax c ≡ false = sym (is_special-eq-is_syntax c) ∙ e in
      rw e (text_of-plain c s f ∙ ap (before_text c) (text_of-escaped s))
]

-- A pattern whose wildcards and backslashes are escaped becomes `^`, a regular expression that
-- matches exactly its text, and `$` at the end: read back by the grammar of regular expressions,
-- every character stands for itself, and none is an operator.
pub like_to_regex-literally :
    (s : String)
    → (r : String) × (like_to_regex (literally s) ≡ String.◌∷◌ "^" r) × (text_of_regex r ≡ some s)
unfolding like_to_regex
like_to_regex-literally s =
    (escaped s, ap (String.◌∷◌ "^") (like_rest-literally s), text_of-escaped s)
