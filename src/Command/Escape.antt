-- ===== src/Command/Escape.antt =====
-- `escapeTag` of fail2ban/server/action.py: characters that a shell could take for its own get a
-- backslash. Characters are code points.
use fail2ban.Common.{
  ℕ, ◌≡◌, refl, sym, ap, ◌∙◌, Bool, true, false, not, List, [], ◌∷◌, ◌++◌, any, All, map, ◌==◌,
  ==_iff, Option, none, some, if◌then◌else◌, Bool-cases, inl, inr, arith,
}

abbrev pub backslash : ℕ
backslash = 92

abbrev pub newline : ℕ
newline = 10

abbrev pub carriage_return : ℕ
carriage_return = 13

-- The characters of `ESCAPE_CRE`: \ # & ; ` | * ? ~ < > ^ ( ) [ ] { } $ ' " and the ends of lines
abbrev pub escaped_chars : List ℕ
escaped_chars =
    92 ∷ 35 ∷ 38 ∷ 59 ∷ 96 ∷ 124 ∷ 42 ∷ 63 ∷ 126 ∷ 60 ∷ 62 ∷ 94 ∷ 40 ∷ 41 ∷ 91 ∷ 93 ∷ 123 ∷ 125 ∷ 36
    ∷ 39 ∷ 34 ∷ 10 ∷ 13 ∷ []

unfoldable pub is_escaped : ℕ → Bool
is_escaped c = any (λ x. x == c) escaped_chars

-- `_map2c.get(c, c)`
unfoldable pub map_char : ℕ → ℕ
map_char c = if c == newline then b'n' else if c == carriage_return then b'r' else c

-- `substChar` for the characters that are found, and the others as they are
unfoldable pub subst_char : ℕ → List ℕ
subst_char c = if is_escaped c then backslash ∷ map_char c ∷ [] else c ∷ []

-- `escapeTag`
unfoldable pub escape_tag : List ℕ → List ℕ
escape_tag [] = []
escape_tag (c ∷ s) = subst_char c ++ escape_tag s

-- The characters that POSIX reads as its own in a word, besides the backslash:
-- | & ; < > ( ) $ ` " ' * ? [ # ~ and the newline
abbrev pub shell_chars : List ℕ
shell_chars =
    b'|' ∷ b'&' ∷ b';' ∷ b'<' ∷ b'>' ∷ b'(' ∷ b')' ∷ b'$' ∷ 96 ∷ 34 ∷ 39 ∷ b'*' ∷ b'?' ∷ b'[' ∷ b'#'
    ∷ b'~' ∷ 10 ∷ []

-- A text with one more character in front
abbrev pub before : ℕ → Option (List ℕ) → Option (List ℕ)
before c none = none
before c (some s) = some (c ∷ s)

-- The literal text that a shell takes a text for, where `after` says whether a backslash stands before
-- it; `none` if the shell reads a character of it as its own, continues its line, or looks for a
-- character behind its last backslash. Blanks, and `=` and `%` at the places where POSIX gives them a
-- meaning, count as literal here.
abbrev pub shell_text : Bool → List ℕ → Option (List ℕ)
shell_text true [] = none
shell_text false [] = some []
shell_text true (c ∷ s) = let rest = before c (shell_text false s) in if c == 10 then none else rest
shell_text false (c ∷ s) =
    let quoted = shell_text true s in
    let rest = before c (shell_text false s) in
    if c == 92 then quoted else if any (λ x. x == c) shell_chars then none else rest

-- The ends of lines become the letters n and r.
abbrev pub letter_of : ℕ → ℕ
letter_of c = if c == 10 then b'n' else if c == 13 then b'r' else c

any_listed :
    (p : ℕ → Bool) (c : ℕ) (xs : List ℕ)
    → All (λ x. p x ≡ true) xs
    → any (λ x. x == c) xs ≡ true
    → p c ≡ true
any_listed p c [] h e = absurd (cc)
any_listed p c (x ∷ xs) h e = elim (Bool-cases (x == c)) [
  | inl same ↦ ap p (sym ((==_iff x c).0 same)) ∙ h.0
  | inr other ↦
      any_listed p c xs h.1 (ap (λ b. if b then true else any (λ y. y == c) xs) (sym other) ∙ e)
]

not_self : (b : Bool) → not b ≡ b → ⊥
not_self true h = absurd (cc)
not_self false h = absurd (cc)

-- A character that is not escaped differs from one that is, and the other way round.
not_char : (c d : ℕ) (b : Bool) → is_escaped c ≡ b → is_escaped d ≡ not b → (c == d) ≡ false
not_char c d b h g = elim (Bool-cases (c == d)) [
  | inr e ↦ e
  | inl e ↦ absurd (not_self b (sym g ∙ ap is_escaped (sym ((==_iff c d).0 e)) ∙ h))
]

letter_of-plain : (c : ℕ) → (c == 10) ≡ false → (c == 13) ≡ false → letter_of c ≡ c
letter_of-plain c h g = rw (h, g) refl

shell_chars-is_escaped : All (λ x. is_escaped x ≡ true) shell_chars
unfolding is_escaped
shell_chars-is_escaped = (
  refl,
  (
    refl,
    (
      refl,
      (
        refl,
        (
          refl,
          (
            refl,
            (
              refl,
              (refl, (refl, (refl, (refl, (refl, (refl, (refl, (refl, (refl, (refl, tt)))))))))),
            ),
          ),
        ),
      ),
    ),
  ),
)

-- A character that is not escaped is no character of the shell.
plain_char :
    (c : ℕ)
    → is_escaped c ≡ false
    → (any (λ x. x == c) shell_chars ≡ false) × ((c == 92) ≡ false) × (letter_of c ≡ c)
unfolding is_escaped
plain_char c h = (
  elim (Bool-cases (any (λ x. x == c) shell_chars)) [
    | inr e ↦ e
    | inl e ↦
        absurd
          (not_self true (sym h ∙ any_listed is_escaped c shell_chars shell_chars-is_escaped e))
  ],
  not_char c 92 false h refl,
  letter_of-plain c (not_char c 10 false h refl) (not_char c 13 false h refl),
)

escaped_char :
    (c : ℕ) (rest : Option (List ℕ))
    → (if map_char c == 10 then none else before (map_char c) rest) ≡ before (letter_of c) rest
unfolding map_char
escaped_char c rest = ground arith

subst_char-read :
    (c : ℕ) (s : List ℕ)
    → shell_text false (subst_char c ++ s) ≡ before (letter_of c) (shell_text false s)
unfolding subst_char map_char
subst_char-read c s = elim (Bool-cases (is_escaped c)) [
  | inl e ↦ rw (subst_char, e) (escaped_char c (shell_text false s))
  | inr e ↦ let (own, slash, letter) = plain_char c e in rw (subst_char, e, slash, own, letter) refl
]

-- A shell takes an escaped text literally, whatever the text: no character that POSIX gives
-- a meaning stands in it without a backslash (blanks, `=` and `%` count as literal). What the shell reads is the text, with
-- the letters n and r for newlines and carriage returns.
pub shell_text-escape_tag : (s : List ℕ) → shell_text false (escape_tag s) ≡ some (map letter_of s)
unfolding escape_tag
shell_text-escape_tag [] = refl
shell_text-escape_tag (c ∷ s) =
    subst_char-read c (escape_tag s) ∙ ap (before (letter_of c)) (shell_text-escape_tag s)
