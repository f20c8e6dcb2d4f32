-- ===== src/Process/Xargs/Quoting.antt =====
-- Words, quoted or not, and the input that they are written as.
use posixutils_rs.Prelude.{
  ℕ, ◌≡◌, ◌≢◌, refl, sym, ap, subst, ◌∙◌, List, [], ◌∷◌, ◌++◌, map, append-nil, append_assoc, true,
  false, ◌⊎◌, inl, inr, All, arith,
}
use mathlib.Core.List.{flatten}
use posixutils_rs.Std.Strings.{Str}
use posixutils_rs.Std.Chars.{is_whitespace}
use posixutils_rs.Process.Xargs.{ParseState, parse_char, parse_chars}

-- A character of a word outside of quotes, as it is or behind a backslash.
pub data Piece : Type 0 where
  plain : ℕ → Piece
  escaped : ℕ → Piece

-- A word outside of quotes starts with a character that is not escaped and ends with a whitespace character.
pub data Token : Type 0 where
  blank : ℕ → Token
  quoted : ℕ → Str → Token
  word : ℕ → List Piece → ℕ → Token

abbrev pub source_of : Piece → Str
source_of (plain c) = c ∷ []
source_of (escaped c) = b'\\' ∷ c ∷ []

abbrev pub char_of : Piece → ℕ
char_of (plain c) = c
char_of (escaped c) = c

abbrev pub source : Token → Str
source (blank c) = c ∷ []
source (quoted q s) = q ∷ s ++ q ∷ []
source (word c pieces end) = c ∷ flatten (map source_of pieces) ++ end ∷ []

abbrev pub words : Token → List Str
words (blank c) = []
words (quoted q s) = s ∷ []
words (word c pieces end) = (c ∷ map char_of pieces) ∷ []

abbrev IsQuote : ℕ → Type 0
IsQuote q = (q ≡ b'\'') ⊎ (q ≡ b'"')

abbrev IsOrdinary : ℕ → Type 0
IsOrdinary c = (is_whitespace c ≡ false) × (c ≢ b'\'') × (c ≢ b'"') × (c ≢ b'\\')

abbrev IsPiece : Piece → Type 0
IsPiece (plain c) = IsOrdinary c
IsPiece (escaped c) = Unit

abbrev pub IsToken : Token → Type 0
IsToken (blank c) = is_whitespace c ≡ true
IsToken (quoted q s) = IsQuote q × All (λ c. c ≢ q) s
IsToken (word c pieces end) = IsOrdinary c × All IsPiece pieces × (is_whitespace end ≡ true)

-- The state between words, inside of one, and inside of quotes.
abbrev pub between : List Str → ℕ → ParseState → ParseState
between args q st = record st {
  tmp_arg = [];
  in_arg = false;
  in_quote = false;
  in_escape = false;
  quote_char = q;
  args = args;
}

abbrev inside : Str → List Str → ℕ → ParseState → ParseState
inside t args q st = record st {
  tmp_arg = t;
  in_arg = true;
  in_quote = false;
  in_escape = false;
  quote_char = q;
  args = args;
}

abbrev in_quotes : Str → List Str → ℕ → ParseState → ParseState
in_quotes t args q st = record st {
  tmp_arg = t;
  in_arg = true;
  in_quote = true;
  in_escape = false;
  quote_char = q;
  args = args;
}

not_special : (c : ℕ) → is_whitespace c ≡ true → (c ≢ b'\'') × (c ≢ b'"') × (c ≢ b'\\')
not_special c h = (
  λ e. let h' : false ≡ true = subst (λ x. is_whitespace x ≡ true) e h in cc,
  λ e. let h' : false ≡ true = subst (λ x. is_whitespace x ≡ true) e h in cc,
  λ e. let h' : false ≡ true = subst (λ x. is_whitespace x ≡ true) e h in cc,
)

module _ (st : ParseState) (args : List Str) where
  blank_step :
      (q c : ℕ) → is_whitespace c ≡ true → parse_char (between args q st) c ≡ between args q st
  unfolding parse_char
  blank_step q c h = let (a, b, d) = not_special c h in rw h (ground arith)

  open_step : (q q' : ℕ) → IsQuote q → parse_char (between args q' st) q ≡ in_quotes [] args q st
  unfolding parse_char
  open_step q q' (inl e) = rw e refl
  open_step q q' (inr e) = rw e refl

  quoted_step :
      (t : Str) (q c : ℕ)
      → c ≢ q
      → parse_char (in_quotes t args q st) c ≡ in_quotes (t ++ c ∷ []) args q st
  unfolding parse_char
  quoted_step t q c h = ground arith

  close_step :
      (t : Str) (q : ℕ) → parse_char (in_quotes t args q st) q ≡ between (args ++ t ∷ []) q st
  unfolding parse_char
  close_step t q = ground arith

  first_step :
      (q c : ℕ) → IsOrdinary c → parse_char (between args q st) c ≡ inside (c ∷ []) args q st
  unfolding parse_char
  first_step q c (h, a, b, d) = rw h (ground arith)

  plain_step :
      (t : Str) (q c : ℕ)
      → IsOrdinary c
      → parse_char (inside t args q st) c ≡ inside (t ++ c ∷ []) args q st
  unfolding parse_char
  plain_step t q c (h, a, b, d) = rw h (ground arith)

  end_step :
      (t : Str) (q c : ℕ)
      → is_whitespace c ≡ true
      → parse_char (inside t args q st) c ≡ between (args ++ t ∷ []) q st
  unfolding parse_char
  end_step t q c h = rw h refl

  escaped_step :
      (t : Str) (q c : ℕ)
      → parse_char (parse_char (inside t args q st) b'\\') c ≡ inside (t ++ c ∷ []) args q st
  unfolding parse_char
  escaped_step t q c = refl

module _ (st : ParseState) where
  quoted-parse_chars :
      (s t : Str) (args : List Str) (q : ℕ) (rest : Str)
      → All (λ c. c ≢ q) s
      → parse_chars (in_quotes t args q st) (s ++ q ∷ rest)
        ≡ parse_chars (between (args ++ (t ++ s) ∷ []) q st) rest
  unfolding parse_chars
  quoted-parse_chars [] t args q rest h =
      ap (λ x. parse_chars x rest) (close_step st args t q)
      ∙ ap (λ (u : Str). parse_chars (between (args ++ u ∷ []) q st) rest) (sym (append-nil t))
  quoted-parse_chars (c ∷ s) t args q rest (d, h) =
      ap (λ x. parse_chars x (s ++ q ∷ rest)) (quoted_step st args t q c d)
      ∙ quoted-parse_chars s (t ++ c ∷ []) args q rest h
      ∙ ap (λ (u : Str). parse_chars (between (args ++ u ∷ []) q st) rest)
          (append_assoc t (c ∷ []) s)

  word-parse_chars :
      (pieces : List Piece) (t : Str) (args : List Str) (q end : ℕ) (rest : Str)
      → All IsPiece pieces
      → is_whitespace end ≡ true
      → parse_chars (inside t args q st) (flatten (map source_of pieces) ++ end ∷ rest)
        ≡ parse_chars (between (args ++ (t ++ map char_of pieces) ∷ []) q st) rest
  unfolding parse_chars flatten
  word-parse_chars [] t args q end rest h e =
      ap (λ x. parse_chars x rest) (end_step st args t q end e)
      ∙ ap (λ (u : Str). parse_chars (between (args ++ u ∷ []) q st) rest) (sym (append-nil t))
  word-parse_chars (plain c ∷ pieces) t args q end rest (d, h) e =
      ap (λ x. parse_chars x (flatten (map source_of pieces) ++ end ∷ rest))
        (plain_step st args t q c d)
      ∙ word-parse_chars pieces (t ++ c ∷ []) args q end rest h e
      ∙ ap (λ (u : Str). parse_chars (between (args ++ u ∷ []) q st) rest)
          (append_assoc t (c ∷ []) (map char_of pieces))
  word-parse_chars (escaped c ∷ pieces) t args q end rest (d, h) e =
      ap (λ x. parse_chars x (flatten (map source_of pieces) ++ end ∷ rest))
        (escaped_step st args t q c)
      ∙ word-parse_chars pieces (t ++ c ∷ []) args q end rest h e
      ∙ ap (λ (u : Str). parse_chars (between (args ++ u ∷ []) q st) rest)
          (append_assoc t (c ∷ []) (map char_of pieces))

  token-parse_chars :
      (token : Token) (args : List Str) (q : ℕ) (rest : Str)
      → IsToken token
      → (q' : ℕ) × (parse_chars (between args q st) (source token ++ rest)
          ≡ parse_chars (between (args ++ words token) q' st) rest)
  unfolding parse_chars
  token-parse_chars (blank c) args q rest h = (
    q,
    ap (λ x. parse_chars x rest) (blank_step st args q c h)
        ∙ ap (λ (l : List Str). parse_chars (between l q st) rest) (sym (append-nil args)),
  )
  token-parse_chars (quoted q s) args q' rest (h, h') = (
    q,
    ap (λ (l : Str). parse_chars (between args q' st) (q ∷ l)) (append_assoc s (q ∷ []) rest)
        ∙ ap (λ x. parse_chars x (s ++ q ∷ rest)) (open_step st args q q' h)
        ∙ quoted-parse_chars s [] args q rest h',
  )
  token-parse_chars (word c pieces end) args q rest (h, h', e) = (
    q,
    ap (λ (l : Str). parse_chars (between args q st) (c ∷ l))
          (append_assoc (flatten (map source_of pieces)) (end ∷ []) rest)
        ∙ ap (λ x. parse_chars x (flatten (map source_of pieces) ++ end ∷ rest))
            (first_step st args q c h)
        ∙ word-parse_chars pieces (c ∷ []) args q end rest h' e,
  )

  -- Between words, an input of tokens adds their words to the arguments.
  pub parse_chars-source :
      (tokens : List Token) (args : List Str) (q : ℕ)
      → All IsToken tokens
      → (q' : ℕ) × (parse_chars (between args q st) (flatten (map source tokens))
          ≡ between (args ++ flatten (map words tokens)) q' st)
  unfolding parse_chars flatten
  parse_chars-source [] args q h =
      (q, ap (λ (l : List Str). between l q st) (sym (append-nil args)))
  parse_chars-source (token ∷ tokens) args q (h, hs) =
      let (q1, e1) = token-parse_chars token args q (flatten (map source tokens)) h in
      let (q2, e2) = parse_chars-source tokens (args ++ words token) q1 hs in
      (
        q2,
        e1
            ∙ e2
            ∙ ap (λ (l : List Str). between l q2 st)
                (append_assoc args (words token) (flatten (map words tokens))),
      )
