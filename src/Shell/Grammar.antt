-- ===== src/Shell/Grammar.antt =====
-- The tokens of a command line, described without the code, and how the arrays of `lexan` hold
-- them.
use os_demand_paging.Shell.{
  Lex, at_end, is_end, is_blank, is_quote, ends_word, tok_amper, tok_less, tok_greater, tok_other,
}
use os_demand_paging.Base.{
  length, ℕ, ◌+◌, ◌≤◌, ◌<◌, ◌≡◌, Bool, true, false, ◌||◌, List, [], ◌∷◌, ◌++◌, Table, ◌==◌, arith,
  ◌∙◌,
}

pub record Token : Type 0 where
  pub typ : ℕ
  pub text : List ℕ

-- Every character of the list has the property.
abbrev pub All : (ℕ → Bool) → List ℕ → Type 0
All p [] = Unit {0}
All p (c ∷ cs) = (p c ≡ true) × All p cs

abbrev pub None : (ℕ → Bool) → List ℕ → Type 0
None p [] = Unit {0}
None p (c ∷ cs) = (p c ≡ false) × None p cs

-- The character of an operator, and its type.
pub data IsOperator (c typ : ℕ) : Type 0 where
  amper : c ≡ b'&' → typ ≡ tok_amper → IsOperator c typ
  less : c ≡ b'<' → typ ≡ tok_less → IsOperator c typ
  greater : c ≡ b'>' → typ ≡ tok_greater → IsOperator c typ

-- What may follow a word: the end of the line, a blank or `&`.
abbrev pub MayFollow : List ℕ → Type 0
MayFollow [] = Unit {0}
MayFollow (c ∷ cs) = (is_end c || is_blank c || c == b'&') ≡ true

-- A piece of the line in front of `rest` is the token `t`: an operator; a text between quotes, which
-- holds neither this quote nor the end of a line; or a word.
pub data Piece (piece rest : List ℕ) (t : Token) : Type 0 where
  operator :
      (c typ : ℕ)
      → IsOperator c typ
      → piece ≡ c ∷ []
      → t ≡ record { typ = typ; text = c ∷ [] }
      → Piece piece rest t
  quoted :
      (q : ℕ) (body : List ℕ)
      → is_quote q ≡ true
      → None (λ c. c == q || is_end c) body
      → piece ≡ q ∷ (body ++ q ∷ [])
      → t ≡ record { typ = tok_other; text = body }
      → Piece piece rest t
  word :
      (c : ℕ) (body : List ℕ)
      → None ends_word (c ∷ body)
      → MayFollow rest
      → piece ≡ c ∷ body
      → t ≡ record { typ = tok_other; text = c ∷ body }
      → Piece piece rest t

-- The tokens of a line, with blanks in front of each and of the end.
pub data Lexes : List ℕ → List Token → Type 0 where
  stop :
      {line : List ℕ} (blanks rest : List ℕ)
      → line ≡ blanks ++ rest
      → All is_blank blanks
      → at_end rest ≡ true
      → Lexes line []
  more :
      {line rest : List ℕ} {t : Token} {ts : List Token} (blanks piece : List ℕ)
      → line ≡ blanks ++ (piece ++ rest)
      → All is_blank blanks
      → Piece piece rest t
      → Lexes rest ts
      → Lexes line (t ∷ ts)

-- The characters lie in the buffer from `b` on.
abbrev pub Text : Table ℕ → ℕ → List ℕ → Type 0
Text buf b [] = Unit {0}
Text buf b (c ∷ cs) = (buf b ≡ c) × Text buf (b + 1) cs

-- The token `t` is entry `i`, and its text lies from `b` on with NULLCH behind it.
pub record IsToken (s : Lex) (i b : ℕ) (t : Token) : Type 0 where
  pub start : s.tok i ≡ b
  pub type : s.toktyp i ≡ t.typ
  pub text : Text s.tokbuf b t.text
  pub nul : s.tokbuf (b + length t.text) ≡ 0

-- The tokens are the entries from `i` on, one text behind the other from `b` on, up to `tlen`.
abbrev pub Stored : Lex → ℕ → ℕ → List Token → Type 0
Stored s i b [] = s.tlen ≡ b
Stored s i b (t ∷ ts) = IsToken s i b t × Stored s (i + 1) (b + length t.text + 1) ts

pub Text-keep :
    (buf buf' : Table ℕ) (b lim : ℕ) (cs : List ℕ)
    → ((c : ℕ) → c < lim → buf' c ≡ buf c)
    → b + length cs ≤ lim
    → Text buf b cs
    → Text buf' b cs
Text-keep buf buf' b lim [] same fit h = tt
Text-keep buf buf' b lim (c ∷ cs) same fit h =
    (same b (omega arith) ∙ h.0, Text-keep buf buf' (b + 1) lim cs same (omega arith) h.1)
