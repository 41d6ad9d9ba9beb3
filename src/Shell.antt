-- ===== src/Shell.antt =====
-- The lexical analyser of the shell: shell/lexan.c with the constants of include/shell.h. A line is the
-- list of its characters; behind the last one stands NULLCH. The indices are below 2 ^ 31, so
-- they do not wrap.
pub mod Bounds
pub mod Grammar
pub mod Tokens
pub mod Result
pub mod Accepts
use os_demand_paging.Base.{
  length, ℕ, zero, suc, ◌+◌, Bool, true, ◌||◌, Option, none, some, List, [], ◌∷◌, Table, put,
  syserr, ◌==◌, leb, if◌then◌else◌,
}

abbrev pub shell_maxtok : ℕ
shell_maxtok = 32

-- `TY_IBUFLEN` is 128.
abbrev pub shell_buflen : ℕ
shell_buflen = 128 + 1

abbrev pub shell_arglen : ℕ
shell_arglen = shell_buflen + shell_maxtok

abbrev pub tok_amper : ℕ
tok_amper = 0

abbrev pub tok_less : ℕ
tok_less = 1

abbrev pub tok_greater : ℕ
tok_greater = 2

abbrev pub tok_other : ℕ
tok_other = 3

abbrev pub is_end : ℕ → Bool
is_end c = c == 0 || c == b'\n'

abbrev pub is_blank : ℕ → Bool
is_blank c = c == b' ' || c == b'\t'

abbrev pub is_quote : ℕ → Bool
is_quote c = c == b'\'' || c == b'"'

abbrev pub is_redirect : ℕ → Bool
is_redirect c = c == b'<' || c == b'>'

-- The characters at which a token without quotes stops.
abbrev pub ends_word : ℕ → Bool
ends_word c = is_end c || is_redirect c || is_blank c || c == b'&' || is_quote c

-- `*p == NULLCH || *p == SH_NEWLINE`
abbrev pub at_end : List ℕ → Bool
at_end [] = true
at_end (c ∷ cs) = is_end c

-- The arrays and counters of the caller and of the function.
pub record Lex : Type 0 where
  pub tokbuf : Table ℕ
  pub tok : Table ℕ
  pub toktyp : Table ℕ
  pub tlen : ℕ
  pub ntok : ℕ
  pub tbindex : ℕ

abbrev pub put_char : ℕ → Lex → Lex
put_char ch s = record s { tokbuf = put s.tokbuf s.tbindex ch; tbindex = s.tbindex + 1 }

abbrev pub begin_token : ℕ → Lex → Lex
begin_token typ s = record s { tok = put s.tok s.ntok s.tbindex; toktyp = put s.toktyp s.ntok typ }

-- `tokbuf[tbindex++] = NULLCH; ntok++;`
abbrev pub end_token : Lex → Lex
end_token s = record (put_char 0 s) { ntok = s.ntok + 1 }

unfoldable pub skip_blanks : List ℕ → List ℕ
skip_blanks [] = []
skip_blanks (c ∷ cs) = if is_blank c then skip_blanks cs else c ∷ cs

-- The state, `ch` behind the loop, and what is left of the line.
unfoldable pub copy_quoted : ℕ → Lex → List ℕ → Lex × ℕ × List ℕ
copy_quoted quote s [] = (s, 0, [])
copy_quoted quote s (c ∷ cs) =
    if c == quote || is_end c then (s, c, cs) else copy_quoted quote (put_char c s) cs

unfoldable pub copy_word : Lex → List ℕ → Lex × ℕ × List ℕ
copy_word s [] = (s, 0, [])
copy_word s (c ∷ cs) = if ends_word c then (s, c, c ∷ cs) else copy_word (put_char c s) cs

-- What a round of the outer loop comes to: `SYSERR`, or the rest of the line.
pub data Round : Type 0 where
  failed : Lex → Round
  next : Lex → List ℕ → Round

abbrev pub quoted_token : ℕ → Lex → List ℕ → Round
quoted_token ch s cs =
    let (s', last, rest) = copy_quoted ch s cs in
    if last == ch then next (end_token s') rest else failed s'

abbrev pub word_token : ℕ → Lex → List ℕ → Round
word_token ch s cs =
    let (s', last, rest) = copy_word (put_char ch s) cs in
    if is_quote last || is_redirect last then failed s' else next (end_token s') rest

abbrev pub operator_token : ℕ → ℕ → Lex → List ℕ → Round
operator_token typ ch s cs = next (end_token (put_char ch (begin_token typ s))) cs

-- The token at the character `ch`.
unfoldable pub lex_token : ℕ → Lex → List ℕ → Round
lex_token ch s cs =
    if ch == b'&'
    then operator_token tok_amper ch s cs
    else (if ch == b'<'
        then operator_token tok_less ch s cs
        else (if ch == b'>'
            then operator_token tok_greater ch s cs
            else (if is_quote ch
                then quoted_token ch (begin_token tok_other s) cs
                else word_token ch (begin_token tok_other s) cs)))

abbrev pub end_lexan : Lex → Option (Lex × ℕ)
end_lexan s = some (record s { tlen = s.tbindex }, s.ntok)

-- Behind the blanks
unfoldable pub lex_rest : Lex → List ℕ → Round
lex_rest s [] = failed s
lex_rest s (ch ∷ cs) = lex_token ch s cs

abbrev pub after_round : (Lex → List ℕ → Option (Lex × ℕ)) → Round → Option (Lex × ℕ)
after_round loop (failed s) = some (s, syserr)
after_round loop (next s rest) = loop s rest

-- A round takes a character at least, so the length of the line is fuel enough; `none` if the fuel
-- runs out.
unfoldable pub lexan_loop : ℕ → List ℕ → Lex → Option (Lex × ℕ)
lexan_loop zero line s = none
lexan_loop (suc n) line s =
    let token = after_round (λ s' rest. lexan_loop n rest s') (lex_rest s (skip_blanks line)) in
    if at_end line
    then end_lexan s
    else (if leb shell_maxtok s.ntok
        then some (s, syserr)
        else (if at_end (skip_blanks line) then end_lexan s else token))

unfoldable pub lexan : List ℕ → Lex → Option (Lex × ℕ)
lexan line s = lexan_loop (length line + 1) line (record s { ntok = 0; tbindex = 0 })
