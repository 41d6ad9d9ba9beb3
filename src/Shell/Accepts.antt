-- ===== src/Shell/Accepts.antt =====
-- A line that has tokens is accepted.
use os_demand_paging.Shell.Bounds.{lexan-Bounded}
use os_demand_paging.Shell.Grammar.{
  Token, All, None, IsOperator, amper, less, greater, MayFollow, Piece, operator, quoted, word,
  Lexes, stop, more,
}
use os_demand_paging.Shell.{
  begin_token, end_token, tok_other, Lex, next, put_char, skip_blanks, copy_quoted, copy_word,
  lex_token, lex_rest, lexan_loop, lexan, at_end, is_end, is_blank, is_quote, is_redirect,
  ends_word, shell_buflen,
}
use mathlib.Core.List.{append_assoc}
use os_demand_paging.Base.{
  length, zero, suc, some, ==_refl, ℕ, ◌+◌, ◌≤◌, ◌<◌, ◌≡◌, List, [], ◌∷◌, ◌++◌, arith, refl, ◌∙◌,
  ap, ◌==◌, leb, ◌||◌, true, false,
}

skip_blanks-append :
    (blanks rest : List ℕ) → All is_blank blanks → skip_blanks (blanks ++ rest) ≡ skip_blanks rest
unfolding skip_blanks
skip_blanks-append [] rest h = refl
skip_blanks-append (c ∷ cs) rest h = rw (h.0) (skip_blanks-append cs rest h.1)

skip_blanks-end : (rest : List ℕ) → at_end rest ≡ true → at_end (skip_blanks rest) ≡ true
unfolding skip_blanks
skip_blanks-end [] h = refl
skip_blanks-end (c ∷ cs) h = ground arith

-- Behind blanks, a character that is not one.
skip_blanks-stops :
    (blanks cs : List ℕ) (c : ℕ)
    → All is_blank blanks
    → is_blank c ≡ false
    → skip_blanks (blanks ++ c ∷ cs) ≡ c ∷ cs
unfolding skip_blanks
skip_blanks-stops [] cs c h n = rw n
skip_blanks-stops (b ∷ bs) cs c h n = rw (h.0) (skip_blanks-stops bs cs c h.1 n)

at_end-blanks :
    (blanks cs : List ℕ) (c : ℕ)
    → All is_blank blanks
    → is_end c ≡ false
    → at_end (blanks ++ c ∷ cs) ≡ false
at_end-blanks [] cs c h n = n
at_end-blanks (b ∷ bs) cs c h n = ground (arith, h.0)

copy_quoted-stops :
    (quote : ℕ) (s : Lex) (body rest : List ℕ)
    → None (λ c. c == quote || is_end c) body
    → (s' : Lex) × (copy_quoted quote s (body ++ quote ∷ rest) ≡ (s', quote, rest))
      × (s'.ntok ≡ s.ntok)
unfolding copy_quoted
copy_quoted-stops quote s [] rest h = (s, ground arith, refl)
copy_quoted-stops quote s (c ∷ cs) rest h =
    let (s', e, n) = copy_quoted-stops quote (put_char c s) cs rest h.1 in (s', rw (h.0) e, n)

copy_word-stops :
    (s : Lex) (body rest : List ℕ)
    → None ends_word body
    → MayFollow rest
    → (s' : Lex) × (last : ℕ) × (copy_word s (body ++ rest) ≡ (s', last, rest))
      × (s'.ntok ≡ s.ntok)
      × ((is_quote last || is_redirect last) ≡ false)
unfolding copy_word
copy_word-stops s [] [] h m = (s, 0, refl, refl, refl)
copy_word-stops s [] (c ∷ cs) h m =
    let stops : ends_word c ≡ true = ground (arith, m) in (s, c, rw stops, refl, ground (arith, m))
copy_word-stops s (c ∷ cs) rest h m =
    let (s', last, e, n, l) = copy_word-stops (put_char c s) cs rest h.1 m in
    (s', last, rw (h.0) e, n, l)

-- The round at a character goes on with one token more.
abbrev Goes : Lex → ℕ → List ℕ → List ℕ → Type 0
Goes s ch cs rest =
    (is_end ch ≡ false)
    × (is_blank ch ≡ false)
    × (s' : Lex) × (lex_token ch s cs ≡ next s' rest)
    × (s'.ntok ≡ s.ntok + 1)

operator-Goes : (s : Lex) (c typ : ℕ) (rest : List ℕ) → IsOperator c typ → Goes s c rest rest
unfolding lex_token
operator-Goes s c typ rest (amper e _) = rw e (refl, refl, _, refl, refl)
operator-Goes s c typ rest (less e _) = rw e (refl, refl, _, refl, refl)
operator-Goes s c typ rest (greater e _) = rw e (refl, refl, _, refl, refl)

quoted-Goes :
    (s : Lex) (q : ℕ) (body rest : List ℕ)
    → is_quote q ≡ true
    → None (λ c. c == q || is_end c) body
    → Goes s q (body ++ q ∷ rest) rest
unfolding lex_token
quoted-Goes s q body rest k h =
    let a : (q == b'&') ≡ false = ground arith in
    let l : (q == b'<') ≡ false = ground arith in
    let g : (q == b'>') ≡ false = ground arith in
    let (s', e, n) = copy_quoted-stops q (begin_token tok_other s) body rest h in
    (ground arith, ground arith, end_token s', rw (a, l, g, k, e, ==_refl q) refl, omega (arith, n))

word-Goes :
    (s : Lex) (c : ℕ) (body rest : List ℕ)
    → None ends_word (c ∷ body)
    → MayFollow rest
    → Goes s c (body ++ rest) rest
unfolding lex_token
word-Goes s c body rest h m =
    let plain = h.0 in
    let a : (c == b'&') ≡ false = ground arith in
    let l : (c == b'<') ≡ false = ground arith in
    let g : (c == b'>') ≡ false = ground arith in
    let q : is_quote c ≡ false = ground arith in
    let (s', last, e, n, o) =
      copy_word-stops (put_char c (begin_token tok_other s)) body rest h.1 m in
    (ground arith, ground arith, end_token s', rw (a, l, g, q, e, o) refl, omega (arith, n))

piece-Goes :
    (s : Lex) (piece rest : List ℕ) (t : Token)
    → Piece piece rest t
    → (ch : ℕ) × (cs : List ℕ) × (piece ++ rest ≡ ch ∷ cs) × Goes s ch cs rest
piece-Goes s piece rest t (operator c typ o e f) =
    (c, rest, ap (λ l. l ++ rest) e, operator-Goes s c typ rest o)
piece-Goes s piece rest t (quoted q body k h e f) =
    (q, body ++ q ∷ rest, ap (λ l. l ++ rest) e ∙ simp append_assoc, quoted-Goes s q body rest k h)
piece-Goes s piece rest t (word c body h m e f) =
    (c, body ++ rest, ap (λ l. l ++ rest) e, word-Goes s c body rest h m)

lexan_loop-accepts :
    (n : ℕ) (line : List ℕ) (s : Lex) (ts : List Token) (r : Lex × ℕ)
    → Lexes line ts
    → s.ntok + length ts < 32
    → lexan_loop n line s ≡ some r
    → r.1 ≡ s.ntok + length ts
unfolding lexan_loop lex_rest
lexan_loop-accepts zero line s ts r l few e = absurd (ground arith)
lexan_loop-accepts (suc n) line s [] r (stop blanks rest p h a) few e =
    let over : at_end (skip_blanks line) ≡ true =
      rw (p, skip_blanks-append blanks rest h) (skip_blanks-end rest a) in
    ground (arith, over, e)
lexan_loop-accepts (suc n) line s (t ∷ ts) r (more {rest = rest} blanks piece p h q l) few e =
    let (ch, cs, head, (end, blank, s', token, count)) = piece-Goes s piece rest t q in
    let same : line ≡ blanks ++ ch ∷ cs = p ∙ ap (λ w. blanks ++ w) head in
    let a : at_end line ≡ false = rw same (at_end-blanks blanks cs ch h end) in
    let b : skip_blanks line ≡ ch ∷ cs = rw same (skip_blanks-stops blanks cs ch h blank) in
    let room : leb 32 s.ntok ≡ false = ground arith in
    let later = rw (a, room, b, end, token) at e in
    omega (arith, count, lexan_loop-accepts n rest s' ts r l (omega (arith, count)) later)

-- A line that can be divided into fewer than 32 tokens, and fits into the shell's input buffer, is not
-- refused: `lexan` returns the number of the tokens.
pub lexan-accepts :
    (line : List ℕ) (s : Lex) (ts : List Token)
    → length line ≤ shell_buflen
    → Lexes line ts
    → length ts < 32
    → (s' : Lex) × (lexan line s ≡ some (s', length ts))
unfolding lexan
lexan-accepts line s ts fit l few =
    let ((s', n), e, _) = lexan-Bounded line s fit in
    let count =
      lexan_loop-accepts (length line + 1) line (record s { ntok = 0; tbindex = 0 }) ts (s', n) l
        (omega arith) (unfold lexan in e) in
    (s', ground (arith, count, e))
