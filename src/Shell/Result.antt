-- ===== src/Shell/Result.antt =====
-- The result of `lexan`, against the grammar.
use os_demand_paging.Shell.Bounds.{lexan-Bounded}
use os_demand_paging.Shell.Tokens.{OneMore, RoundToken, skip_blanks-Skipped, lex_rest-Token}
use os_demand_paging.Shell.Grammar.{
  Token, All, Piece, Lexes, Stored, IsToken, Text-keep, more, stop,
}
use os_demand_paging.Shell.{
  Lex, lexan_loop, is_blank, Round, skip_blanks, after_round, at_end, failed, next, lex_rest, lexan,
  shell_buflen,
}
use os_demand_paging.Base.{
  length, zero, ℕ, ◌+◌, ◌<◌, ◌≡◌, ◌⊎◌, inl, inr, List, [], syserr, arith, refl, ◌++◌, Option, some,
  suc, ◌∙◌, ◌∷◌, Bool-cases, leb, ap, ◌≤◌,
}

-- From the state `s` on the tokens `ts` of the line were found; the result `r` holds them behind
-- those of `s`.
record Found (s : Lex) (line : List ℕ) (r : Lex × ℕ) (ts : List Token) : Type 0 where
  lexes : Lexes line ts
  count : r.1 ≡ s.ntok + length ts
  stored : Stored r.0 s.ntok s.tbindex ts
  chars : (c : ℕ) → c < s.tbindex → r.0.tokbuf c ≡ s.tokbuf c
  starts : (i : ℕ) → i < s.ntok → r.0.tok i ≡ s.tok i
  types : (i : ℕ) → i < s.ntok → r.0.toktyp i ≡ s.toktyp i

abbrev Lexed : Lex → List ℕ → Lex × ℕ → Type 0
Lexed s line r = (r.1 ≡ syserr) ⊎ ((ts : List Token) × Found s line r ts)

ended-Found :
    (s : Lex) (line : List ℕ)
    → Lexes line []
    → Found s line (record s { tlen = s.tbindex }, s.ntok) []
ended-Found s line l = record {
  lexes = l;
  count = omega arith;
  stored = refl;
  chars = λ c h. refl;
  starts = λ c h. refl;
  types = λ c h. refl;
}

-- A token that stays in the arrays.
kept-IsToken :
    (s s' r : Lex) (t : Token)
    → OneMore s t s'
    → ((c : ℕ) → c < s'.tbindex → r.tokbuf c ≡ s'.tokbuf c)
    → ((i : ℕ) → i < s'.ntok → r.tok i ≡ s'.tok i)
    → ((i : ℕ) → i < s'.ntok → r.toktyp i ≡ s'.toktyp i)
    → IsToken r s.ntok s.tbindex t
kept-IsToken s s' r t m chars starts types =
    let last : s.tbindex + length t.text < s'.tbindex = omega (arith, m.index) in
    record {
      start = starts s.ntok (omega (arith, m.count)) ∙ m.token.start;
      type = types s.ntok (omega (arith, m.count)) ∙ m.token.type;
      text =
          Text-keep s'.tokbuf r.tokbuf s.tbindex s'.tbindex t.text chars (omega arith) m.token.text;
      nul = chars _ last ∙ m.token.nul;
    }

more-Found :
    (s s' : Lex) (line rest blanks piece : List ℕ) (r : Lex × ℕ) (t : Token) (ts : List Token)
    → line ≡ blanks ++ (piece ++ rest)
    → All is_blank blanks
    → Piece piece rest t
    → OneMore s t s'
    → Found s' rest r ts
    → Found s line r (t ∷ ts)
more-Found s s' line rest blanks piece r t ts e all p m f = record {
  lexes = more blanks piece e all p f.lexes;
  count = omega (arith, f.count, m.count);
  stored = (kept-IsToken s s' r.0 t m f.chars f.starts f.types, rw (← m.count, ← m.index) f.stored);
  chars = λ c h. f.chars c (omega (arith, m.index)) ∙ m.chars c h;
  starts = λ i h. f.starts i (omega (arith, m.count)) ∙ m.starts i h;
  types = λ i h. f.types i (omega (arith, m.count)) ∙ m.types i h;
}

after_round-Lexed :
    (loop : Lex → List ℕ → Option (Lex × ℕ)) (s : Lex) (line : List ℕ) (round : Round) (r : Lex × ℕ)
    → RoundToken s (skip_blanks line) round
    → ((s' : Lex) (rest : List ℕ) → loop s' rest ≡ some r → Lexed s' rest r)
    → after_round loop round ≡ some r
    → Lexed s line r
unfolding RoundToken
after_round-Lexed loop s line (failed s') r h f e = inl (ground arith)
after_round-Lexed loop s line (next s' rest) r (t, piece, parts, p, m) f e = elim (f s' rest e) [
  | inl err ↦ inl err
  | inr (ts, found) ↦
      let b = skip_blanks-Skipped line in
      inr (
        t ∷ ts,
        more-Found s s' line rest b.blanks piece r t ts (b.parts ∙ ap (λ l. b.blanks ++ l) parts)
            b.all p m found,
      )
]

lexan_loop-Lexed :
    (n : ℕ) (line : List ℕ) (s : Lex) (r : Lex × ℕ) → lexan_loop n line s ≡ some r → Lexed s line r
unfolding lexan_loop
lexan_loop-Lexed zero line s r e = absurd (ground arith)
lexan_loop-Lexed (suc n) line s r e = elim (Bool-cases (at_end line)) [
  | inl e1 ↦
      let l = stop {line = line} [] line refl tt e1 in
      let same : (record s { tlen = s.tbindex }, s.ntok) ≡ r = cc (rw e1 at e) in
      inr ([], rw (← same) (ended-Found s line l))
  | inr e1 ↦ elim (Bool-cases (leb 32 s.ntok)) [
    | inl full ↦ inl (ground arith)
    | inr few ↦ elim (Bool-cases (at_end (skip_blanks line))) [
      | inl e2 ↦
          let b = skip_blanks-Skipped line in
          let l = stop {line = line} b.blanks (skip_blanks line) b.parts b.all e2 in
          let same : (record s { tlen = s.tbindex }, s.ntok) ≡ r = cc (rw (e1, few, e2) at e) in
          inr ([], rw (← same) (ended-Found s line l))
      | inr e2 ↦
          after_round-Lexed (λ s' rest. lexan_loop n rest s') s line (lex_rest s (skip_blanks line))
            r (lex_rest-Token s line (skip_blanks line) refl e2)
            (λ s' rest h. lexan_loop-Lexed n rest s' r h) (rw (e1, few, e2) at e)
    ]
  ]
]

-- For a line that fits into the shell's input buffer, `lexan` returns, and either gives up, or has
-- divided the line into tokens: operators, texts between quotes, and words that a blank, `&` or the end
-- of the line follows. Its result is their number; their types, the places of their texts, and the
-- texts, each with NULLCH behind it, are in the arrays in order, one text behind the other up to `tlen`.
pub lexan_lem :
    (line : List ℕ) (s : Lex)
    → length line ≤ shell_buflen
    → (r : Lex × ℕ) × (lexan line s ≡ some r)
      × ((r.1 ≡ syserr)
          ⊎ ((ts : List Token) × Lexes line ts × (r.1 ≡ length ts) × Stored r.0 0 0 ts))
unfolding lexan
lexan_lem line s fit =
    let (r, e, b) = lexan-Bounded line s fit in
    (
      r,
      e,
      elim (lexan_loop-Lexed (length line + 1) line (record s { ntok = 0; tbindex = 0 }) r
          (unfold lexan in e)) [
            | inl err ↦ inl err
            | inr (ts, f) ↦ inr (ts, f.lexes, omega (arith, f.count), f.stored)
          ],
    )
