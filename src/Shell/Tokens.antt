-- ===== src/Shell/Tokens.antt =====
-- The tokens that `lexan` finds are those of the line.
use os_demand_paging.Shell.Grammar.{
  word, None, Text, IsOperator, Token, All, IsToken, MayFollow, Text-keep, operator, quoted, word,
  Piece, amper, less, greater,
}
use os_demand_paging.Shell.{
  Lex, put_char, copy_quoted, copy_word, is_end, is_quote, ends_word, Round, begin_token,
  is_redirect, lex_rest, lex_token, quoted_token, skip_blanks, at_end, end_token, failed, is_blank,
  operator_token, tok_other, word_token, next, tok_amper, tok_less, tok_greater,
}
use mathlib.Core.List.{append_assoc}
use os_demand_paging.Base.{
  length, ℕ, ◌+◌, ◌<◌, ◌≡◌, inl, inr, Bool-cases, List, [], ◌∷◌, ◌++◌, arith, refl, ◌∙◌, ap, ◌==◌,
  ◌||◌, true, false, Table,
}

-- The characters of `body` have been put behind those of `s`.
record Put (s : Lex) (body : List ℕ) (s' : Lex) : Type 0 where
  text : Text s'.tokbuf s.tbindex body
  old : (c : ℕ) → c < s.tbindex → s'.tokbuf c ≡ s.tokbuf c
  index : s'.tbindex ≡ s.tbindex + length body
  tok : s'.tok ≡ s.tok
  typ : s'.toktyp ≡ s.toktyp
  count : s'.ntok ≡ s.ntok

no-Put : (s : Lex) → Put s [] s
no-Put s = record {
  text = tt;
  old = λ c l. refl;
  index = omega arith;
  tok = refl;
  typ = refl;
  count = refl;
}

put-Put : (s s' : Lex) (c : ℕ) (body : List ℕ) → Put (put_char c s) body s' → Put s (c ∷ body) s'
put-Put s s' c body p = record {
  text = (p.old s.tbindex (omega arith) ∙ ground arith, p.text);
  old = λ i l. p.old i (omega arith) ∙ ground arith;
  index = omega (arith, p.index);
  tok = p.tok;
  typ = p.typ;
  count = p.count;
}

-- The loop between quotes.
record Quoted (quote : ℕ) (s : Lex) (cs : List ℕ) (r : Lex × ℕ × List ℕ) : Type 0 where
  body : List ℕ
  put : Put s body r.0
  plain : None (λ c. c == quote || is_end c) body
  parts : (r.1 == quote) ≡ true → cs ≡ body ++ quote ∷ r.2

copy_quoted-Quoted :
    (quote : ℕ) (s : Lex) (cs : List ℕ)
    → is_quote quote ≡ true
    → Quoted quote s cs (copy_quoted quote s cs)
unfolding copy_quoted
copy_quoted-Quoted quote s [] q = record {
  body = [];
  put = no-Put s;
  plain = tt;
  parts = λ e. absurd (ground arith);
}
copy_quoted-Quoted quote s (c ∷ cs) q = elim (Bool-cases (c == quote || is_end c)) [
  | inl stops ↦
      rw stops (record { body = []; put = no-Put s; plain = tt; parts = λ e. ground arith })
  | inr goes ↦
      let r = copy_quoted-Quoted quote (put_char c s) cs q in
      rw goes (record {
        body = c ∷ r.body;
        put = put-Put s _ c r.body r.put;
        plain = (goes, r.plain);
        parts = λ e. ap (λ l. c ∷ l) (r.parts e);
      })
]

-- Where the loop over a word stops.
StopsAt : ℕ → List ℕ → Type 0
StopsAt last [] = last ≡ 0
StopsAt last (c ∷ cs) = (last ≡ c) × (ends_word c ≡ true)

record Worded (s : Lex) (cs : List ℕ) (r : Lex × ℕ × List ℕ) : Type 0 where
  body : List ℕ
  put : Put s body r.0
  plain : None ends_word body
  parts : cs ≡ body ++ r.2
  stops : StopsAt r.1 r.2

copy_word-Worded : (s : Lex) (cs : List ℕ) → Worded s cs (copy_word s cs)
unfolding copy_word StopsAt
copy_word-Worded s [] = record { body = []; put = no-Put s; plain = tt; parts = refl; stops = refl }
copy_word-Worded s (c ∷ cs) = elim (Bool-cases (ends_word c)) [
  | inl stops ↦
      rw stops
        (record { body = []; put = no-Put s; plain = tt; parts = refl; stops = (refl, stops) })
  | inr goes ↦
      let r = copy_word-Worded (put_char c s) cs in
      rw goes (record {
        body = c ∷ r.body;
        put = put-Put s _ c r.body r.put;
        plain = (goes, r.plain);
        parts = ap (λ l. c ∷ l) r.parts;
        stops = r.stops;
      })
]

-- The state `s'` has the token `t` behind those of `s`.
pub record OneMore (s : Lex) (t : Token) (s' : Lex) : Type 0 where
  pub token : IsToken s' s.ntok s.tbindex t
  pub chars : (c : ℕ) → c < s.tbindex → s'.tokbuf c ≡ s.tokbuf c
  pub starts : (i : ℕ) → i < s.ntok → s'.tok i ≡ s.tok i
  pub types : (i : ℕ) → i < s.ntok → s'.toktyp i ≡ s.toktyp i
  pub index : s'.tbindex ≡ s.tbindex + length t.text + 1
  pub count : s'.ntok ≡ s.ntok + 1

Put-OneMore :
    (typ : ℕ) (s s1 : Lex) (body : List ℕ)
    → Put (begin_token typ s) body s1
    → OneMore s (record { typ = typ; text = body }) (end_token s1)
Put-OneMore typ s s1 body p =
    let keep = Text-keep s1.tokbuf (end_token s1).tokbuf s.tbindex s1.tbindex body in
    record {
      token = record {
        start = ap (λ (t : Table ℕ). t s.ntok) p.tok ∙ ground arith;
        type = ap (λ (t : Table ℕ). t s.ntok) p.typ ∙ ground arith;
        text = keep (λ c l. ground arith) (omega (arith, p.index)) p.text;
        nul = ground (arith, p.index);
      };
      chars = λ c l. ground (arith, p.index, p.old c);
      starts = λ i l. ap (λ (t : Table ℕ). t i) p.tok ∙ ground arith;
      types = λ i l. ap (λ (t : Table ℕ). t i) p.typ ∙ ground arith;
      index = omega (arith, p.index);
      count = omega (arith, p.count);
    }

unfoldable pub RoundToken : Lex → List ℕ → Round → Type 0
RoundToken s line (failed s') = Unit {0}
RoundToken s line (next s' rest) =
    (t : Token) × (piece : List ℕ) × (line ≡ piece ++ rest) × Piece piece rest t × OneMore s t s'

operator-Token :
    (typ ch : ℕ) (s : Lex) (cs : List ℕ)
    → IsOperator ch typ
    → RoundToken s (ch ∷ cs) (operator_token typ ch s cs)
unfolding RoundToken
operator-Token typ ch s cs o = (
  record { typ = typ; text = ch ∷ [] },
  ch ∷ [],
  refl,
  operator ch typ o refl refl,
  Put-OneMore typ s _ (ch ∷ []) (put-Put (begin_token typ s) _ ch [] (no-Put _)),
)

quoted-Token :
    (ch : ℕ) (s : Lex) (cs : List ℕ)
    → is_quote ch ≡ true
    → RoundToken s (ch ∷ cs) (quoted_token ch (begin_token tok_other s) cs)
unfolding RoundToken
quoted-Token ch s cs q =
    let s1 = begin_token tok_other s in
    let r = copy_quoted-Quoted ch s1 cs q in
    elim (Bool-cases ((copy_quoted ch s1 cs).1 == ch)) [
      | inr open_quote ↦ rw open_quote tt
      | inl closed ↦ rw closed (
        record { typ = tok_other; text = r.body },
        ch ∷ (r.body ++ ch ∷ []),
        ap (λ l. ch ∷ l) (r.parts closed ∙ simp append_assoc),
        quoted ch r.body q r.plain refl refl,
        Put-OneMore tok_other s _ r.body r.put,
      )
    ]

may_follow :
    (last : ℕ) (rest : List ℕ)
    → StopsAt last rest
    → (is_quote last || is_redirect last) ≡ false
    → MayFollow rest
unfolding StopsAt
may_follow last [] h n = tt
may_follow last (c ∷ cs) h n = ground (arith, h.0, h.1)

word-Token :
    (ch : ℕ) (s : Lex) (cs : List ℕ)
    → ends_word ch ≡ false
    → RoundToken s (ch ∷ cs) (word_token ch (begin_token tok_other s) cs)
unfolding RoundToken
word-Token ch s cs w =
    let s1 = begin_token tok_other s in
    let s2 = put_char ch s1 in
    let r = copy_word-Worded s2 cs in
    let last = (copy_word s2 cs).1 in
    elim (Bool-cases (is_quote last || is_redirect last)) [
      | inl stuck ↦ rw stuck tt
      | inr over ↦ rw over (
        record { typ = tok_other; text = ch ∷ r.body },
        ch ∷ r.body,
        ap (λ l. ch ∷ l) r.parts,
        word ch r.body (w, r.plain) (may_follow last _ r.stops over) refl refl,
        Put-OneMore tok_other s _ (ch ∷ r.body) (put-Put s1 _ ch r.body r.put),
      )
    ]

lex_token-Token :
    (ch : ℕ) (s : Lex) (cs : List ℕ)
    → is_end ch ≡ false
    → is_blank ch ≡ false
    → RoundToken s (ch ∷ cs) (lex_token ch s cs)
unfolding lex_token
lex_token-Token ch s cs e b = elim (Bool-cases (ch == b'&')) [
  | inl p ↦ rw p (operator-Token tok_amper ch s cs (amper (ground arith) refl))
  | inr p ↦ elim (Bool-cases (ch == b'<')) [
    | inl l ↦ rw (p, l) (operator-Token tok_less ch s cs (less (ground arith) refl))
    | inr l ↦ elim (Bool-cases (ch == b'>')) [
      | inl g ↦ rw (p, l, g) (operator-Token tok_greater ch s cs (greater (ground arith) refl))
      | inr g ↦ elim (Bool-cases (is_quote ch)) [
        | inl q ↦ rw (p, l, g, q) (quoted-Token ch s cs q)
        | inr q ↦ rw (p, l, g, q) (word-Token ch s cs (ground arith))
      ]
    ]
  ]
]

-- The blanks in front of a line.
pub record Skipped (line : List ℕ) : Type 0 where
  pub blanks : List ℕ
  pub parts : line ≡ blanks ++ skip_blanks line
  pub all : All is_blank blanks

pub skip_blanks-Skipped : (line : List ℕ) → Skipped line
unfolding skip_blanks
skip_blanks-Skipped [] = record { blanks = []; parts = refl; all = tt }
skip_blanks-Skipped (c ∷ cs) = elim (Bool-cases (is_blank c)) [
  | inl b ↦
      let r = skip_blanks-Skipped cs in
      record { blanks = c ∷ r.blanks; parts = rw b (ap (λ l. c ∷ l) r.parts); all = (b, r.all) }
  | inr n ↦ record { blanks = []; parts = rw n refl; all = tt }
]

-- Behind the blanks there is none.
skip_blanks-head :
    (line : List ℕ) (c : ℕ) (cs : List ℕ) → skip_blanks line ≡ c ∷ cs → is_blank c ≡ false
unfolding skip_blanks
skip_blanks-head [] c cs e = absurd (ground arith)
skip_blanks-head (d ∷ ds) c cs e = elim (Bool-cases (is_blank d)) [
  | inl b ↦ skip_blanks-head ds c cs (rw b at e)
  | inr n ↦ ground arith
]

pub lex_rest-Token :
    (s : Lex) (line rest : List ℕ)
    → skip_blanks line ≡ rest
    → at_end rest ≡ false
    → RoundToken s rest (lex_rest s rest)
unfolding lex_rest RoundToken
lex_rest-Token s line [] e n = tt
lex_rest-Token s line (c ∷ cs) e n = lex_token-Token c s cs n (skip_blanks-head line c cs e)
