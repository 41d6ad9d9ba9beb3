-- ===== src/Shell/Bounds.antt =====
-- The writes of `lexan` stay inside its arrays.
use os_demand_paging.Shell.{
  Lex, Round, failed, next, put_char, begin_token, end_token, copy_quoted, copy_word, is_end,
  ends_word, shell_maxtok, lex_rest, lex_token, lexan_loop, operator_token, quoted_token,
  skip_blanks, word_token, is_quote, tok_amper, is_redirect, tok_less, at_end, tok_greater,
  tok_other, after_round, lexan, shell_buflen, shell_arglen,
}
use os_demand_paging.Base.{
  length, zero, Option, ℕ, ◌+◌, ◌≤◌, ◌<◌, ◌≡◌, inl, inr, Bool-cases, List, [], ◌∷◌, arith, refl,
  ◌∙◌, ◌==◌, ◌||◌, syserr, some, ◌⊎◌, suc, leb,
}

-- From `lim` on the token buffer is as it was, and so are the arrays behind their last entry.
pub record Inside (lim : ℕ) (s s' : Lex) : Type 0 where
  pub buffer : (c : ℕ) → lim ≤ c → s'.tokbuf c ≡ s.tokbuf c
  pub starts : (i : ℕ) → shell_maxtok ≤ i → s'.tok i ≡ s.tok i
  pub types : (i : ℕ) → shell_maxtok ≤ i → s'.toktyp i ≡ s.toktyp i

Inside-trans : (lim : ℕ) (a b c : Lex) → Inside lim a b → Inside lim b c → Inside lim a c
Inside-trans lim a b c h k = record {
  buffer = λ i l. k.buffer i l ∙ h.buffer i l;
  starts = λ i l. k.starts i l ∙ h.starts i l;
  types = λ i l. k.types i l ∙ h.types i l;
}

put_char-Inside : (lim ch : ℕ) (s : Lex) → s.tbindex < lim → Inside lim s (put_char ch s)
put_char-Inside lim ch s h = record {
  buffer = λ c l. ground arith;
  starts = λ i l. refl;
  types = λ i l. refl;
}

begin_token-Inside : (lim typ : ℕ) (s : Lex) → s.ntok < 32 → Inside lim s (begin_token typ s)
begin_token-Inside lim typ s h = record {
  buffer = λ c l. refl;
  starts = λ i l. ground arith;
  types = λ i l. ground arith;
}

end_token-Inside : (lim : ℕ) (s : Lex) → s.tbindex < lim → Inside lim s (end_token s)
end_token-Inside lim s h = record {
  buffer = λ c l. ground arith;
  starts = λ i l. refl;
  types = λ i l. refl;
}

-- A loop that copies characters has room for them if what is left of the line fits.
record Copied (lim : ℕ) (s : Lex) (cs : List ℕ) (r : Lex × ℕ × List ℕ) : Type 0 where
  inside : Inside lim s r.0
  room : r.0.tbindex + length r.2 ≤ s.tbindex + length cs
  count : r.0.ntok ≡ s.ntok
  shorter : length r.2 ≤ length cs

stays-Inside : (lim : ℕ) (s : Lex) → Inside lim s s
stays-Inside lim s = record { buffer = λ c l. refl; starts = λ i l. refl; types = λ i l. refl }

copy_quoted-Copied :
    (lim quote : ℕ) (s : Lex) (cs : List ℕ)
    → s.tbindex + length cs ≤ lim
    → Copied lim s cs (copy_quoted quote s cs)
unfolding copy_quoted
copy_quoted-Copied lim quote s [] h = record {
  inside = stays-Inside lim s;
  room = omega arith;
  count = refl;
  shorter = omega arith;
}
copy_quoted-Copied lim quote s (c ∷ cs) h = elim (Bool-cases (c == quote || is_end c)) [
  | inl stop ↦ rw stop (record {
    inside = stays-Inside lim s;
    room = omega arith;
    count = refl;
    shorter = omega arith;
  })
  | inr more ↦
      let r = copy_quoted-Copied lim quote (put_char c s) cs (omega arith) in
      rw more (record {
        inside = Inside-trans lim s _ _ (put_char-Inside lim c s (omega arith)) r.inside;
        room = omega (arith, r.room);
        count = r.count;
        shorter = omega (arith, r.shorter);
      })
]

copy_word-Copied :
    (lim : ℕ) (s : Lex) (cs : List ℕ)
    → s.tbindex + length cs ≤ lim
    → Copied lim s cs (copy_word s cs)
unfolding copy_word
copy_word-Copied lim s [] h = record {
  inside = stays-Inside lim s;
  room = omega arith;
  count = refl;
  shorter = omega arith;
}
copy_word-Copied lim s (c ∷ cs) h = elim (Bool-cases (ends_word c)) [
  | inl stop ↦ rw stop (record {
    inside = stays-Inside lim s;
    room = omega arith;
    count = refl;
    shorter = omega arith;
  })
  | inr more ↦
      let r = copy_word-Copied lim (put_char c s) cs (omega arith) in
      rw more (record {
        inside = Inside-trans lim s _ _ (put_char-Inside lim c s (omega arith)) r.inside;
        room = omega (arith, r.room);
        count = r.count;
        shorter = omega (arith, r.shorter);
      })
]

-- What a round leaves.
abbrev RoundInside : ℕ → Lex → List ℕ → Round → Type 0
RoundInside lim s line (failed s') = Inside lim s s'
RoundInside lim s line (next s' rest) =
    Inside lim s s'
    × (s'.tbindex + length rest ≤ s.tbindex + length line + 1)
    × (s'.ntok ≡ s.ntok + 1)
    × (length rest < length line)

quoted-Inside :
    (lim ch : ℕ) (s : Lex) (cs : List ℕ)
    → s.tbindex + length cs + 2 ≤ lim
    → RoundInside lim s (ch ∷ cs) (quoted_token ch s cs)
quoted-Inside lim ch s cs h =
    let r = copy_quoted-Copied lim ch s cs (omega arith) in
    let e = (copy_quoted ch s cs).0 in
    elim (Bool-cases ((copy_quoted ch s cs).1 == ch)) [
      | inl closed ↦ rw closed (
        Inside-trans lim s e _ r.inside (end_token-Inside lim e (omega (arith, r.room))),
        omega (arith, r.room),
        omega (arith, r.count),
        omega (arith, r.shorter),
      )
      | inr open_quote ↦ rw open_quote r.inside
    ]

word-Inside :
    (lim ch : ℕ) (s : Lex) (cs : List ℕ)
    → s.tbindex + length cs + 2 ≤ lim
    → RoundInside lim s (ch ∷ cs) (word_token ch s cs)
word-Inside lim ch s cs h =
    let s1 = put_char ch s in
    let r = copy_word-Copied lim s1 cs (omega arith) in
    let first = put_char-Inside lim ch s (omega arith) in
    let e = (copy_word s1 cs).0 in
    let last = (copy_word s1 cs).1 in
    elim (Bool-cases (is_quote last || is_redirect last)) [
      | inl stuck ↦ rw stuck (Inside-trans lim s s1 e first r.inside)
      | inr over ↦ rw over (
        Inside-trans lim s s1 _ first
            (Inside-trans lim s1 e _ r.inside (end_token-Inside lim e (omega (arith, r.room)))),
        omega (arith, r.room),
        omega (arith, r.count),
        omega (arith, r.shorter),
      )
    ]

operator-Inside :
    (lim typ ch : ℕ) (s : Lex) (cs : List ℕ)
    → s.tbindex + length cs + 2 ≤ lim
    → s.ntok < 32
    → RoundInside lim s (ch ∷ cs) (operator_token typ ch s cs)
operator-Inside lim typ ch s cs h few =
    let s1 = begin_token typ s in
    let s2 = put_char ch s1 in
    (
      Inside-trans lim s s1 _ (begin_token-Inside lim typ s few) (
          Inside-trans lim s1 s2 _ (put_char-Inside lim ch s1 (omega arith))
            (end_token-Inside lim s2 (omega arith))),
      omega arith,
      omega arith,
      omega arith,
    )

-- A round that follows the beginning of a token.
begun :
    (lim typ : ℕ) (s : Lex) (line : List ℕ) (r : Round)
    → s.ntok < 32
    → RoundInside lim (begin_token typ s) line r
    → RoundInside lim s line r
begun lim typ s line (failed s') few h =
    Inside-trans lim s _ s' (begin_token-Inside lim typ s few) h
begun lim typ s line (next s' rest) few h =
    (Inside-trans lim s _ s' (begin_token-Inside lim typ s few) h.0, h.1, h.2, h.3)

lex_token-Inside :
    (lim ch : ℕ) (s : Lex) (cs : List ℕ)
    → s.tbindex + length cs + 2 ≤ lim
    → s.ntok < 32
    → RoundInside lim s (ch ∷ cs) (lex_token ch s cs)
unfolding lex_token
lex_token-Inside lim ch s cs h few = elim (Bool-cases (ch == b'&')) [
  | inl a ↦ rw a (operator-Inside lim tok_amper ch s cs h few)
  | inr a ↦ elim (Bool-cases (ch == b'<')) [
    | inl b ↦ rw (a, b) (operator-Inside lim tok_less ch s cs h few)
    | inr b ↦ elim (Bool-cases (ch == b'>')) [
      | inl c ↦ rw (a, b, c) (operator-Inside lim tok_greater ch s cs h few)
      | inr c ↦
          let s1 = begin_token tok_other s in
          elim (Bool-cases (is_quote ch)) [
            | inl q ↦
                rw (a, b, c, q)
                  (begun lim tok_other s (ch ∷ cs) _ few (quoted-Inside lim ch s1 cs h))
            | inr q ↦
                rw (a, b, c, q) (begun lim tok_other s (ch ∷ cs) _ few (word-Inside lim ch s1 cs h))
          ]
    ]
  ]
]

skip_blanks-le : (line : List ℕ) → length (skip_blanks line) ≤ length line
unfolding skip_blanks
skip_blanks-le [] = omega arith
skip_blanks-le (c ∷ cs) = ground (arith, skip_blanks-le cs)

lex_rest-Inside :
    (lim : ℕ) (s : Lex) (line : List ℕ)
    → s.tbindex + length line + 1 ≤ lim
    → s.ntok < 32
    → RoundInside lim s line (lex_rest s line)
unfolding lex_rest
lex_rest-Inside lim s [] h few = stays-Inside lim s
lex_rest-Inside lim s (ch ∷ cs) h few = lex_token-Inside lim ch s cs (omega arith) few

finished-Inside : (lim : ℕ) (s : Lex) → Inside lim s (record s { tlen = s.tbindex })
finished-Inside lim s = record { buffer = λ c l. refl; starts = λ i l. refl; types = λ i l. refl }

-- What `lexan` gives: an error, or the number of tokens and of the characters in the buffer.
pub record Bounded (lim : ℕ) (s : Lex) (r : Lex × ℕ) : Type 0 where
  pub inside : Inside lim s r.0
  pub result : (r.1 ≡ syserr) ⊎ ((r.1 ≤ shell_maxtok) × (r.0.tlen ≤ lim))

after_round-Bounded :
    (loop : Lex → List ℕ → Option (Lex × ℕ)) (lim : ℕ) (s : Lex) (line : List ℕ) (r : Round)
    → RoundInside lim s line r
    → ((s' : Lex) (rest : List ℕ)
        → RoundInside lim s line (next s' rest)
        → (t : Lex × ℕ) × (loop s' rest ≡ some t) × Bounded lim s' t)
    → (t : Lex × ℕ) × (after_round loop r ≡ some t) × Bounded lim s t
after_round-Bounded loop lim s line (failed s') h f =
    ((s', syserr), refl, record { inside = h; result = inl refl })
after_round-Bounded loop lim s line (next s' rest) h f =
    let (t, e, b) = f s' rest h in
    (t, e, record { inside = Inside-trans lim s s' t.0 h.0 b.inside; result = b.result })

lexan_loop-Bounded :
    (n : ℕ) (line : List ℕ) (s : Lex) (lim : ℕ)
    → length line < n
    → s.ntok ≤ 32
    → s.tbindex + length line + 32 ≤ lim + s.ntok
    → (r : Lex × ℕ) × (lexan_loop n line s ≡ some r) × Bounded lim s r
unfolding lexan_loop
lexan_loop-Bounded zero line s lim l few fit = absurd (omega arith)
lexan_loop-Bounded (suc n) line s lim l few fit = elim (Bool-cases (at_end line)) [
  | inl e ↦
      rw e (_, refl, record { inside = finished-Inside lim s; result = inr (few, omega arith) })
  | inr e ↦ elim (Bool-cases (leb 32 s.ntok)) [
    | inl full ↦ rw (e, full) (_, refl, record { inside = stays-Inside lim s; result = inl refl })
    | inr more ↦ elim (Bool-cases (at_end (skip_blanks line))) [
      | inl b ↦
          rw (e, more, b)
            (_, refl, record { inside = finished-Inside lim s; result = inr (few, omega arith) })
      | inr b ↦
          let left = skip_blanks-le line in
          rw (e, more, b)
            (after_round-Bounded (λ s' rest. lexan_loop n rest s') lim s (skip_blanks line)
              (lex_rest s (skip_blanks line))
              (lex_rest-Inside lim s (skip_blanks line) (ground (arith, left)) (ground arith))
              (λ s' rest h.
                lexan_loop-Bounded n rest s' lim (omega (arith, left, h.3)) (ground (arith, h.2))
                  (omega (arith, left, h.1, h.2))))
    ]
  ]
]

-- For a line that fits into the shell's input buffer, `lexan` returns: an error, or a number of
-- tokens of 32 at most. On every path, errors included, it writes to no place of the token
-- buffer behind its `SHELL_ARGLEN` characters and to none of the other arrays behind their 32 entries;
-- without an error the characters of the buffer that it counts are within these too.
pub lexan-Bounded :
    (line : List ℕ) (s : Lex)
    → length line ≤ shell_buflen
    → (r : Lex × ℕ) × (lexan line s ≡ some r) × Bounded shell_arglen s r
unfolding lexan
lexan-Bounded line s fit =
    let s1 : Lex = record s { ntok = 0; tbindex = 0 } in
    let (r, e, b) =
      lexan_loop-Bounded (length line + 1) line s1 shell_arglen (omega arith) (omega arith)
        (omega arith) in
    (
      r,
      e,
      record {
        inside = record {
          buffer = b.inside.buffer;
          starts = b.inside.starts;
          types = b.inside.types;
        };
        result = b.result;
      },
    )
