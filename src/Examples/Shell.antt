-- ===== src/Examples/Shell.antt =====
-- The command line `ls -l 'a b' > out &`.
use os_demand_paging.Shell.{
  Lex, lexan, shell_arglen, tok_other, tok_greater, tok_amper, lexan_loop, lex_rest, lex_token,
  copy_word, skip_blanks,
}
use os_demand_paging.Shell.Bounds.{Bounded, lexan-Bounded}
use os_demand_paging.Shell.Grammar.{
  Token, Lexes, stop, more, operator, quoted, word, greater, amper, Stored,
}
use os_demand_paging.Shell.Result.{lexan_lem}
use os_demand_paging.Shell.Accepts.{lexan-accepts}
use os_demand_paging.Base.{length, ℕ, ◌≡◌, ◌⊎◌, List, [], ◌∷◌, some, Option, syserr, arith, refl}

abbrev line : List ℕ
line =
    b' ' ∷ b'l' ∷ b's' ∷ b' ' ∷ b'\'' ∷ b'a' ∷ b' ' ∷ b'b' ∷ b'\'' ∷ b'>' ∷ b'o' ∷ b'&' ∷ b'\n' ∷ []

abbrev empty_lex : Lex
empty_lex = record {
  tokbuf = λ i. 7;
  tok = λ i. 0;
  toktyp = λ i. 0;
  tlen = 0;
  ntok = 0;
  tbindex = 0;
}

abbrev tokens : List Token
tokens =
    record { typ = tok_other; text = b'l' ∷ b's' ∷ [] }
    ∷ record { typ = tok_other; text = b'a' ∷ b' ' ∷ b'b' ∷ [] }
    ∷ record { typ = tok_greater; text = b'>' ∷ [] }
    ∷ record { typ = tok_other; text = b'o' ∷ [] }
    ∷ record { typ = tok_amper; text = b'&' ∷ [] }
    ∷ []

line-Lexes : Lexes line tokens
line-Lexes =
    more (b' ' ∷ []) (b'l' ∷ b's' ∷ []) refl (refl, tt)
      (word b'l' (b's' ∷ []) (refl, (refl, tt)) refl refl refl)
      (more (b' ' ∷ []) (b'\'' ∷ b'a' ∷ b' ' ∷ b'b' ∷ b'\'' ∷ []) refl (refl, tt)
        (quoted b'\'' (b'a' ∷ b' ' ∷ b'b' ∷ []) refl (refl, (refl, (refl, tt))) refl refl)
        (more [] (b'>' ∷ []) refl tt (operator b'>' tok_greater (greater refl refl) refl refl) (
          more [] (b'o' ∷ []) refl tt (word b'o' [] (refl, tt) refl refl refl) (
            more [] (b'&' ∷ []) refl tt (operator b'&' tok_amper (amper refl refl) refl refl)
              (stop [] (b'\n' ∷ []) refl tt refl)))))

lexan-Bounded_example :
    (r : Lex × ℕ) × (lexan line empty_lex ≡ some r) × Bounded shell_arglen empty_lex r
lexan-Bounded_example = lexan-Bounded line empty_lex (omega arith)

lexan_lem_example :
    (r : Lex × ℕ) × (lexan line empty_lex ≡ some r)
    × ((r.1 ≡ syserr) ⊎ ((ts : List Token) × Lexes line ts × (r.1 ≡ length ts) × Stored r.0 0 0 ts))
lexan_lem_example = lexan_lem line empty_lex (omega arith)

lexan-accepts_example : (s' : Lex) × (lexan line empty_lex ≡ some (s', 5))
lexan-accepts_example = lexan-accepts line empty_lex tokens (omega arith) line-Lexes (omega arith)

abbrev count_of : Option (Lex × ℕ) → ℕ
count_of (some (s, n)) = n
count_of _ = 99

-- A word that a quote or a redirection follows at once is refused.
lexan_appended : count_of (lexan (b'l' ∷ b'>' ∷ b'o' ∷ []) empty_lex) ≡ syserr
unfolding lexan lexan_loop lex_rest lex_token copy_word skip_blanks
lexan_appended = refl
