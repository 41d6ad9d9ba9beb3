-- ===== src/Tty/Ring.antt =====
-- The input buffer of a terminal line as a ring.
use os_demand_paging.Tty.{ty_imcooked, wrap}
use os_demand_paging.Kernel.{Ttycblk}
use mathlib.Core.List.{append_assoc, append-nil}
use os_demand_paging.Base.{
  ℕ, ◌+◌, ◌-◌, ◌%◌, ◌≤◌, ◌<◌, ◌≡◌, ◌≢◌, List, [], ◌∷◌, ◌++◌, length, Table, put, put_ne, arith,
  refl, ltb, if◌then◌else◌, ◌==◌, ◌∙◌, sym,
}

-- The list lies in the buffer from the index `h` on, round its end.
abbrev pub Ring : Table ℕ → ℕ → List ℕ → Type 0
Ring buf h [] = Unit {0}
Ring buf h (x ∷ xs) = (buf (h % 128) ≡ x) × Ring buf (h + 1) xs

pub length-append : (xs ys : List ℕ) → length (xs ++ ys) ≡ length xs + length ys
length-append [] ys = omega arith
length-append (x ∷ xs) ys = omega (arith, length-append xs ys)

-- A character more at the end.
pub Ring-snoc :
    (buf : Table ℕ) (h i c : ℕ) (xs : List ℕ)
    → i ≡ (h + length xs) % 128
    → length xs < 128
    → Ring buf h xs
    → Ring (put buf i c) h (xs ++ c ∷ [])
Ring-snoc buf h i c [] e l r = (rw e (ground arith), tt)
Ring-snoc buf h i c (x ∷ xs) e l r =
    let other : h % 128 ≢ i = omega arith in
    (
      put_ne buf i (h % 128) c other ∙ r.0,
      Ring-snoc buf (h + 1) i c xs (omega arith) (omega arith) r.1,
    )

pub Ring-prefix : (buf : Table ℕ) (h : ℕ) (xs ys : List ℕ) → Ring buf h (xs ++ ys) → Ring buf h xs
Ring-prefix buf h [] ys r = tt
Ring-prefix buf h (x ∷ xs) ys r = (r.0, Ring-prefix buf (h + 1) xs ys r.1)

-- The list without its last character.
abbrev pub drop_last : List ℕ → List ℕ
drop_last [] = []
drop_last (x ∷ []) = []
drop_last (x ∷ y ∷ ys) = x ∷ drop_last (y ∷ ys)

pub length-drop_last : (xs : List ℕ) → length (drop_last xs) ≡ length xs - 1
length-drop_last [] = omega arith
length-drop_last (x ∷ []) = omega arith
length-drop_last (x ∷ y ∷ ys) = omega (arith, length-drop_last (y ∷ ys))

pub Ring-drop_last :
    (buf : Table ℕ) (h : ℕ) (xs ys : List ℕ)
    → Ring buf h (xs ++ ys)
    → Ring buf h (xs ++ drop_last ys)
Ring-drop_last buf h [] [] r = tt
Ring-drop_last buf h [] (x ∷ []) r = tt
Ring-drop_last buf h [] (x ∷ y ∷ ys) r = (r.0, Ring-drop_last buf (h + 1) [] (y ∷ ys) r.1)
Ring-drop_last buf h (x ∷ xs) ys r = (r.0, Ring-drop_last buf (h + 1) xs ys r.1)

-- In cooked mode the buffer holds the characters `ready` that may be read, and behind them those of the line
-- that is being typed.
pub record IsLine (t : Ttycblk) (ready line : List ℕ) : Type 0 where
  pub head_lt : t.tyihead < 128
  pub tail : t.tyitail ≡ (t.tyihead + length ready + length line) % 128
  pub cursor : t.tyicursor ≡ length line
  pub fits : length ready + length line ≤ 128
  pub ring : Ring t.tyibuff t.tyihead (ready ++ line)
  pub mode : t.tyimode ≡ ty_imcooked

module _ (t : Ttycblk) (ready line : List ℕ) (h : IsLine t ready line)
    (room : length ready + length line < 128) where
  -- The ring after `ch` was put in at the tail.
  put-Ring : (ch : ℕ) → Ring (put t.tyibuff t.tyitail ch) t.tyihead (ready ++ (line ++ ch ∷ []))
  put-Ring ch =
      let len = length-append ready line in
      rw (sym (append_assoc ready line (ch ∷ []))) (
        Ring-snoc t.tyibuff t.tyihead t.tyitail ch (ready ++ line) (omega (arith, len, h.tail))
          (omega (arith, len)) h.ring)

  pub put-IsLine :
      (ch n : ℕ)
      → n ≡ length line + 1
      → IsLine
          (record t {
            tyibuff = put t.tyibuff t.tyitail ch;
            tyitail = wrap 128 (t.tyitail + 1);
            tyicursor = n;
          })
          ready
          (line ++ ch ∷ [])
  put-IsLine ch n e =
      let len = length-append line (ch ∷ []) in
      record {
        head_lt = h.head_lt;
        tail = ground (arith, len, h.tail, h.head_lt);
        cursor = omega (arith, len);
        fits = omega (arith, len);
        ring = put-Ring ch;
        mode = h.mode;
      }

  -- The line is complete.
  pub end-IsLine :
      (ch i : ℕ)
      → i ≡ wrap 128 (t.tyitail + 1)
      → IsLine
          (record t { tyibuff = put t.tyibuff t.tyitail ch; tyitail = i; tyicursor = 0 })
          (ready ++ (line ++ ch ∷ []))
          []
  end-IsLine ch i e =
      let len = length-append line (ch ∷ []) in
      let all = length-append ready (line ++ ch ∷ []) in
      record {
        head_lt = h.head_lt;
        tail = ground (arith, len, all, h.tail, h.head_lt, e);
        cursor = refl;
        fits = omega (arith, len, all);
        ring = rw (append-nil (ready ++ (line ++ ch ∷ []))) (put-Ring ch);
        mode = h.mode;
      }

pub kill-IsLine :
    (t : Ttycblk) (ready line : List ℕ) (i : ℕ)
    → IsLine t ready line
    → i ≡ (
        if ltb t.tyitail t.tyicursor
        then t.tyitail + 128 - t.tyicursor
        else t.tyitail - t.tyicursor)
    → length ready + length line < 128
    → IsLine (record t { tyitail = i; tyicursor = 0 }) ready []
kill-IsLine t ready line i h e room = record {
  head_lt = h.head_lt;
  tail = ground (arith, h.tail, h.cursor, h.head_lt, e);
  cursor = refl;
  fits = omega arith;
  ring = rw (append-nil ready) (Ring-prefix t.tyibuff t.tyihead ready line h.ring);
  mode = h.mode;
}

pub erase-IsLine :
    (t : Ttycblk) (ready line : List ℕ) (i n : ℕ)
    → IsLine t ready line
    → 0 < length line
    → i ≡ (if t.tyitail == 0 then 127 else t.tyitail - 1)
    → n + 1 ≡ length line
    → IsLine (record t { tyitail = i; tyicursor = n }) ready (drop_last line)
erase-IsLine t ready line i n h some e f =
    let len = length-drop_last line in
    record {
      head_lt = h.head_lt;
      tail = ground (arith, h.tail, h.head_lt, e, len);
      cursor = omega (arith, len);
      fits = omega (arith, len, h.fits);
      ring = Ring-drop_last t.tyibuff t.tyihead ready line h.ring;
      mode = h.mode;
    }
