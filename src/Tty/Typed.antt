-- ===== src/Tty/Typed.antt =====
-- `ttyhandle_in` in cooked mode, against the list of characters that is being edited.
use os_demand_paging.Tty.Branches.{
  Ends, kill_line-IsInput, type-IsInput, erase_char-IsInput, eof_put, end_line-Ends,
}
use os_demand_paging.Tty.Edit.{IsInput, echo-Echoed, eputc-Echoed, Echoed-IsInput, dress-IsInput}
use os_demand_paging.Tty.Ring.{drop_last}
use os_demand_paging.Tty.Counts.{semcount-count}
use os_demand_paging.Tty.{
  ty_newline, ty_return, ty_imraw, ty_imcbreak, eof_in, echo, eputc, place_char, cooked_in,
  edited_in, handle_char, ttyhandle_in, available, set_held, ttykickout,
}
use os_demand_paging.Kernel.{Kernel, Ttycblk, done, Code}
use os_demand_paging.Base.{
  ℕ, ◌+◌, ◌<◌, ◌≡◌, ◌≢◌, ◌⊎◌, inl, inr, List, [], ◌∷◌, ◌++◌, length, Bool, true, false, ◌&&◌, ◌||◌,
  ◌==◌, leb, slt, sle, add32, if◌then◌else◌, arith, refl, Bool-cases,
}

-- The characters that can be read and the line being typed, after an ordinary character or EOF.
abbrev pub placed : Ttycblk → ℕ → List ℕ → List ℕ → List ℕ × List ℕ
placed t ch ready line =
    if leb 127 (length ready + length line)
    then (ready, line)
    else (if ch == t.tyeofch && t.tyeof
        then (if length line == 0 then (ready ++ (line ++ ch ∷ []), []) else (ready, line))
        else (ready, line ++ ch ∷ []))

-- The same after any character but those of flow control: kill, erase, the end of a line, and others.
abbrev pub typed : Ttycblk → ℕ → List ℕ → List ℕ → List ℕ × List ℕ
typed t ch ready line =
    if ch == t.tyikillc && t.tyikill
    then (ready, [])
    else (if (ch == t.tyierasec || ch == t.tyierasec2) && t.tyierase
        then (ready, drop_last line)
        else (if ch == ty_newline || ch == ty_return
            then (ready ++ (line ++ ch ∷ []), [])
            else placed t ch ready line))

abbrev pub mapped : Ttycblk → ℕ → ℕ
mapped t ch = if ch == ty_return && t.tyicrlf then ty_newline else ch

abbrev pub edited : Ttycblk → ℕ → List ℕ → List ℕ → List ℕ × List ℕ
edited t ch ready line =
    if t.tyoflow && (mapped t ch == t.tyostart || mapped t ch == t.tyostop)
    then (ready, line)
    else typed t (mapped t ch) ready line

-- The code ends with the input `r`.
abbrev Ended : Code (Unit {0}) → Kernel → List ℕ × List ℕ → Type 0
Ended code k r = Ends code k r.0 r.1

-- `EOF` is not put into the last place of the buffer.
abbrev pub EofFits : Ttycblk → ℕ → Type 0
EofFits t ch = (ch ≢ t.tyeofch) ⊎ (t.tyitail < 127)

eof_in-Ended :
    (k : Kernel) (ready line : List ℕ) (ch : ℕ)
    → IsInput k ready line
    → length ready + length line < 128
    → k.tty.tyitail < 127
    → Ended
        (eof_in ch)
        k
        (if length line == 0 then (ready ++ (line ++ ch ∷ []), []) else (ready, line))
unfolding eof_in
eof_in-Ended k ready line ch h room low =
    let e = echo-Echoed ch k in
    let k1 = echo ch k in
    let h1 = Echoed-IsInput k k1 ready line e h in
    elim (Bool-cases (length line == 0)) [
      | inl empty ↦
          let start : (k1.tty.tyicursor == 0) ≡ true = ground (arith, h1.content.cursor) in
          let low1 : k1.tty.tyitail < 127 = rw (e.same) low in
          rw (start, empty) (eof_put k1 ready line h1 room ch low1 (ground arith))
      | inr some ↦
          let inside : (k1.tty.tyicursor == 0) ≡ false = ground (arith, h1.content.cursor) in
          rw (inside, some) (k1, refl, h1)
    ]

place_char-Ended :
    (k : Kernel) (ready line : List ℕ) (ch : ℕ)
    → IsInput k ready line
    → length ready + length line < 128
    → EofFits k.tty ch
    → Ended (place_char ch (length ready)) k (placed k.tty ch ready line)
unfolding place_char
place_char-Ended k ready line ch h room fits =
    elim (Bool-cases (leb 127 (length ready + length line))) [
      | inl full ↦
          let bell : sle 127 (add32 (length ready) k.tty.tyicursor) ≡ true =
            ground (arith, h.content.cursor) in
          rw (full, bell)
            (
              eputc k.tty.tyifullc k,
              refl,
              Echoed-IsInput k _ ready line (eputc-Echoed k.tty.tyifullc k) h,
            )
      | inr space ↦
          let no_bell : sle 127 (add32 (length ready) k.tty.tyicursor) ≡ false =
            ground (arith, h.content.cursor) in
          elim (Bool-cases (ch == k.tty.tyeofch && k.tty.tyeof)) [
            | inl e ↦
                let low : k.tty.tyitail < 127 = ground (arith, fits) in
                rw (space, no_bell, e) (eof_in-Ended k ready line ch h room low)
            | inr n ↦
                let h1 = Echoed-IsInput k (echo ch k) ready line (echo-Echoed ch k) h in
                rw (space, no_bell, n) (_, refl, type-IsInput (echo ch k) ready line h1 room ch)
          ]
    ]

available-ready :
    (k : Kernel) (ready line : List ℕ) → IsInput k ready line → available k ≡ done k (length ready)
unfolding available
available-ready k ready line h =
    let count = semcount-count k k.tty.tyisem (length ready) h.idle in
    let up : slt (length ready) 0 ≡ false = ground (arith, h.content.fits) in rw (count, up) refl

cooked_in-Ended :
    (k : Kernel) (ready line : List ℕ) (ch : ℕ)
    → IsInput k ready line
    → length ready + length line < 128
    → ((ch == ty_newline || ch == ty_return) ≡ false → EofFits k.tty ch)
    → Ended (cooked_in ch) k (typed k.tty ch ready line)
unfolding cooked_in
cooked_in-Ended k ready line ch h room fits =
    elim (Bool-cases (ch == k.tty.tyikillc && k.tty.tyikill)) [
      | inl kill ↦ rw kill (_, refl, kill_line-IsInput k ready line h room)
      | inr a ↦
          elim (Bool-cases ((ch == k.tty.tyierasec || ch == k.tty.tyierasec2) && k.tty.tyierase)) [
            | inl erase ↦ rw (a, erase) (_, refl, erase_char-IsInput k ready line h room)
            | inr b ↦ elim (Bool-cases (ch == ty_newline || ch == ty_return)) [
              | inl over ↦ rw (a, b, over) (end_line-Ends k ready line ch h room)
              | inr c ↦
                  rw (a, b, c, available-ready k ready line h)
                    (place_char-Ended k ready line ch h room (fits c))
            ]
          ]
    ]

set_held-IsInput :
    (k : Kernel) (held : Bool) (ready line : List ℕ)
    → IsInput k ready line
    → IsInput (set_held held k) ready line
unfolding set_held
set_held-IsInput k held ready line h =
    dress-IsInput k k.tty.tyebuff k.tty.tyetail held k.uart ready line h

kickout-IsInput :
    (k : Kernel) (ready line : List ℕ) → IsInput k ready line → IsInput (ttykickout k) ready line
unfolding ttykickout
kickout-IsInput k ready line h =
    dress-IsInput k k.tty.tyebuff k.tty.tyetail k.tty.tyoheld (record k.uart { ier = 3 }) ready line
      h

edited_in-Ended :
    (k : Kernel) (ready line : List ℕ) (ch avail : ℕ)
    → IsInput k ready line
    → length ready + length line < 128
    → EofFits k.tty ch
    → Ended (edited_in ch avail) k (edited k.tty ch ready line)
unfolding edited_in set_held
edited_in-Ended k ready line ch0 avail h room fits =
    let ch = mapped k.tty ch0 in
    let cooked : (k.tty.tyimode == ty_imcbreak) ≡ false = ground (arith, h.content.mode) in
    let k1 = set_held false k in
    let h1 = set_held-IsInput k false ready line h in
    elim (Bool-cases (k.tty.tyoflow && ch == k.tty.tyostart)) [
      | inl start ↦
          let flow : (k.tty.tyoflow && (ch == k.tty.tyostart || ch == k.tty.tyostop)) ≡ true =
            ground arith in
          rw (start, flow) (ttykickout k1, refl, kickout-IsInput k1 ready line h1)
      | inr a ↦ elim (Bool-cases (k.tty.tyoflow && ch == k.tty.tyostop)) [
        | inl stop ↦
            let flow : (k.tty.tyoflow && (ch == k.tty.tyostart || ch == k.tty.tyostop)) ≡ true =
              ground arith in
            rw (a, stop, flow) (set_held true k, refl, set_held-IsInput k true ready line h)
        | inr b ↦
            let free : (k.tty.tyoflow && (ch == k.tty.tyostart || ch == k.tty.tyostop)) ≡ false =
              ground arith in
            rw (a, b, free, cooked)
              (cooked_in-Ended k1 ready line ch h1 room (λ n. ground (arith, fits)))
      ]
    ]

-- A character that arrives in cooked mode, while no process waits for input and the buffer is not
-- full, edits the line being typed, and no process comes to run: flow control changes nothing, the kill
-- character clears the line, an erase character takes its last one away, a newline or carriage
-- return completes it, and so does EOF at its beginning; any other character is added to the line, unless
-- 127 characters are in the buffer. The ring of the buffer, the count of the semaphore and the
-- cursor stay those of the characters that can be read and of the line. EOF in the last place of the
-- buffer is excepted.
pub ttyhandle_in-edited :
    (k : Kernel) (ready line : List ℕ) (ch : ℕ)
    → IsInput k ready line
    → length ready + length line < 128
    → EofFits k.tty ch
    → (k' : Kernel) × (ttyhandle_in ch k ≡ done k' tt)
      × IsInput k' (edited k.tty ch ready line).0 (edited k.tty ch ready line).1
unfolding ttyhandle_in handle_char
ttyhandle_in-edited k ready line ch h room fits =
    let cooked : (k.tty.tyimode == ty_imraw) ≡ false = ground (arith, h.content.mode) in
    rw (available-ready k ready line h, cooked)
      (edited_in-Ended k ready line ch (length ready) h room fits)
