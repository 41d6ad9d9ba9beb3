-- ===== src/Tty/Branches.antt =====
-- The branches of `ttyhandle_in` in cooked mode.
use os_demand_paging.Tty.Edit.{
  IsInput, Echoed, echo-Echoed, Echoed-IsInput, line-IsInput, Echoed-trans, erase_echo-Echoed,
  eputc_twice, no-Echoed, if-Echoed,
}
use os_demand_paging.Tty.Ring.{
  IsLine, drop_last, put-IsLine, end-IsLine, kill-IsLine, erase-IsLine, length-append,
}
use os_demand_paging.Tty.Counts.{IsIdle, signal-Raised, signaln-Raised}
use os_demand_paging.Tty.{
  erase_echo, set_tty, put_input, put_eof, raise, kill_line, erase_char, erase1, end_line, echo,
  is_control,
}
use os_demand_paging.Semaphore.{isbadsem, signaln}
use os_demand_paging.Kernel.{modify, ◌>>◌, Kernel, Ttycblk, done, Code}
use os_demand_paging.Base.{
  ℕ, ◌+◌, ◌-◌, ◌<◌, ◌^◌, ◌≡◌, inl, inr, List, [], ◌∷◌, ◌++◌, length, true, false, ◌&&◌, ◌==◌, slt,
  add32, sub32, if◌then◌else◌, arith, refl, ap, Bool-cases, ◌∙◌, not,
}

-- The code ends in a state with this input.
abbrev pub Ends : Code (Unit {0}) → Kernel → List ℕ → List ℕ → Type 0
Ends code k ready line = (k' : Kernel) × (code k ≡ done k' tt) × IsInput k' ready line

-- The pointer goes back by one; what follows in `erase1` is echo.
abbrev back : Kernel → Kernel
back = set_tty (λ t. record t { tyitail = if t.tyitail == 0 then 127 else t.tyitail - 1 })

erase1-Echoed : (k : Kernel) → Echoed (back k) (erase1 k)
unfolding erase1
erase1-Echoed k =
    let k1 = back k in
    let once = erase_echo-Echoed k1 in
    if-Echoed (not k1.tty.tyiecho) k1 _ _ (no-Echoed k1) (
      if-Echoed (is_control (k1.tty.tyibuff k1.tty.tyitail) && k1.tty.tyevis) k1 _ _
        (Echoed-trans k1 (erase_echo k1) _ once (erase_echo-Echoed (erase_echo k1))) once)

drop_nothing : (line : List ℕ) → length line ≡ 0 → drop_last line ≡ line
drop_nothing [] e = refl
drop_nothing (c ∷ cs) e = absurd (omega arith)

pub nothing : (line : List ℕ) → length line ≡ 0 → line ≡ []
nothing [] e = refl
nothing (c ∷ cs) e = absurd (omega arith)

-- The input, from what the counting of characters leaves.
counted-IsInput :
    (k : Kernel) (t : Ttycblk) (ready line : List ℕ)
    → k.tty ≡ t
    → isbadsem t.tyisem ≡ false
    → (k.semtab t.tyisem).used ≡ true
    → (k.semtab t.tyisem).scount ≡ length ready
    → k.ndefers < 2 ^ 31 - 1
    → IsLine t ready line
    → IsInput k ready line
counted-IsInput k t ready line e good used count d l = record {
  content = rw e l;
  idle = record {
    good = rw e good;
    used = rw e used;
    count = rw e count;
    limit = omega (arith, l.fits);
  };
  defers = d;
}

module _ (k : Kernel) (ready line : List ℕ) (h : IsInput k ready line)
    (room : length ready + length line < 128) where
  pub kill_line-IsInput : IsInput (kill_line k) ready []
  unfolding kill_line
  kill_line-IsInput =
      Echoed-IsInput _ _ ready [] (eputc_twice 13 10 _)
        (line-IsInput k _ ready line [] h refl (kill-IsLine k.tty ready line _ h.content refl room))

  -- The line with one more character.
  pub type-IsInput :
      (ch : ℕ)
      → IsInput
          (put_input ch (set_tty (λ t. record t { tyicursor = add32 t.tyicursor 1 }) k))
          ready
          (line ++ ch ∷ [])
  unfolding put_input
  type-IsInput ch = line-IsInput k _ ready line (line ++ ch ∷ []) h refl (
      put-IsLine k.tty ready line h.content room ch (add32 k.tty.tyicursor 1)
        (omega (arith, h.content.cursor)))

  pub erase_char-IsInput : IsInput (erase_char k) ready (drop_last line)
  unfolding erase_char
  erase_char-IsInput = elim (Bool-cases (slt 0 k.tty.tyicursor)) [
    | inl some ↦
        let k1 = set_tty (λ t. record t { tyicursor = sub32 t.tyicursor 1 }) k in
        let more : 0 < length line = ground (arith, h.content.cursor) in
        rw some (
          Echoed-IsInput (back k1) _ ready (drop_last line) (erase1-Echoed k1) (
            line-IsInput k _ ready line (drop_last line) h refl (
              erase-IsLine k.tty ready line _ (sub32 k.tty.tyicursor 1) h.content more refl
                (omega (arith, h.content.cursor)))))
    | inr none_left ↦
        let empty : length line ≡ 0 = ground (arith, h.content.cursor) in
        rw (none_left, drop_nothing line empty) h
  ]

  end_put :
      (ch : ℕ)
      → (k' : Kernel) × ((do
        signaln (put_input ch k).tty.tyisem (add32 (put_input ch k).tty.tyicursor 1)
        modify (set_tty (λ t. record t { tyicursor = 0 })))
            (put_input ch k)
          ≡ done k' tt)
        × IsInput k' (ready ++ (line ++ ch ∷ [])) []
  unfolding put_input
  end_put ch =
      let k2 = put_input ch k in
      let n = add32 k.tty.tyicursor 1 in
      let i : IsIdle k2 k.tty.tyisem (length ready) = record {
        good = h.idle.good;
        used = h.idle.used;
        count = h.idle.count;
        limit = h.idle.limit;
      } in
      let (k3, e, used, count, same, d) =
        signaln-Raised k2 k.tty.tyisem (length ready) n i (omega (arith, h.content.cursor))
          h.defers in
      let sum = length-append ready (line ++ ch ∷ []) in
      let typed = length-append line (ch ∷ []) in
      (
        set_tty (λ t. record t { tyicursor = 0 }) k3,
        rw e refl,
        counted-IsInput (set_tty (λ t. record t { tyicursor = 0 }) k3) _ _ []
            (ap (λ (t : Ttycblk). record t { tyicursor = 0 }) same) h.idle.good used
            (omega (arith, count, sum, typed, h.content.cursor)) (rw d h.defers)
            (end-IsLine k.tty ready line h.content room ch _ refl),
      )

  pub eof_put :
      (ch : ℕ)
      → k.tty.tyitail < 127
      → length line ≡ 0
      → Ends raise (put_eof ch k) (ready ++ (line ++ ch ∷ [])) []
  unfolding put_eof raise
  eof_put ch low empty =
      let k2 = put_eof ch k in
      let i : IsIdle k2 k.tty.tyisem (length ready) = record {
        good = h.idle.good;
        used = h.idle.used;
        count = h.idle.count;
        limit = h.idle.limit;
      } in
      let (k3, e, r) = signal-Raised k2 k.tty.tyisem (length ready) i in
      let sum = length-append ready (line ++ ch ∷ []) in
      let typed = length-append line (ch ∷ []) in
      let l = end-IsLine k.tty ready line h.content room ch (k.tty.tyitail + 1) (ground arith) in
      (
        k3,
        rw e refl,
        counted-IsInput k3 k2.tty _ [] r.tty h.idle.good r.used (omega (arith, r.count, sum, typed))
            (rw (r.ndefers) h.defers)
            (record {
              head_lt = l.head_lt;
              tail = l.tail;
              cursor = h.content.cursor ∙ empty;
              fits = l.fits;
              ring = l.ring;
              mode = l.mode;
            }),
      )

pub end_line-Ends :
    (k : Kernel) (ready line : List ℕ) (ch : ℕ)
    → IsInput k ready line
    → length ready + length line < 128
    → Ends (end_line ch) k (ready ++ (line ++ ch ∷ [])) []
unfolding end_line
end_line-Ends k ready line ch h room =
    let h1 = Echoed-IsInput k (echo ch k) ready line (echo-Echoed ch k) h in
    end_put (echo ch k) ready line h1 room ch
