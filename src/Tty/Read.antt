-- ===== src/Tty/Read.antt =====
-- `ttygetc` takes the characters of the ring in their order.
use os_demand_paging.Tty.Device.{ttygetc, take_input, sign_extend, eof}
use os_demand_paging.Tty.Edit.{IsInput}
use os_demand_paging.Tty.Ring.{IsLine, Ring}
use os_demand_paging.Tty.{ty_imcooked, set_tty, wrap}
use os_demand_paging.Semaphore.{wait, isbadsem, set_sem}
use os_demand_paging.Kernel.{Kernel, Ttycblk, done}
use os_demand_paging.Base.{
  ℕ, ◌+◌, ◌%◌, ◌≡◌, List, [], ◌∷◌, ◌++◌, length, Table, true, false, ◌&&◌, ◌==◌, slt, sub32,
  if◌then◌else◌, arith, refl, ◌∙◌, ap, Bool-cases, inl, inr, sym, ==_refl, not,
}

Ring-mod :
    (buf : Table ℕ) (h h' : ℕ) (xs : List ℕ) → h % 128 ≡ h' % 128 → Ring buf h xs → Ring buf h' xs
Ring-mod buf h h' [] e r = tt
Ring-mod buf h h' (x ∷ xs) e r =
    (ap buf (omega arith) ∙ r.0, Ring-mod buf (h + 1) (h' + 1) xs (omega arith) r.1)

take-IsLine :
    (t : Ttycblk) (c : ℕ) (ready line : List ℕ)
    → IsLine t (c ∷ ready) line
    → IsLine (record t { tyihead = wrap 128 (t.tyihead + 1) }) ready line
take-IsLine t c ready line h = record {
  head_lt = ground (arith, h.head_lt);
  tail = ground (arith, h.tail, h.head_lt);
  cursor = h.cursor;
  fits = omega (arith, h.fits);
  ring =
      Ring-mod t.tyibuff (t.tyihead + 1) (wrap 128 (t.tyihead + 1)) (ready ++ line)
        (ground (arith, h.head_lt)) h.ring.1;
  mode = h.mode;
}

-- The result for a character: EOF, or its value as an `int`.
abbrev pub read_as : Ttycblk → ℕ → ℕ
read_as t c = if t.tyeof && c == t.tyeofch then eof else sign_extend c

-- In cooked mode, `ttygetc` with characters to be read returns the first of them at once, or EOF if it
-- is the end-of-file character and that is honoured. The other characters can then be read, in
-- their order, and the line being typed is as it was.
pub ttygetc-read :
    (k : Kernel) (c : ℕ) (ready line : List ℕ)
    → IsInput k (c ∷ ready) line
    → (k' : Kernel) × (ttygetc k ≡ done k' (read_as k.tty c)) × IsInput k' ready line
unfolding ttygetc take_input wait
ttygetc-read k c ready line h =
    let left : sub32 (k.semtab k.tty.tyisem).scount 1 ≡ length ready =
      ground (arith, h.idle.count, h.idle.limit) in
    let room : slt (length ready) 0 ≡ false = ground (arith, h.idle.limit) in
    let k1 = set_sem k.tty.tyisem (λ s. record s { scount = sub32 s.scount 1 }) k in
    let at_head : k.tty.tyihead % 128 ≡ k.tty.tyihead = omega (arith, h.content.head_lt) in
    let first : k.tty.tyibuff k.tty.tyihead ≡ c =
      ap k.tty.tyibuff (sym at_head) ∙ h.content.ring.0 in
    let is_good : (not (isbadsem k.tty.tyisem) && (k.semtab k.tty.tyisem).used) ≡ true =
      ground (arith, h.idle.good, h.idle.used) in
    let no_wait : slt (k1.semtab k.tty.tyisem).scount 0 ≡ false =
      rw (==_refl k.tty.tyisem, left) room in
    let cooked : (k.tty.tyimode == ty_imcooked) ≡ true = ground (arith, h.content.mode) in
    let k2 : Kernel = set_tty (λ t. record t { tyihead = wrap 128 (t.tyihead + 1) }) k1 in
    let taken : IsInput k2 ready line = record {
      content = take-IsLine k.tty c ready line h.content;
      idle = record {
        good = h.idle.good;
        used = rw (==_refl k.tty.tyisem) (h.idle.used);
        count = rw (==_refl k.tty.tyisem) left;
        limit = omega (arith, h.idle.limit);
      };
      defers = h.defers;
    } in
    elim (Bool-cases (k.tty.tyeof && c == k.tty.tyeofch)) [
      | inl e ↦ rw (is_good, no_wait, first, cooked, e) (k2, refl, taken)
      | inr n ↦ rw (is_good, no_wait, first, cooked, n) (k2, refl, taken)
    ]
