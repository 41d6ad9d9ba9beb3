-- ===== src/Tty/Edit.antt =====
-- Cooked mode: each character that arrives edits the line that is being typed.
use os_demand_paging.Tty.Ring.{IsLine}
use os_demand_paging.Tty.Counts.{IsIdle}
use os_demand_paging.Tty.{ttykickout, eputc, erase_echo, echoch, echo, is_control}
use os_demand_paging.Kernel.{Kernel, Ttycblk, Uart}
use os_demand_paging.Base.{
  ℕ, ◌-◌, ◌<◌, ◌^◌, ◌≡◌, List, length, Table, Bool, true, false, ◌&&◌, ◌||◌, ◌==◌, if◌then◌else◌,
  refl, ◌∙◌, ap,
}

-- The characters that can be read, and the line being typed.
pub record IsInput (k : Kernel) (ready line : List ℕ) : Type 0 where
  pub content : IsLine k.tty ready line
  pub idle : IsIdle k k.tty.tyisem (length ready)
  pub defers : k.ndefers < 2 ^ 31 - 1

-- Another echo queue, flag for held output and device.
abbrev pub dress : Table ℕ → ℕ → Bool → Uart → Kernel → Kernel
dress b i held u k = record k {
  tty = record k.tty { tyebuff = b; tyetail = i; tyoheld = held };
  uart = u;
}

pub record Echoed (k k' : Kernel) : Type 0 where
  pub buffer : Table ℕ
  pub index : ℕ
  pub uart : Uart
  pub same : k' ≡ dress buffer index k.tty.tyoheld uart k

pub eputc-Echoed : (ch : ℕ) (k : Kernel) → Echoed k (eputc ch k)
unfolding eputc ttykickout
eputc-Echoed ch k = record { buffer = _; index = _; uart = _; same = refl }

pub Echoed-trans : (a b c : Kernel) → Echoed a b → Echoed b c → Echoed a c
Echoed-trans a b c h g = record {
  buffer = g.buffer;
  index = g.index;
  uart = g.uart;
  same = g.same ∙ ap (λ k. dress g.buffer g.index k.tty.tyoheld g.uart k) h.same;
}

pub eputc_twice : (c d : ℕ) (k : Kernel) → Echoed k (eputc d (eputc c k))
eputc_twice c d k = Echoed-trans k (eputc c k) _ (eputc-Echoed c k) (eputc-Echoed d (eputc c k))

pub no-Echoed : (k : Kernel) → Echoed k k
no-Echoed k = record { buffer = _; index = _; uart = _; same = refl }

pub if-Echoed :
    (b : Bool) (k x y : Kernel) → Echoed k x → Echoed k y → Echoed k (if b then x else y)
if-Echoed true k x y h g = h
if-Echoed false k x y h g = g

pub erase_echo-Echoed : (k : Kernel) → Echoed k (erase_echo k)
unfolding erase_echo
erase_echo-Echoed k =
    let k1 = eputc 8 k in
    let one = eputc-Echoed 8 k in
    if-Echoed k1.tty.tyieback k _ _ (Echoed-trans k k1 _ one (eputc_twice 32 8 k1)) one

echoch-Echoed : (ch : ℕ) (k : Kernel) → Echoed k (echoch ch k)
unfolding echoch
echoch-Echoed ch k =
    if-Echoed ((ch == 10 || ch == 13) && k.tty.tyecrlf) k _ _ (eputc_twice 13 10 k)
      (if-Echoed (is_control ch && k.tty.tyevis) k _ _ (eputc_twice b'^' _ k) (eputc-Echoed ch k))

pub echo-Echoed : (ch : ℕ) (k : Kernel) → Echoed k (echo ch k)
unfolding echo
echo-Echoed ch k = if-Echoed k.tty.tyiecho k _ _ (echoch-Echoed ch k) (no-Echoed k)

-- Echo and flow control leave the input as it is.
pub dress-IsInput :
    (k : Kernel) (b : Table ℕ) (i : ℕ) (held : Bool) (u : Uart) (ready line : List ℕ)
    → IsInput k ready line
    → IsInput (dress b i held u k) ready line
dress-IsInput k b i held u ready line h = record {
  content = record {
    head_lt = h.content.head_lt;
    tail = h.content.tail;
    cursor = h.content.cursor;
    fits = h.content.fits;
    ring = h.content.ring;
    mode = h.content.mode;
  };
  idle = record {
    good = h.idle.good;
    used = h.idle.used;
    count = h.idle.count;
    limit = h.idle.limit;
  };
  defers = h.defers;
}

pub Echoed-IsInput :
    (k k' : Kernel) (ready line : List ℕ)
    → Echoed k k'
    → IsInput k ready line
    → IsInput k' ready line
Echoed-IsInput k k' ready line e h =
    rw (e.same) (dress-IsInput k e.buffer e.index k.tty.tyoheld e.uart ready line h)

-- A kernel whose input lines differ only.
pub line-IsInput :
    (k : Kernel) (t : Ttycblk) (ready line line' : List ℕ)
    → IsInput k ready line
    → t.tyisem ≡ k.tty.tyisem
    → IsLine t ready line'
    → IsInput (record k { tty = t }) ready line'
line-IsInput k t ready line line' h sem l = record {
  content = l;
  idle = record {
    good = rw sem (h.idle.good);
    used = rw sem (h.idle.used);
    count = rw sem (h.idle.count);
    limit = h.idle.limit;
  };
  defers = h.defers;
}
