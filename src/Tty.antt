-- ===== src/Tty.antt =====
-- The terminal line: include/tty.h, device/tty/ttyhandle_in.c and ttykickout.c. Its calls of the hardware
-- are writes to the record `uart`; a character that arrives is an argument. A character is its 8-bit
-- pattern, and `char` is signed. A pointer into a buffer is an index.
pub mod Device
pub mod Ring
pub mod Counts
pub mod Edit
pub mod Branches
pub mod Typed
pub mod Read
use os_demand_paging.Base.{
  ℕ, ◌+◌, ◌-◌, ◌*◌, ◌%◌, Bool, true, false, not, ◌&&◌, ◌||◌, put, add32, sub32, slt, sle, ltb, leb,
  ◌==◌, if◌then◌else◌, List, [], ◌∷◌, ◌++◌,
}
use os_demand_paging.Kernel.{Kernel, Ttycblk, Uart, Code, done, pure, modify, ◌>>=◌, ◌>>◌}
use os_demand_paging.Semaphore.{semcount, signal, signaln}

abbrev pub ty_ebuflen : ℕ
ty_ebuflen = 20

abbrev pub ty_ibuflen : ℕ
ty_ibuflen = 128

abbrev pub ty_obuflen : ℕ
ty_obuflen = 64

abbrev pub ty_imraw : ℕ
ty_imraw = b'R'

abbrev pub ty_imcooked : ℕ
ty_imcooked = b'C'

abbrev pub ty_imcbreak : ℕ
ty_imcbreak = b'K'

abbrev pub ty_backsp : ℕ
ty_backsp = 8

abbrev pub ty_blank : ℕ
ty_blank = b' '

abbrev pub ty_newline : ℕ
ty_newline = 10

abbrev pub ty_return : ℕ
ty_return = 13

abbrev pub ty_uparrow : ℕ
ty_uparrow = b'^'

abbrev pub set_tty : (Ttycblk → Ttycblk) → Kernel → Kernel
set_tty f k = record k { tty = f k.tty }

-- The next index of a buffer of `n` entries.
abbrev pub wrap : ℕ → ℕ → ℕ
wrap n i = if leb n i then 0 else i

-- `UART_IER_ERBFI | UART_IER_ETBEI`
unfoldable pub ttykickout : Kernel → Kernel
ttykickout k = record k { uart = record k.uart { ier = 3 } }

unfoldable pub eputc : ℕ → Kernel → Kernel
eputc ch k = ttykickout (
    set_tty
      (λ t. record t {
        tyebuff = put t.tyebuff t.tyetail ch;
        tyetail = wrap ty_ebuflen (t.tyetail + 1);
      })
      k)

-- `ch < TY_BLANK || ch == 0177`
abbrev pub is_control : ℕ → Bool
is_control ch = ltb ch 32 || leb 128 ch || ch == 127

-- A backspace, which erases the character on the screen if that is wanted.
unfoldable pub erase_echo : Kernel → Kernel
erase_echo k =
    let k1 = eputc ty_backsp k in
    if k1.tty.tyieback then eputc ty_backsp (eputc ty_blank k1) else k1

unfoldable pub erase1 : Kernel → Kernel
erase1 k0 =
    let k =
      set_tty (λ t. record t { tyitail = if t.tyitail == 0 then ty_ibuflen - 1 else t.tyitail - 1 })
        k0 in
    let ch = k.tty.tyibuff k.tty.tyitail in
    if not k.tty.tyiecho
    then k
    else (if is_control ch && k.tty.tyevis then erase_echo (erase_echo k) else erase_echo k)

unfoldable pub echoch : ℕ → Kernel → Kernel
echoch ch k =
    if (ch == ty_newline || ch == ty_return) && k.tty.tyecrlf
    then eputc ty_newline (eputc ty_return k)
    else (if is_control ch && k.tty.tyevis
        then eputc ((ch + 64) % 256) (eputc ty_uparrow k)
        else eputc ch k)

-- `if (typtr->tyiecho) echoch(ch, typtr, csrptr);`
unfoldable pub echo : ℕ → Kernel → Kernel
echo ch k = if k.tty.tyiecho then echoch ch k else k

-- `*typtr->tyitail++ = ch;` with the test for the end of the buffer
unfoldable pub put_input : ℕ → Kernel → Kernel
put_input ch = set_tty (λ t. record t {
  tyibuff = put t.tyibuff t.tyitail ch;
  tyitail = wrap ty_ibuflen (t.tyitail + 1);
})

-- The same without the test: a pointer behind the end is left so.
unfoldable pub put_eof : ℕ → Kernel → Kernel
put_eof ch =
    set_tty (λ t. record t { tyibuff = put t.tyibuff t.tyitail ch; tyitail = t.tyitail + 1 })

unfoldable pub set_held : Bool → Kernel → Kernel
set_held b = set_tty (λ t. record t { tyoheld = b })

-- The characters that can be read.
unfoldable pub available : Code ℕ
available k = (do n ← semcount k.tty.tyisem; pure (if slt n 0 then 0 else n)) k

-- The character in the buffer can be read.
unfoldable pub raise : Code (Unit {0})
raise k = (do signal k.tty.tyisem; pure tt) k

unfoldable pub raw_in : ℕ → ℕ → Code (Unit {0})
raw_in ch avail k = if sle ty_ibuflen avail then done k tt else raise (put_input ch k)

unfoldable pub cbreak_in : ℕ → ℕ → Code (Unit {0})
cbreak_in ch avail k =
    if sle ty_ibuflen avail
    then done (eputc k.tty.tyifullc k) tt
    else raise (echo ch (put_input ch k))

unfoldable pub kill_line : Kernel → Kernel
kill_line k0 =
    let k =
      set_tty
        (λ t. record t {
          tyitail =
              if ltb t.tyitail t.tyicursor
              then t.tyitail + ty_ibuflen - t.tyicursor
              else t.tyitail - t.tyicursor;
          tyicursor = 0;
        })
        k0 in
    eputc ty_newline (eputc ty_return k)

unfoldable pub erase_char : Kernel → Kernel
erase_char k =
    if slt 0 k.tty.tyicursor
    then erase1 (set_tty (λ t. record t { tyicursor = sub32 t.tyicursor 1 }) k)
    else k

unfoldable pub end_line : ℕ → Code (Unit {0})
end_line ch k0 =
    let k = put_input ch (echo ch k0) in
    (do
      signaln k.tty.tyisem (add32 k.tty.tyicursor 1)
      modify (set_tty (λ t. record t { tyicursor = 0 })))
      k

-- The end-of-file character counts only at the beginning of a line.
unfoldable pub eof_in : ℕ → Code (Unit {0})
eof_in ch k0 =
    let k = echo ch k0 in if k.tty.tyicursor == 0 then raise (put_eof ch k) else done k tt

unfoldable pub place_char : ℕ → ℕ → Code (Unit {0})
place_char ch avail k =
    if sle (ty_ibuflen - 1) (add32 avail k.tty.tyicursor)
    then done (eputc k.tty.tyifullc k) tt
    else (if ch == k.tty.tyeofch && k.tty.tyeof
        then eof_in ch k
        else done
            (put_input ch (set_tty (λ t. record t { tyicursor = add32 t.tyicursor 1 }) (echo ch k)))
            tt)

unfoldable pub cooked_in : ℕ → Code (Unit {0})
cooked_in ch k =
    if ch == k.tty.tyikillc && k.tty.tyikill
    then done (kill_line k) tt
    else (if (ch == k.tty.tyierasec || ch == k.tty.tyierasec2) && k.tty.tyierase
        then done (erase_char k) tt
        else (if ch == ty_newline || ch == ty_return
            then end_line ch k
            else (do avail ← available; place_char ch avail) k))

-- The two modes in which a character is looked at.
unfoldable pub edited_in : ℕ → ℕ → Code (Unit {0})
edited_in ch0 avail k =
    let ch = if ch0 == ty_return && k.tty.tyicrlf then ty_newline else ch0 in
    if k.tty.tyoflow && ch == k.tty.tyostart
    then done (ttykickout (set_held false k)) tt
    else (if k.tty.tyoflow && ch == k.tty.tyostop
        then done (set_held true k) tt
        else (if k.tty.tyimode == ty_imcbreak
            then cbreak_in ch avail (set_held false k)
            else cooked_in ch (set_held false k)))

unfoldable pub handle_char : ℕ → ℕ → Code (Unit {0})
handle_char ch avail k =
    if k.tty.tyimode == ty_imraw then raw_in ch avail k else edited_in ch avail k

unfoldable pub ttyhandle_in : ℕ → Code (Unit {0})
ttyhandle_in ch = do avail ← available; handle_char ch avail
