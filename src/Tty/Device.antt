-- ===== src/Tty/Device.antt =====
-- The rest of the terminal driver: ttyhandle_out.c, ttyhandler.c, ttygetc.c, ttyputc.c, ttyread.c,
-- ttywrite.c, ttycontrol.c and ttyinit.c of device/tty. A buffer of the caller is the list of the characters
-- put into it, or the table of those taken from it.
use os_demand_paging.Base.{
  length, ℕ, zero, suc, ◌+◌, ◌-◌, ◌*◌, ◌/◌, ◌%◌, Bool, true, false, ◌&&◌, ◌||◌, Table, put, sub32,
  slt, sle, syserr, ok, ◌==◌, if◌then◌else◌, List, [], ◌∷◌, ◌++◌, ltb,
}
use os_demand_paging.Kernel.{Kernel, Ttycblk, Code, done, pure, modify, ◌>>=◌, ◌>>◌}
use os_demand_paging.Semaphore.{semcount, semcreate, signaln, wait}
use os_demand_paging.Sched.{resched_cntl, defer_start, defer_stop}
use os_demand_paging.Tty.{
  ty_ebuflen, ty_ibuflen, ty_obuflen, ty_imraw, ty_imcooked, ty_imcbreak, ty_newline, ty_return,
  set_tty, wrap, ttykickout, ttyhandle_in, raise, ty_backsp,
}

abbrev pub uart_fifo_size : ℕ
uart_fifo_size = 16

-- the pattern of EOF, -2
abbrev pub eof : ℕ
eof = 0xffff_fffe

-- `io_outb(csrptr->buffer, ch)`
abbrev pub transmit : ℕ → Kernel → Kernel
transmit ch k = record k { uart = record k.uart { sent = k.uart.sent ++ ch ∷ [] } }

-- The loop over the echo queue; the second part is `uspace`.
unfoldable pub send_echo : ℕ → Kernel → Kernel × ℕ
send_echo zero k = (k, 0)
send_echo (suc uspace) k = elim (k.tty.tyehead == k.tty.tyetail) [
  | true ↦ (k, suc uspace)
  | false ↦
      let k' = transmit (k.tty.tyebuff k.tty.tyehead) k in
      send_echo uspace (set_tty (λ t. record t { tyehead = wrap ty_ebuflen (t.tyehead + 1) }) k')
]

-- The loop over the output queue; the second part is `ochars`.
unfoldable pub send_output : ℕ → ℕ → ℕ → Kernel → Kernel × ℕ
send_output zero avail ochars k = (k, ochars)
send_output (suc uspace) avail ochars k = elim (slt 0 avail) [
  | false ↦ (k, ochars)
  | true ↦
      let k' = transmit (k.tty.tyobuff k.tty.tyohead) k in
      send_output uspace (sub32 avail 1) (ochars + 1)
        (set_tty (λ t. record t { tyohead = wrap ty_obuflen (t.tyohead + 1) }) k')
]

-- `ier & ~UART_IER_ETBEI`
abbrev pub disable_output : Kernel → Kernel
disable_output k =
    let r = k.uart.ier in record k { uart = record k.uart { ier = r / 4 * 4 + r % 2 } }

unfoldable pub fill_output : ℕ → ℕ → Code (Unit {0})
fill_output uspace avail k =
    let (k', ochars) = send_output uspace avail 0 k in
    if ltb 0 ochars then (do signaln k'.tty.tyosem ochars; pure tt) k' else done k' tt

-- From the test of the queues on; `n` is the count of the output semaphore.
unfoldable pub idle_or_fill : ℕ → Code (Unit {0})
idle_or_fill n k =
    if k.tty.tyehead == k.tty.tyetail && sle ty_obuflen n
    then done (disable_output k) tt
    else (let (k', uspace) = send_echo uart_fifo_size k in
        (do m ← semcount k'.tty.tyosem; fill_output uspace (sub32 ty_obuflen m)) k')

unfoldable pub ttyhandle_out : Code (Unit {0})
ttyhandle_out k =
    if k.tty.tyoheld then done k tt else (do n ← semcount k.tty.tyosem; idle_or_fill n) k

-- The argument is what the loop over the receive buffer reads.
unfoldable pub receive_all : List ℕ → Code (Unit {0})
receive_all [] = pure tt
receive_all (ch ∷ chs) = ttyhandle_in ch >> receive_all chs

-- `iir` is the interrupt identification, and `chs` the characters that have arrived.
unfoldable pub ttyhandler : ℕ → List ℕ → Code (Unit {0})
ttyhandler iir chs k =
    let id = iir / 2 % 8 * 2 in
    if iir % 2 == 1
    then done k tt
    else (if id == 4 || id == 0xc
        then (do resched_cntl defer_start; receive_all chs; resched_cntl defer_stop; pure tt) k
        else (if id == 2 then ttyhandle_out k else done k tt))

-- A `char` as an `int`
abbrev pub sign_extend : ℕ → ℕ
sign_extend ch = if ltb ch 128 then ch else ch + 0xffff_ff00

unfoldable pub take_input : Code ℕ
take_input k =
    let ch = k.tty.tyibuff k.tty.tyihead in
    let k' = set_tty (λ t. record t { tyihead = wrap ty_ibuflen (t.tyihead + 1) }) k in
    if k'.tty.tyimode == ty_imcooked && k'.tty.tyeof && ch == k'.tty.tyeofch
    then done k' eof
    else done k' (sign_extend ch)

unfoldable pub ttygetc : Code ℕ
ttygetc k = (do wait k.tty.tyisem; take_input) k

-- One character, without the carriage return in front of a newline.
unfoldable pub put_output : ℕ → Code ℕ
put_output ch k =
    (do
      wait k.tty.tyosem
      modify (
          set_tty (λ t. record t {
            tyobuff = put t.tyobuff t.tyotail ch;
            tyotail = wrap ty_obuflen (t.tyotail + 1);
          }))
      modify ttykickout
      pure ok)
      k

unfoldable pub ttyputc : ℕ → Code ℕ
ttyputc ch k =
    if ch == ty_newline && k.tty.tyocrlf
    then (do put_output ty_return; put_output ch) k
    else put_output ch k

unfoldable pub write_loop : Table ℕ → ℕ → ℕ → Code (Unit {0})
write_loop buff zero i = pure tt
write_loop buff (suc n) i = ttyputc (buff i) >> write_loop buff n (i + 1)

unfoldable pub ttywrite : Table ℕ → ℕ → Code ℕ
ttywrite buff count k =
    if slt count 0
    then done k syserr
    else (if count == 0 then done k ok else (do write_loop buff count 0; pure ok) k)

-- The characters read.
unfoldable pub read_raw : ℕ → Code (List ℕ)
read_raw zero = pure []
read_raw (suc n) = do ch ← ttygetc; rest ← read_raw n; pure ((ch % 256) ∷ rest)

-- The rest of a line, behind the character `ch`.
unfoldable pub read_line : ℕ → ℕ → Code (List ℕ)
read_line zero ch = pure []
read_line (suc n) ch =
    if ch == ty_newline || ch == ty_return
    then pure []
    else (ttygetc >>= λ next. read_line n (next % 256) >>= λ rest. pure ((next % 256) ∷ rest))

abbrev pub with_length : List ℕ → ℕ × List ℕ
with_length cs = (length cs, cs)

-- Cooked mode: the first character is there; at least one is put into the buffer, whatever `count`.
unfoldable pub first_read : ℕ → ℕ → Code (ℕ × List ℕ)
first_read count ch k =
    if ch == eof
    then done k (eof, [])
    else (do rest ← read_line (count - 1) (ch % 256); pure (with_length ((ch % 256) ∷ rest))) k

-- The result, and the characters put into the buffer.
unfoldable pub ttyread : ℕ → Code (ℕ × List ℕ)
ttyread count k =
    if slt count 0
    then done k (syserr, [])
    else (if k.tty.tyimode == ty_imcooked
        then (do ch ← ttygetc; first_read count ch) k
        else (if count == 0
            then (do
              n ← semcount k.tty.tyisem
              cs ← read_raw (if slt n 0 then 0 else n)
              pure (with_length cs))
                k
            else (do cs ← read_raw count; pure (with_length cs)) k))

abbrev pub tc_nextc : ℕ
tc_nextc = 3

abbrev pub set_mode : ℕ → Kernel → Kernel
set_mode mode = set_tty (λ t. record t { tyimode = mode })

abbrev pub set_echo : Bool → Kernel → Kernel
set_echo b = set_tty (λ t. record t { tyiecho = b })

abbrev pub peek : Code ℕ
peek k = done k (k.tty.tyibuff k.tty.tyitail)

-- `TC_NEXTC`: wait for a character and look at one, at the tail.
unfoldable pub look_ahead : Code ℕ
look_ahead k = (do wait k.tty.tyisem; ch ← peek; raise; pure (sign_extend ch)) k

unfoldable pub ttycontrol : ℕ → Code ℕ
ttycontrol func k =
    if func == tc_nextc
    then look_ahead k
    else (if func == 4
        then done (set_mode ty_imraw k) ok
        else (if func == 5
            then done (set_mode ty_imcooked k) ok
            else (if func == 6
                then done (set_mode ty_imcbreak k) ok
                else (if func == 8
                    then semcount k.tty.tyisem k
                    else (if func == 9
                        then done (set_echo true k) ok
                        else (if func == 10 then done (set_echo false k) ok else done k syserr))))))

-- The settings of a new line; the semaphores are made before.
unfoldable pub initial_line : ℕ → ℕ → Ttycblk → Ttycblk
initial_line isem osem t = record t {
  tyihead = 0;
  tyitail = 0;
  tyisem = isem;
  tyohead = 0;
  tyotail = 0;
  tyosem = osem;
  tyehead = 0;
  tyetail = 0;
  tyimode = ty_imcooked;
  tyiecho = true;
  tyieback = true;
  tyevis = true;
  tyecrlf = true;
  tyicrlf = true;
  tyierase = true;
  tyierasec = ty_backsp;
  tyierasec2 = 127;
  tyeof = true;
  tyeofch = 4;
  tyikill = true;
  tyikillc = 21;
  tyicursor = 0;
  tyoflow = true;
  tyoheld = false;
  tyostop = 19;
  tyostart = 17;
  tyocrlf = true;
  tyifullc = 7;
}

unfoldable pub ttyinit : Code ℕ
ttyinit = do
  isem ← semcreate 0
  osem ← semcreate ty_obuflen
  modify (set_tty (initial_line isem osem))
  modify ttykickout
  pure ok
