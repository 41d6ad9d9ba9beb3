-- ===== src/Examples/Terminal.antt =====
-- A terminal line: `a` and a newline can be read, and `x` has been typed behind them, round the end of
-- the buffer.
use os_demand_paging.Examples.Heap.{cooked_line, kernel}
use os_demand_paging.Tty.{
  ttyhandle_in, available, handle_char, edited_in, set_held, cooked_in, place_char, eof_in, echo,
  echoch, eputc, ttykickout, raise, put_eof,
}
use os_demand_paging.Tty.Device.{ttygetc}
use os_demand_paging.Tty.Edit.{IsInput}
use os_demand_paging.Tty.Typed.{ttyhandle_in-edited}
use os_demand_paging.Tty.Read.{ttygetc-read}
use os_demand_paging.Semaphore.{semcount, signal, release_one}
use os_demand_paging.Message.Delivery.{state_of}
use os_demand_paging.Kernel.{Kernel, done}
use os_demand_paging.Base.{◌≡◌, [], ◌∷◌, inr, ◌==◌, if◌then◌else◌, true, arith, refl}

abbrev typing : Kernel
typing = record (kernel 0) {
  semtab = λ i. record { used = true; scount = if i == 1 then 2 else 64; squeue = 104 };
  tty = record cooked_line {
    tyihead = 126;
    tyitail = 1;
    tyibuff =
        λ i. if i == 126 then b'a' else (if i == 127 then 10 else (if i == 0 then b'x' else 0));
    tyicursor = 1;
  };
}

typing-IsInput : IsInput typing (b'a' ∷ 10 ∷ []) (b'x' ∷ [])
typing-IsInput = record {
  content = record {
    head_lt = omega arith;
    tail = refl;
    cursor = refl;
    fits = omega arith;
    ring = (refl, (refl, (refl, tt)));
    mode = refl;
  };
  idle = record { good = refl; used = refl; count = refl; limit = omega arith };
  defers = omega arith;
}

-- An erase character
ttyhandle_in-edited_example :
    (k' : Kernel) × (ttyhandle_in 8 typing ≡ done k' tt) × IsInput k' (b'a' ∷ 10 ∷ []) []
ttyhandle_in-edited_example =
    ttyhandle_in-edited typing (b'a' ∷ 10 ∷ []) (b'x' ∷ []) 8 typing-IsInput (omega arith)
      (inr (omega arith))

ttygetc-read_example :
    (k' : Kernel) × (ttygetc typing ≡ done k' b'a') × IsInput k' (10 ∷ []) (b'x' ∷ [])
ttygetc-read_example = ttygetc-read typing b'a' (10 ∷ []) (b'x' ∷ []) typing-IsInput

-- EOF in the last place leaves the pointer behind the end of the buffer.
abbrev at_last : Kernel
at_last = record typing {
  semtab = λ i. record { used = true; scount = 0; squeue = 104 };
  tty = record cooked_line { tyihead = 127; tyitail = 127 };
}

eof_overflow : (state_of (ttyhandle_in 4 at_last)).tty.tyitail ≡ 128
unfolding ttyhandle_in available handle_char edited_in set_held cooked_in place_char eof_in echo
    echoch eputc ttykickout raise put_eof semcount signal release_one
eof_overflow = refl
