-- ===== src/Kernel.antt =====
-- The variables of the kernel in one record, and code that may give up the processor.
pub mod Keeps
use os_demand_paging.Base.{ℕ, Bool, List, Table, put}
use os_demand_paging.Paging.Frames.{Vm}
use os_demand_paging.Process.{Procent}
use os_demand_paging.Queue.{Queuetab}
use os_demand_paging.FreeList.{Memory}
use os_demand_paging.Net.Packet.{Net}

-- `struct sentry`
pub record Sentry : Type 0 where
  pub used : Bool
  pub scount : ℕ
  pub squeue : ℕ

-- `struct bpentry`
pub record Bpentry : Type 0 where
  pub bpnext : ℕ
  pub bpsem : ℕ
  pub bpsize : ℕ

-- `struct ptentry`
pub record Ptentry : Type 0 where
  pub ptssem : ℕ
  pub ptrsem : ℕ
  pub ptstate : ℕ
  pub ptmaxcnt : ℕ
  pub ptseq : ℕ
  pub pthead : ℕ
  pub pttail : ℕ

-- `struct ttycblk`; a pointer into a buffer is its index.
pub record Ttycblk : Type 0 where
  pub tyihead : ℕ
  pub tyitail : ℕ
  pub tyibuff : Table ℕ
  pub tyisem : ℕ
  pub tyohead : ℕ
  pub tyotail : ℕ
  pub tyobuff : Table ℕ
  pub tyosem : ℕ
  pub tyehead : ℕ
  pub tyetail : ℕ
  pub tyebuff : Table ℕ
  pub tyimode : ℕ
  pub tyiecho : Bool
  pub tyieback : Bool
  pub tyevis : Bool
  pub tyecrlf : Bool
  pub tyicrlf : Bool
  pub tyierase : Bool
  pub tyierasec : ℕ
  pub tyierasec2 : ℕ
  pub tyeof : Bool
  pub tyeofch : ℕ
  pub tyikill : Bool
  pub tyikillc : ℕ
  pub tyicursor : ℕ
  pub tyoflow : Bool
  pub tyoheld : Bool
  pub tyostop : ℕ
  pub tyostart : ℕ
  pub tyocrlf : Bool
  pub tyifullc : ℕ

-- The serial device: its interrupt enable register, and the characters that it was given to send.
pub record Uart : Type 0 where
  pub ier : ℕ
  pub sent : List ℕ

-- `nextpid` and `vnextpid` are the static variables of the two functions `newpid`, of create.c and of
-- vcreate.c; `nextsem` and `count1000` are those of `newsem` and `clkhandler`; there is one terminal line, `tty`; `cr2` and `cr3` are control registers.
pub record Kernel : Type 0 where
  pub proctab : Table Procent
  pub prcount : ℕ
  pub currpid : ℕ
  pub nextpid : ℕ
  pub vnextpid : ℕ
  pub queuetab : Queuetab
  pub readylist : ℕ
  pub sleepq : ℕ
  pub semtab : Table Sentry
  pub nextsem : ℕ
  pub buftab : Table Bpentry
  pub nbpools : ℕ
  pub porttab : Table Ptentry
  pub ptfree : ℕ
  pub ptnextid : ℕ
  pub ndefers : ℕ
  pub attempt : Bool
  pub preempt : ℕ
  pub clktime : ℕ
  pub count1000 : ℕ
  pub memory : Memory
  pub vm : Vm
  pub cr2 : ℕ
  pub cr3 : ℕ
  pub tty : Ttycblk
  pub uart : Uart
  pub net : Net

-- A run of kernel code by one process. `switch k next`: the processor goes to the process
-- `k.currpid`, and the code goes on with `next` in the state in which it is resumed. `halt`: the
-- machine stops.
pub data Run (A : Type 0) : Type 0 where
  done : Kernel → A → Run A
  switch : Kernel → (Kernel → Run A) → Run A
  halt : Kernel → Run A

-- Code as a function of the state.
abbrev pub Code : Type 0 → Type 0
Code A = Kernel → Run A

abbrev pub pure : {A : Type 0} → A → Code A
pure a k = done k a

module _ {A B : Type 0} where
  abbrev pub and_then : Run A → (A → Code B) → Run B
  and_then (done k a) f = f a k
  and_then (switch k next) f = switch k (λ k'. and_then (next k') f)
  and_then (halt k) f = halt k

  infixl 5 ◌>>=◌ ◌>>◌
  abbrev pub ◌>>=◌ : Code A → (A → Code B) → Code B
  m >>= f = λ k. and_then (m k) f

  abbrev pub ◌>>◌ : Code A → Code B → Code B
  m >> n = m >>= λ _. n

-- Access to the state.
abbrev pub get : Code Kernel
get k = done k k

abbrev pub modify : (Kernel → Kernel) → Code (Unit {0})
modify f k = done (f k) tt

-- A write to the entry of a process.
abbrev pub set_proc : ℕ → (Procent → Procent) → Kernel → Kernel
set_proc pid f k = record k { proctab = put k.proctab pid (f (k.proctab pid)) }
