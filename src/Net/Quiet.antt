-- ===== src/Net/Quiet.antt =====
-- The code of the kernel that the network code calls keeps what holds of the network's variables.
use os_demand_paging.Net.Packet.{Net}
use os_demand_paging.Kernel.{Kernel}
use os_demand_paging.Kernel.Keeps.{Keeps, and_then-Keeps, if-Keeps, ended, resumes}
use os_demand_paging.Sched.{dispatch, give_up, resched, make_ready, ready}
use os_demand_paging.Semaphore.{release_one, signal}
use os_demand_paging.Buffer.{freebuf}
use os_demand_paging.Sleep.{unsleep}
use os_demand_paging.Message.{send, recvclr, recvtime, deliver, take_message, take_or_timeout}
use mathlib.Core.Path.{subst}
use os_demand_paging.Base.{ℕ, ◌≡◌, arith, sym}

unsleep-net : (pid : ℕ) (k : Kernel) → (unsleep pid k).0.net ≡ k.net
unfolding unsleep
unsleep-net pid k = ground arith

module _ {ℓ} (Q : Net → Type ℓ) where
  abbrev P : Kernel → Type ℓ
  P k = Q k.net

  dispatch-Keeps : (k : Kernel) → Q k.net → Keeps P (dispatch k)
  unfolding dispatch
  dispatch-Keeps k h = search (if-Keeps, ended, resumes)

  resched-Keeps : (k : Kernel) → Q k.net → Keeps P (resched k)
  unfolding resched give_up
  resched-Keeps k h = search (if-Keeps, ended, dispatch-Keeps)

  ready-Keeps : (pid : ℕ) (k : Kernel) → Q k.net → Keeps P (ready pid k)
  unfolding ready make_ready
  ready-Keeps pid k h = search (if-Keeps, ended, and_then-Keeps, resched-Keeps)

  release_one-Keeps : (sem : ℕ) (k : Kernel) → Q k.net → Keeps P (release_one sem k)
  unfolding release_one
  release_one-Keeps sem k h = search (if-Keeps, ended, and_then-Keeps, ready-Keeps)

  signal-Keeps : (sem : ℕ) (k : Kernel) → Q k.net → Keeps P (signal sem k)
  unfolding signal
  signal-Keeps sem k h = search (if-Keeps, ended, and_then-Keeps, release_one-Keeps)

  pub freebuf-Keeps : (bufaddr : ℕ) (k : Kernel) → Q k.net → Keeps P (freebuf bufaddr k)
  unfolding freebuf
  freebuf-Keeps bufaddr k h = search (if-Keeps, ended, and_then-Keeps, signal-Keeps)

  pub send-Keeps : (pid msg : ℕ) (k : Kernel) → Q k.net → Keeps P (send pid msg k)
  unfolding send
  send-Keeps pid msg k h =
      let freed = subst Q (sym (unsleep-net pid (deliver pid msg k))) h in
      search (if-Keeps, ended, and_then-Keeps, ready-Keeps) depth 8

  pub recvclr-Keeps : (k : Kernel) → Q k.net → Keeps P (recvclr k)
  unfolding recvclr take_message
  recvclr-Keeps k h = search (if-Keeps, ended)

  take_or_timeout-Keeps : (me : ℕ) (k : Kernel) → Q k.net → Keeps P (take_or_timeout me k)
  unfolding take_or_timeout take_message
  take_or_timeout-Keeps me k h = search (if-Keeps, ended)

  pub recvtime-Keeps : (maxwait : ℕ) (k : Kernel) → Q k.net → Keeps P (recvtime maxwait k)
  unfolding recvtime
  recvtime-Keeps maxwait k h =
      search (if-Keeps, ended, and_then-Keeps, resched-Keeps, take_or_timeout-Keeps) depth 8
