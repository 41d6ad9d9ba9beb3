-- ===== src/Process.antt =====
-- The process table: include/process.h, with the sizes of config/conf.h. A process id, like any
-- 32-bit value, is its bit pattern.
use os_demand_paging.Base.{ℕ, Bool, ◌||◌, Table, ltb, leb, ◌==◌}

abbrev pub nproc : ℕ
nproc = 100

abbrev pub nsem : ℕ
nsem = 100

abbrev pub nullproc : ℕ
nullproc = 0

-- `prstate`
pub data State : Type 0 where
  pr_free pr_curr pr_ready pr_recv pr_sleep pr_susp pr_wait pr_rectim : State

-- the constants of include/process.h
abbrev pub state_code : State → ℕ
state_code pr_free = 0
state_code pr_curr = 1
state_code pr_ready = 2
state_code pr_recv = 3
state_code pr_sleep = 4
state_code pr_susp = 5
state_code pr_wait = 6
state_code pr_rectim = 7

abbrev pub state_eq : State → State → Bool
state_eq a b = state_code a == state_code b

-- `struct procent`
pub record Procent : Type 0 where
  pub prstate : State
  pub prprio : ℕ
  pub prstkptr : ℕ
  pub prstkbase : ℕ
  pub prstklen : ℕ
  pub prname : Table ℕ
  pub prsem : ℕ
  pub prparent : ℕ
  pub prmsg : ℕ
  pub prhasmsg : Bool
  pub prdesc : Table ℕ
  pub pdbr : ℕ
  pub v_freelist : ℕ
  pub is_user_proc : ℕ
  pub heap_size : ℕ
  pub swap_size : ℕ

-- `isbadpid`: negative, too large, or the id of an unused entry
abbrev pub isbadpid : Table Procent → ℕ → Bool
isbadpid t x = ltb 0x7fff_ffff x || leb nproc x || state_eq (t x).prstate pr_free
