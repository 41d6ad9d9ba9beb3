-- ===== src/Kill.antt =====
-- system/kill.c. The descriptors of a process are those of the console, whose entry for `close` in
-- config/conf.c is `ionull`, so closing them changes nothing here.
pub mod Release
use os_demand_paging.Base.{
  ℕ, ◌||◌, add32, sub32, sle, syserr, ok, ◌==◌, sweep, count_if, if◌then◌else◌,
}
use os_demand_paging.Paging.Frames.{
  Frame, Vm, max_pt_size, max_ffs_size, max_swap_size, page_directory,
}
use os_demand_paging.Process.{
  nullproc, pr_free, pr_curr, pr_ready, pr_sleep, pr_rectim, pr_wait, State, isbadpid,
}
use os_demand_paging.Queue.{getitem}
use os_demand_paging.FreeList.{freestk}
use os_demand_paging.Kernel.{Kernel, done, halt, Code, pure, ◌>>◌, modify, set_proc}
use os_demand_paging.Sched.{resched}
use os_demand_paging.Semaphore.{set_sem}
use os_demand_paging.Sleep.{unsleep}
use os_demand_paging.Message.{send}

-- A frame of process `pid` becomes free; its claim count stays.
unfoldable pub release_frame : ℕ → Frame → Frame
release_frame pid f =
    if f.p_fm_pid == pid
    then record f {
      p_fm_pid = 0;
      p_fm_type = page_directory;
      p_fm_vpn = 0;
      p_fm_isfree = 1;
      p_fm_dirty = 0;
    }
    else f

-- The three loops over the frame tables.
unfoldable pub release_frames : ℕ → Vm → Vm
release_frames pid s = record s {
  ptab = sweep max_pt_size 0 (λ i. release_frame pid) s.ptab;
  ftab = sweep max_ffs_size 0 (λ i. release_frame pid) s.ftab;
  stab = sweep max_swap_size 0 (λ i. release_frame pid) s.stab;
  available_heap_size =
      add32 s.available_heap_size (count_if (λ i. (s.ftab i).p_fm_pid == pid) max_ffs_size 0);
}

abbrev pub free_proc : ℕ → Kernel → Kernel
free_proc pid = set_proc pid (λ p. record p { prstate = pr_free })

-- The `switch` on the state. A process that kills itself never runs again; if it did, the code
-- would go on with the next case.
unfoldable pub leave : ℕ → State → Code (Unit {0})
leave pid pr_curr = do
  modify (free_proc pid)
  resched
  modify (λ k. free_proc pid (unsleep pid k).0)
leave pid pr_sleep = modify λ k. free_proc pid (unsleep pid k).0
leave pid pr_rectim = modify λ k. free_proc pid (unsleep pid k).0
leave pid pr_wait = modify λ k.
    let k' = set_sem (k.proctab pid).prsem (λ s. record s { scount = add32 s.scount 1 }) k in
    free_proc pid (record k' { queuetab = (getitem k'.queuetab pid).0 })
leave pid pr_ready = modify λ k. free_proc pid (record k { queuetab = (getitem k.queuetab pid).0 })
leave pid _ = modify (free_proc pid)

-- What follows the message to the parent.
unfoldable pub kill_rest : ℕ → Code ℕ
kill_rest pid k0 =
    let p = k0.proctab pid in
    let k : Kernel = record k0 {
      memory = (freestk k0.memory p.prstkbase p.prstklen).0;
      vm = if p.is_user_proc == 1 then release_frames pid k0.vm else k0.vm;
    } in
    (leave pid (k.proctab pid).prstate >> pure ok) k

unfoldable pub kill : ℕ → Code ℕ
kill pid k =
    if isbadpid k.proctab pid || pid == nullproc
    then done k syserr
    else (let k' : Kernel = record k { prcount = sub32 k.prcount 1 } in
        if sle k'.prcount 1
        then halt k'
        else (do send (k.proctab pid).prparent pid; kill_rest pid) k')
