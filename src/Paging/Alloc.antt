-- ===== src/Paging/Alloc.antt =====
-- `get_phy_fr_num` of system/paging.c. Each branch of the function on the frame type is a
-- definition of its own; the recursive call that takes a swap frame is a call of that branch.
-- A result is the new state with the frame number that the function returns.
pub mod Lru
pub mod Coherent
pub mod Latency
pub mod Take
pub mod Copy
pub mod Evict
use os_demand_paging.Base.{
  ℕ, ◌+◌, ◌*◌, Bool, true, false, not, ◌&&◌, Table, put, add32, mul32, shl, shr, syserr, ltb, ◌==◌,
  ◌!=◌, if◌then◌else◌, first, for_range,
}
use os_demand_paging.Paging.Entry.{Mem, pd_at, pt_at, put_pt}
use os_demand_paging.Paging.Frames.{
  page_size, max_swap_size, max_ffs_size, max_pt_size, pt_start, ffs_start, swap_start, TabType,
  page, FrameType, pt_entry, ffs, swap, Frame, Vm,
}

-- The victim that the eviction loop has found so far.
pub record Victim : Type 0 where
  pub latest_acc : ℕ
  pub lru_fr_index : ℕ
  pub lru_fr_vpn : ℕ
  pub lru_fr_pid : ℕ

-- What the uninitialised locals of the function hold when it is entered: `addr`, `lru_fr_index`,
-- `lru_fr_vpn` and `lru_fr_pid`.
pub record Locals : Type 0 where
  pub addr : ℕ
  pub fr_index : ℕ
  pub fr_vpn : ℕ
  pub fr_pid : ℕ

abbrev pub is_free : Table Frame → ℕ → Bool
is_free t i = (t i).p_fm_isfree != 0

unfoldable pub take_pt_frame : Vm → Locals → ℕ → TabType → Vm × ℕ
take_pt_frame s u pid table =
    let i = first (is_free s.ptab) max_pt_size 0 in
    if ltb i max_pt_size
    then (
      record s {
        ptab =
            put s.ptab i (record (s.ptab i) { p_fm_type = table; p_fm_pid = pid; p_fm_isfree = 0 });
      },
      i + pt_start,
    )
    else (s, u.addr)

unfoldable pub take_swap_frame : Vm → Locals → ℕ → ℕ → Vm × ℕ
take_swap_frame s u pid vpn =
    let i = first (is_free s.stab) max_swap_size 0 in
    if ltb i max_swap_size
    then (
      record s {
        stab = put s.stab i (record (s.stab i) {
          p_fm_type = page;
          p_fm_pid = pid;
          p_fm_isfree = 0;
          p_fm_vpn = vpn;
        });
      },
      i + swap_start,
    )
    else (s, u.addr)

-- `bcopy(src << 12, dst << 12, PAGE_SIZE)` of two frames, a word at a time
unfoldable pub copy_frame : Mem → ℕ → ℕ → Mem
copy_frame m src dst = for_range 1024 0 (λ i m'. put m' (dst * 1024 + i) (m' (src * 1024 + i))) m

abbrev pub holds_page : ℕ → ℕ → Frame → Bool
holds_page pid vpn f = f.p_fm_pid == pid && f.p_fm_vpn == vpn

-- the index of the page's swap frame, `max_swap_size` if it has none
unfoldable pub find_swap : Table Frame → ℕ → ℕ → ℕ
find_swap t pid vpn = first (λ i. holds_page pid vpn (t i)) max_swap_size 0

-- One round of the loop that looks for the frame to evict. The entry that it also locates by
-- `tmp_pt` is not used.
unfoldable pub lru_step : Table Frame → ℕ → Victim → Victim
lru_step t i v =
    if ltb (t i).p_fm_latency v.latest_acc
    then record {
      latest_acc = (t i).p_fm_latency;
      lru_fr_index = i;
      lru_fr_vpn = (t i).p_fm_vpn;
      lru_fr_pid = (t i).p_fm_pid;
    }
    else v

unfoldable pub lru_scan : Table Frame → ℕ → Locals → Victim
lru_scan t latency u = for_range max_ffs_size 0 (lru_step t) (record {
  latest_acc = latency;
  lru_fr_index = u.fr_index;
  lru_fr_vpn = u.fr_vpn;
  lru_fr_pid = u.fr_pid;
})

-- the address of the page table entry of page `vpn` under the directory at `pdbr`
unfoldable pub pte_addr : Mem → ℕ → ℕ → ℕ
pte_addr m pdbr vpn =
    let pde = add32 pdbr (4 * shr vpn 10) in
    add32 (mul32 (pd_at m pde).pd_base page_size) (4 * shr (shl vpn 22) 22)

-- `PTE->pt_base = fr; PTE->pt_pres = 0;`
unfoldable pub unmap : Mem → ℕ → ℕ → Mem
unmap m pte fr = put_pt m pte (record (pt_at m pte) { pt_base = fr; pt_pres = 0 })

-- The swap frame for the victim: the one that already holds its page, or a new one; and whether
-- it is new. A new one is `syserr` if `get_phy_fr_num` fails.
unfoldable pub swap_slot : Vm → Locals → Victim → Vm × ℕ × Bool
swap_slot s u v =
    let i = find_swap s.stab v.lru_fr_pid v.lru_fr_vpn in
    if ltb i max_swap_size
    then (s, swap_start + i, false)
    else (let (s', fr) = take_swap_frame s u v.lru_fr_pid v.lru_fr_vpn in (s', fr, true))

-- The victim's page leaves its FFS frame. It is copied unless the swap area has the latest copy,
-- which is so when the page is clean and has a swap frame.
unfoldable pub evict : Vm → Locals → Victim → ℕ → Vm × Bool
evict s u v pte =
    let dirty = (pt_at s.mem pte).pt_dirty != 0 in
    let (s', swap_fr, fresh) = swap_slot s u v in
    if fresh && swap_fr == syserr
    then (s', false)
    else (let copied =
          if not fresh && not dirty
          then s'.mem
          else copy_frame s'.mem (ffs_start + v.lru_fr_index) swap_fr in
        (record s' { mem = unmap copied pte swap_fr }, true))

unfoldable pub claim_frame : Vm → ℕ → ℕ → ℕ → Vm
claim_frame s i pid vpn = record s {
  ftab = put s.ftab i (record (s.ftab i) {
    p_fm_type = page;
    p_fm_pid = pid;
    p_fm_isfree = 0;
    p_fm_vpn = vpn;
    p_fm_latency = s.latency;
  });
}

-- `pdbr` is the field of that name of each entry of `proctab`.
unfoldable pub take_ffs_frame : Table ℕ → Vm → Locals → ℕ → ℕ → Vm × ℕ
take_ffs_frame pdbr s0 u pid vpn =
    let s = record s0 { latency = add32 s0.latency 1 } in
    let i = first (is_free s.ftab) max_ffs_size 0 in
    if ltb i max_ffs_size
    then (claim_frame s i pid vpn, ffs_start + i)
    else (let v = lru_scan s.ftab s.latency u in
        let pte = pte_addr s.mem (pdbr v.lru_fr_pid) v.lru_fr_vpn in
        let (s', done) = evict s u v pte in
        if done
        then (claim_frame s' v.lru_fr_index pid vpn, ffs_start + v.lru_fr_index)
        else (s', syserr))

-- The last branch of the function is for a type outside of the enumeration.
unfoldable pub get_phy_fr_num : Table ℕ → Vm → Locals → ℕ → FrameType → TabType → ℕ → Vm × ℕ
get_phy_fr_num pdbr s u pid pt_entry table vpn = take_pt_frame s u pid table
get_phy_fr_num pdbr s u pid ffs table vpn = take_ffs_frame pdbr s u pid vpn
get_phy_fr_num pdbr s u pid swap table vpn = take_swap_frame s u pid vpn
