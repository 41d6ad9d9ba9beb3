-- ===== src/Paging/Frames.antt =====
-- The frame tables of system/paging.c with the constants of include/paging.h: one entry for each
-- frame of the page table area, the FFS area and the swap area.
use os_demand_paging.Base.{ℕ, ◌+◌, Bool, ◌&&◌, Table, add32, sub32, ok, ◌==◌, sweep, count_if}
use os_demand_paging.Paging.Entry.{Mem}

abbrev pub page_size : ℕ
page_size = 4096

abbrev pub max_swap_size : ℕ
max_swap_size = 8192

abbrev pub max_ffs_size : ℕ
max_ffs_size = 4096

abbrev pub max_pt_size : ℕ
max_pt_size = 1024

abbrev pub xinu_pages : ℕ
xinu_pages = 4096

abbrev pub pt_start : ℕ
pt_start = xinu_pages

abbrev pub ffs_start : ℕ
ffs_start = pt_start + max_pt_size

abbrev pub swap_start : ℕ
swap_start = ffs_start + max_ffs_size

abbrev pub swap_end : ℕ
swap_end = swap_start + max_swap_size

abbrev pub num_ent_ppage : ℕ
num_ent_ppage = 1024

-- `tab_type`
pub data TabType : Type 0 where
  page_directory page_table page : TabType

-- `frame_type`
pub data FrameType : Type 0 where
  pt_entry ffs swap : FrameType

-- `phy_fm_t`
pub record Frame : Type 0 where
  pub p_fm_type : TabType
  pub p_fm_pid : ℕ
  pub p_fm_vpn : ℕ
  pub p_fm_isfree : ℕ
  pub p_fm_dirty : ℕ
  pub p_fm_latency : ℕ

-- The variables of the paging code, and physical memory.
pub record Vm : Type 0 where
  pub ptab : Table Frame
  pub stab : Table Frame
  pub ftab : Table Frame
  pub latency : ℕ
  pub available_heap_size : ℕ
  pub available_swap_size : ℕ
  pub mem : Mem

abbrev pub free_frame : Frame
free_frame = record {
  p_fm_type = page_directory;
  p_fm_pid = 0;
  p_fm_vpn = 0;
  p_fm_isfree = 1;
  p_fm_dirty = 0;
  p_fm_latency = 0;
}

-- Every field is assigned, so nothing of the old entry is left.
unfoldable pub init_frames : Vm → Vm × ℕ
init_frames s = (
  record s {
    ptab = sweep max_pt_size 0 (λ i f. free_frame) s.ptab;
    ftab = sweep max_ffs_size 0 (λ i f. free_frame) s.ftab;
    stab = sweep max_swap_size 0 (λ i f. free_frame) s.stab;
  },
  ok,
)

abbrev pub owned_by : Table Frame → ℕ → ℕ → Bool
owned_by t pid i = (t i).p_fm_isfree == 0 && (t i).p_fm_pid == pid

unfoldable pub used_ffs_frames : Vm → ℕ → ℕ
used_ffs_frames s pid = count_if (owned_by s.ftab pid) max_ffs_size 0

unfoldable pub used_swap_frames : Vm → ℕ → ℕ
used_swap_frames s pid = count_if (owned_by s.stab pid) max_swap_size 0

unfoldable pub free_ffs_pages : Vm → ℕ
free_ffs_pages s = s.available_heap_size

unfoldable pub free_swap_pages : Vm → ℕ
free_swap_pages s = s.available_swap_size

-- `heap_size` is the field of the process's entry of `proctab`.
unfoldable pub allocated_virtual_pages : ℕ → ℕ
allocated_virtual_pages heap_size = add32 max_ffs_size (sub32 max_ffs_size heap_size)
