-- ===== src/Vfree.antt =====
-- system/vfree.c. The function computes the addresses of directory entries by adding an offset to
-- the number `pdbr`, that is in bytes, so they need not be addresses of words. Its variables:
-- the offsets are those of the address `ptr`.
pub mod Swap
pub mod Bits
pub mod Result
pub mod Back
use os_demand_paging.PageFault.{pd_offset, pt_offset}
use os_demand_paging.Kernel.{Code, Kernel, done}
use os_demand_paging.Paging.Bytes.{clear_low, load}
use os_demand_paging.Paging.Frames.{
  Frame, Vm, max_ffs_size, page_directory, max_swap_size, page_size, ffs_start, swap_end,
}
use os_demand_paging.Paging.Entry.{Mem, Pt, decode_pd, put_pt, pt_at}
use os_demand_paging.Base.{
  zero, suc, ℕ, add32, for_range, if◌then◌else◌, minus_one, ◌+◌, ltb, shl, sub32, ◌/◌, ◌==◌, shr,
  ◌||◌, ◌%◌, ◌&&◌, ◌*◌, put, ◌!=◌, syserr, ok,
}

-- `pdbr+((pd_offset-1)%4)`, and the entry of the page in the table that is found there.
abbrev pub free_pde : ℕ → ℕ → ℕ
free_pde pdbr ptr = add32 pdbr (sub32 (pd_offset ptr) 1 % 4)

abbrev pub free_pte : Mem → ℕ → ℕ → ℕ
free_pte m pdbr ptr =
    add32 (shl (decode_pd (load m (free_pde pdbr ptr))).pd_base 12) (4 * pt_offset ptr)

-- One free bit is set, chosen by the number of the round.
abbrev pub set_bit : ℕ → Pt → Pt
set_bit i e =
    if ltb i 4096
    then record e { pt_avail = 1 }
    else (if ltb i 80192
        then record e { pt_avail2 = 1 }
        else (if ltb i 12288 then record e { pt_avail3 = 1 } else e))

-- The loop over the pages, with the rounds left, the round and the entry's address.
unfoldable pub free_bits : ℕ → ℕ → ℕ → Mem → Mem
free_bits zero i pte m = m
free_bits (suc n) i pte m =
    free_bits n (i + 1) (if i == 4096 || i == 8192 then sub32 pte (4 * 4096) else add32 pte 4)
      (put_pt m pte (set_bit i (pt_at m pte)))

-- The frame is given back; its claim count stays.
abbrev pub returned : Frame → Frame
returned f = record f {
  p_fm_isfree = 1;
  p_fm_pid = minus_one;
  p_fm_vpn = 0;
  p_fm_type = page_directory;
  p_fm_dirty = 0;
}

-- The state of the loops over the frames: the tables with memory, the sizes of the process, and
-- `flag`.
pub record Freeing : Type 0 where
  pub vm : Vm
  pub heap_size : ℕ
  pub swap_size : ℕ
  pub flag : ℕ

-- `pde = pdbr+pd_offset; pte = pde->pd_base+pt_offset; pte->pt_pres = 0;`
abbrev pub unmap_at : ℕ → ℕ → Mem → Mem
unmap_at pdbr ptr m =
    clear_low m (add32 (decode_pd (load m (add32 pdbr (pd_offset ptr)))).pd_base (pt_offset ptr))

unfoldable pub free_swap : ℕ → ℕ → ℕ → ℕ → Freeing → Freeing
free_swap pid pdbr ptr j z =
    if (z.vm.stab j).p_fm_vpn == shr ptr 12 && (z.vm.stab j).p_fm_pid == pid
    then record {
      vm = record z.vm {
        stab = put z.vm.stab j (returned (z.vm.stab j));
        mem = unmap_at pdbr ptr z.vm.mem;
        available_swap_size = add32 z.vm.available_swap_size 1;
      };
      heap_size = z.heap_size;
      swap_size = add32 z.swap_size 1;
      flag = sub32 z.flag 1;
    }
    else z

-- The loop for the FFS area tests the table of the swap area.
unfoldable pub free_ffs : ℕ → ℕ → ℕ → ℕ → Freeing → Freeing
free_ffs pid pdbr ptr j z =
    if (z.vm.stab j).p_fm_vpn == shr ptr 12 && (z.vm.stab j).p_fm_pid == pid
    then record {
      vm = record z.vm {
        ftab = put z.vm.ftab j (returned (z.vm.ftab j));
        mem = unmap_at pdbr ptr z.vm.mem;
        available_heap_size = add32 z.vm.available_heap_size 1;
      };
      heap_size = add32 z.heap_size 1;
      swap_size = z.swap_size;
      flag = sub32 z.flag 1;
    }
    else z

-- The loop over the pages. The page number is that of the first page in every round.
unfoldable pub free_frames : ℕ → ℕ → ℕ → ℕ → Freeing → Freeing
free_frames pid pdbr ptr n z =
    for_range n 0
      (λ i z0.
        for_range max_ffs_size 0 (free_ffs pid pdbr ptr)
          (for_range max_swap_size 0 (free_swap pid pdbr ptr) z0))
      z

-- The body, once the arguments are accepted. The first loop runs through, so the error behind it
-- is never returned.
unfoldable pub vfree_body : ℕ → ℕ → Kernel → Kernel
vfree_body ptr nbytes k =
    let pid = k.currpid in
    let p = k.proctab pid in
    let n = nbytes / page_size in
    let m = free_bits n 0 (free_pte k.vm.mem p.pdbr ptr) k.vm.mem in
    let pages = if nbytes % page_size != 0 then add32 n 1 else n in
    let z = free_frames pid p.pdbr ptr pages (record {
      vm = record k.vm { mem = m };
      heap_size = p.heap_size;
      swap_size = p.swap_size;
      flag = pages;
    }) in
    record k {
      vm = z.vm;
      proctab =
          put k.proctab pid
            (record p { heap_size = add32 z.heap_size z.flag; swap_size = z.swap_size });
      cr3 = p.pdbr;
    }

unfoldable pub vfree : ℕ → ℕ → Code ℕ
vfree ptr nbytes k =
    if nbytes == 0 || ltb ptr (ffs_start * page_size) || ltb (swap_end * page_size) ptr
    then done (record k { cr3 = (k.proctab k.currpid).pdbr }) syserr
    else done (vfree_body ptr nbytes k) ok
