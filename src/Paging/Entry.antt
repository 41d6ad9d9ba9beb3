-- ===== src/Paging/Entry.antt =====
-- The bit-fields of include/paging.h: `pd_t` and `pt_t` as records, with the 32-bit word that
-- each one stands for (the first field is the lowest bit), and the words of physical memory.
use os_demand_paging.Base.{
  ℕ, ◌+◌, ◌*◌, ◌/◌, ◌%◌, ◌^◌, ◌<◌, ◌≡◌, arith, Table, put, ap, put_self, ◌∙◌,
}

-- A page directory entry.
pub record Pd : Type 0 where
  pub pd_pres : ℕ
  pub pd_write : ℕ
  pub pd_user : ℕ
  pub pd_pwt : ℕ
  pub pd_pcd : ℕ
  pub pd_acc : ℕ
  pub pd_mbz : ℕ
  pub pd_fmb : ℕ
  pub pd_global : ℕ
  pub pd_avail : ℕ
  pub pd_base : ℕ

-- A page table entry.
pub record Pt : Type 0 where
  pub pt_pres : ℕ
  pub pt_write : ℕ
  pub pt_user : ℕ
  pub pt_pwt : ℕ
  pub pt_pcd : ℕ
  pub pt_acc : ℕ
  pub pt_dirty : ℕ
  pub pt_mbz : ℕ
  pub pt_global : ℕ
  pub pt_avail : ℕ
  pub pt_avail2 : ℕ
  pub pt_avail3 : ℕ
  pub pt_base : ℕ

unfoldable pub decode_pd : ℕ → Pd
decode_pd w = record {
  pd_pres = w % 2;
  pd_write = w / 2 % 2;
  pd_user = w / 4 % 2;
  pd_pwt = w / 8 % 2;
  pd_pcd = w / 16 % 2;
  pd_acc = w / 32 % 2;
  pd_mbz = w / 64 % 2;
  pd_fmb = w / 128 % 2;
  pd_global = w / 256 % 2;
  pd_avail = w / 512 % 8;
  pd_base = w / 4096 % 2 ^ 20;
}

-- A value that is too wide for its field loses its high bits.
unfoldable pub encode_pd : Pd → ℕ
encode_pd p =
    pd_pres % 2
    + 2 * (pd_write % 2)
    + 4 * (pd_user % 2)
    + 8 * (pd_pwt % 2)
    + 16 * (pd_pcd % 2)
    + 32 * (pd_acc % 2)
    + 64 * (pd_mbz % 2)
    + 128 * (pd_fmb % 2)
    + 256 * (pd_global % 2)
    + 512 * (pd_avail % 8)
    + 4096 * (pd_base % 2 ^ 20)
  where
    open p use {
      pd_pres, pd_write, pd_user, pd_pwt, pd_pcd, pd_acc, pd_mbz, pd_fmb, pd_global, pd_avail,
      pd_base,
    }

unfoldable pub decode_pt : ℕ → Pt
decode_pt w = record {
  pt_pres = w % 2;
  pt_write = w / 2 % 2;
  pt_user = w / 4 % 2;
  pt_pwt = w / 8 % 2;
  pt_pcd = w / 16 % 2;
  pt_acc = w / 32 % 2;
  pt_dirty = w / 64 % 2;
  pt_mbz = w / 128 % 2;
  pt_global = w / 256 % 2;
  pt_avail = w / 512 % 2;
  pt_avail2 = w / 1024 % 2;
  pt_avail3 = w / 2048 % 2;
  pt_base = w / 4096 % 2 ^ 20;
}

unfoldable pub encode_pt : Pt → ℕ
encode_pt p =
    pt_pres % 2
    + 2 * (pt_write % 2)
    + 4 * (pt_user % 2)
    + 8 * (pt_pwt % 2)
    + 16 * (pt_pcd % 2)
    + 32 * (pt_acc % 2)
    + 64 * (pt_dirty % 2)
    + 128 * (pt_mbz % 2)
    + 256 * (pt_global % 2)
    + 512 * (pt_avail % 2)
    + 1024 * (pt_avail2 % 2)
    + 2048 * (pt_avail3 % 2)
    + 4096 * (pt_base % 2 ^ 20)
  where
    open p use {
      pt_pres, pt_write, pt_user, pt_pwt, pt_pcd, pt_acc, pt_dirty, pt_mbz, pt_global, pt_avail,
      pt_avail2, pt_avail3, pt_base,
    }

-- Physical memory, a word at each address that is a multiple of 4.
abbrev pub Mem : Type 0
Mem = Table ℕ

-- `*p` and `*p = e` at the byte address `a` of an entry
abbrev pub pd_at : Mem → ℕ → Pd
pd_at m a = decode_pd (m (a / 4))

abbrev pub pt_at : Mem → ℕ → Pt
pt_at m a = decode_pt (m (a / 4))

abbrev pub put_pd : Mem → ℕ → Pd → Mem
put_pd m a e = put m (a / 4) (encode_pd e)

abbrev pub put_pt : Mem → ℕ → Pt → Mem
put_pt m a e = put m (a / 4) (encode_pt e)

pub record PtFits (p : Pt) : Type 0 where
  pub pres : p.pt_pres < 2
  pub write : p.pt_write < 2
  pub user : p.pt_user < 2
  pub pwt : p.pt_pwt < 2
  pub pcd : p.pt_pcd < 2
  pub acc : p.pt_acc < 2
  pub dirty : p.pt_dirty < 2
  pub mbz : p.pt_mbz < 2
  pub global : p.pt_global < 2
  pub avail : p.pt_avail < 2
  pub avail2 : p.pt_avail2 < 2
  pub avail3 : p.pt_avail3 < 2
  pub base : p.pt_base < 2 ^ 20

pub decode_pt-Fits : (w : ℕ) → PtFits (decode_pt w)
unfolding decode_pt
decode_pt-Fits w = omega arith

-- A page table entry whose fields fit their widths is read back as it was written.
pub decode-encode_pt : (p : Pt) → PtFits p → decode_pt (encode_pt p) ≡ p
unfolding decode_pt encode_pt
decode-encode_pt p f = ground arith

-- The fields of a page table entry are the whole word: written back, they give the word.
pub encode-decode_pt : (w : ℕ) → w < 2 ^ 32 → encode_pt (decode_pt w) ≡ w
unfolding decode_pt encode_pt
encode-decode_pt w h = omega arith

-- An entry is read back as it was written.
pub pt_at-put_pt : (m : Mem) (a : ℕ) (e : Pt) → PtFits e → pt_at (put_pt m a e) a ≡ e
pt_at-put_pt m a e f = ap decode_pt (put_self m (a / 4) (encode_pt e)) ∙ decode-encode_pt e f
