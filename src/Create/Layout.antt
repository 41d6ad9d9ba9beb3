-- ===== src/Create/Layout.antt =====
-- The stack of a new process.
use os_demand_paging.Paging.Entry.{Mem}
use os_demand_paging.Create.{push_list, build_stack, Stack, stackmagic, Mem, store}
use os_demand_paging.Paging.Bytes.{store-aligned, store}
use os_demand_paging.Base.{
  refl, inl, inr, [], ◌∷◌, if◌then◌else◌, ◌-◌, ℕ, ◌≡◌, ◌+◌, ◌<◌, ◌≢◌, leb, ◌*◌, ◌&&◌, ltb, ◌/◌,
  ◌==◌, arith, ◌∙◌, List, ◌^◌, sub32, ap, put, Bool-cases,
}

unfoldable pub length : List ℕ → ℕ
length [] = 0
length (v ∷ vs) = 1 + length vs

-- The `i`-th word of a list; 0 behind its end.
unfoldable pub word : List ℕ → ℕ → ℕ
word [] i = 0
word (v ∷ vs) i = if i == 0 then v else word vs (i - 1)

-- A list of words lies from the word `w` on, and the rest of memory is left.
abbrev pub Stored : Mem → List ℕ → ℕ → Mem → Type 0
Stored m vs w m' =
    (x : ℕ) → m' x ≡ (if leb w x && ltb x (w + length vs) then word vs (x - w) else m x)

push_list-Stored :
    (vs : List ℕ) (s : Stack) (w : ℕ)
    → s.sp ≡ 4 * (w + length vs)
    → w + length vs < 2 ^ 30
    → ((push_list vs s).sp ≡ 4 * w) × Stored s.mem vs w (push_list vs s).mem
unfolding push_list length word
push_list-Stored [] s w e h = (omega (arith, e), λ x. ground arith)
push_list-Stored (v ∷ vs) s w e h =
    let (sp, rest) = push_list-Stored vs s (w + 1) (omega (arith, e)) (omega arith) in
    let s' = push_list vs s in
    let low : sub32 s'.sp 4 ≡ 4 * w = omega (arith, sp) in
    let at : 4 * w / 4 ≡ w = omega arith in
    (
      low,
      λ x.
          ap (λ a. store s'.mem a v x) low
          ∙ ap (λ m. m x) (store-aligned s'.mem (4 * w) v (omega arith))
          ∙ rw at (ground (arith, rest x)),
    )

-- The words of the stack, from the stack pointer `4 * w` up: the registers that `popal` loads, the
-- flags, the old frame pointer, the addresses to return to, and the arguments.
abbrev pub frame : ℕ → ℕ → ℕ → ℕ → List ℕ → List ℕ
frame w saddr initret funcaddr args =
    0 ∷ 0 ∷ (4 * (w + 9)) ∷ (4 * w) ∷ 0 ∷ 0 ∷ 0 ∷ 0 ∷ 0x200 ∷ saddr ∷ funcaddr ∷ initret ∷ args

word-other :
    (l : List ℕ) (a b c u v i : ℕ) → i ≢ 3 → word (a ∷ b ∷ c ∷ u ∷ l) i ≡ word (a ∷ b ∷ c ∷ v ∷ l) i
unfolding word
word-other l a b c u v i h = ground arith

-- The pushes of `build_stack`, as lists: what the calls leave, the flags with the first registers, and
-- the other registers.
abbrev calls : ℕ → ℕ → ℕ → List ℕ → List ℕ
calls saddr funcaddr initret args = saddr ∷ funcaddr ∷ initret ∷ args

abbrev flags : List ℕ → List ℕ
flags l = 0 ∷ 0 ∷ 0 ∷ 0 ∷ 0 ∷ 0x200 ∷ l

abbrev regs : ℕ → List ℕ → List ℕ
regs ebp l = 0 ∷ 0 ∷ ebp ∷ l

abbrev marked : Mem → ℕ → Stack
marked m saddr = record { sp = saddr; mem = store m saddr stackmagic }

build_stack-push_list :
    (m : Mem) (saddr : ℕ) (args : List ℕ) (initret funcaddr : ℕ)
    → build_stack m saddr args initret funcaddr ≡ (
        let l1 = calls saddr funcaddr initret args in
        let s3 = push_list (regs (push_list l1 (marked m saddr)).sp (flags l1)) (marked m saddr) in
        record { sp = s3.sp; mem = store s3.mem (push_list (flags l1) (marked m saddr)).sp s3.sp })
unfolding build_stack push_list
build_stack-push_list m saddr args initret funcaddr = refl

flags-length : (l : List ℕ) → length (flags l) ≡ 6 + length l
unfolding length
flags-length l = omega arith

regs-length : (ebp : ℕ) (l : List ℕ) → length (regs ebp l) ≡ 3 + length l
unfolding length
regs-length ebp l = omega arith

calls-length : (a b c : ℕ) (l : List ℕ) → length (calls a b c l) ≡ 3 + length l
unfolding length
calls-length a b c l = omega arith

-- The write to the place of `esp`.
patched :
    (m m' : Mem) (w saddr initret funcaddr : ℕ) (args : List ℕ)
    → saddr ≡ 4 * (w + 12 + length args)
    → length (regs (4 * (w + 9)) (flags (calls saddr funcaddr initret args))) ≡ 12 + length args
    → w + 12 + length args < 2 ^ 30
    → Stored
        (marked m saddr).mem
        (regs (4 * (w + 9)) (flags (calls saddr funcaddr initret args)))
        w
        m'
    → (x : ℕ)
    → store m' (4 * (w + 3)) (4 * w) x ≡ (
        if x == w + 12 + length args
        then stackmagic
        else (if leb w x && ltb x (w + 12 + length args)
            then word (frame w saddr initret funcaddr args) (x - w)
            else m x))
patched m m' w saddr initret funcaddr args es n h r x =
    let at : 4 * (w + 3) / 4 ≡ w + 3 = omega arith in
    let top : saddr / 4 ≡ w + 12 + length args = omega arith in
    let l1 = calls saddr funcaddr initret args in
    let base : store m saddr stackmagic x ≡ put m (w + 12 + length args) stackmagic x =
      ap (λ t. t x) (store-aligned m saddr stackmagic (omega arith)) ∙ rw top refl in
    ap (λ t. t x) (store-aligned m' (4 * (w + 3)) (4 * w) (omega arith))
    ∙ rw at (elim (Bool-cases (x == w + 3)) [
      | inl e ↦
          let i : x - w ≡ 3 = ground arith in
          let v : word (frame w saddr initret funcaddr args) (x - w) ≡ 4 * w =
            rw i (unfold word in refl) in
          rw e (ground (arith, v))
      | inr e ↦
          let o =
            word-other (0 ∷ 0 ∷ 0 ∷ 0 ∷ 0x200 ∷ l1) 0 0 (4 * (w + 9)) 0 (4 * w) (x - w)
              (ground arith) in
          rw e (ground (arith, r x, o, base, n))
    ])

-- The stack of a new process whose top word, at the address from `getstk`, is a multiple of 4 and
-- lies high enough: the stack pointer stands 12 words and the arguments below the top. From it up
-- lie the registers, with the stack pointer itself in the place of `esp` and the address of the
-- saved frame pointer in that of `ebp`; the flags; the frame pointer; the function's address,
-- to which `ctxsw` returns, the address to which the function returns, and the arguments in their
-- order, behind which stands the mark of the stack's top. No other word changes.
pub build_stack_lem :
    (m : Mem) (w initret funcaddr : ℕ) (args : List ℕ)
    → w + 12 + length args < 2 ^ 30
    → let saddr = 4 * (w + 12 + length args) in
      let s = build_stack m saddr args initret funcaddr in
      (s.sp ≡ 4 * w)
      × ((x : ℕ)
          → s.mem x ≡ (
              if x == w + 12 + length args
              then stackmagic
              else (if leb w x && ltb x (w + 12 + length args)
                  then word (frame w saddr initret funcaddr args) (x - w)
                  else m x)))
build_stack_lem m w initret funcaddr args h =
    let top = w + 12 + length args in
    let saddr = 4 * top in
    let s0 = marked m saddr in
    let l1 = calls saddr funcaddr initret args in
    let l2 = flags l1 in
    let n1 : length l1 ≡ 3 + length args = calls-length saddr funcaddr initret args in
    let n2 : length l2 ≡ 9 + length args = omega (arith, flags-length l1) in
    let l3 = regs (4 * (w + 9)) l2 in
    let n3 : length l3 ≡ 12 + length args = omega (arith, regs-length (4 * (w + 9)) l2) in
    let e1 = (push_list-Stored l1 s0 (w + 9) (omega arith) (omega arith)).0 in
    let e2 = (push_list-Stored l2 s0 (w + 3) (omega arith) (omega arith)).0 in
    let (e3, r) = push_list-Stored l3 s0 w (omega arith) (omega arith) in
    rw (build_stack-push_list m saddr args initret funcaddr, e1, e2, e3)
      (refl, patched m (push_list l3 s0).mem w saddr initret funcaddr args refl (omega arith) h r)
