-- ===== src/Loader/Registers.antt =====
-- The registers of an engine: which of them a write changes.
pub mod Written
pub mod Restored
pub mod Saved32
pub mod Restored32
pub mod Files
use process_bridge.Base.{
  ◌≡◌, refl, true, Bool, List, get_or, ℕ, ◌∷◌, ◌||◌, false, ==_iff, ◌==◌, [], sym, ◌∙◌, ap,
  Bool-cases, inr, inl, ◌<◌, ◌^◌,
}
use process_bridge.Loader.Host.{
  Host, Reg, rax, rbx, rcx, rdx, rsi, rdi, rbp, rsp, r8, r9, r10, r11, r12, r13, r14, r15, rip, eax,
  ebx, ecx, edx, esi, edi, ebp, esp, eip, eflags, cs, ss, ds, es, fs, gs, fs_base, gs_base,
}
use process_bridge.Loader.Engine.{View}

reg_index : Reg → ℕ
reg_index rax = 0
reg_index rbx = 1
reg_index rcx = 2
reg_index rdx = 3
reg_index rsi = 4
reg_index rdi = 5
reg_index rbp = 6
reg_index rsp = 7
reg_index r8 = 8
reg_index r9 = 9
reg_index r10 = 10
reg_index r11 = 11
reg_index r12 = 12
reg_index r13 = 13
reg_index r14 = 14
reg_index r15 = 15
reg_index rip = 16
reg_index eax = 17
reg_index ebx = 18
reg_index ecx = 19
reg_index edx = 20
reg_index esi = 21
reg_index edi = 22
reg_index ebp = 23
reg_index esp = 24
reg_index eip = 25
reg_index eflags = 26
reg_index cs = 27
reg_index ss = 28
reg_index ds = 29
reg_index es = 30
reg_index fs = 31
reg_index gs = 32
reg_index fs_base = 33
reg_index gs_base = 34

all_regs : List Reg
all_regs =
    rax ∷ rbx ∷ rcx ∷ rdx ∷ rsi ∷ rdi ∷ rbp ∷ rsp ∷ r8 ∷ r9 ∷ r10 ∷ r11 ∷ r12 ∷ r13 ∷ r14 ∷ r15
    ∷ rip ∷ eax ∷ ebx ∷ ecx ∷ edx ∷ esi ∷ edi ∷ ebp ∷ esp ∷ eip ∷ eflags ∷ cs ∷ ss ∷ ds ∷ es ∷ fs
    ∷ gs ∷ fs_base ∷ gs_base ∷ []

all_regs_indexed : (r : Reg) → get_or all_regs (reg_index r) rax ≡ r
unfolding all_regs reg_index
all_regs_indexed rax = refl
all_regs_indexed rbx = refl
all_regs_indexed rcx = refl
all_regs_indexed rdx = refl
all_regs_indexed rsi = refl
all_regs_indexed rdi = refl
all_regs_indexed rbp = refl
all_regs_indexed rsp = refl
all_regs_indexed r8 = refl
all_regs_indexed r9 = refl
all_regs_indexed r10 = refl
all_regs_indexed r11 = refl
all_regs_indexed r12 = refl
all_regs_indexed r13 = refl
all_regs_indexed r14 = refl
all_regs_indexed r15 = refl
all_regs_indexed rip = refl
all_regs_indexed eax = refl
all_regs_indexed ebx = refl
all_regs_indexed ecx = refl
all_regs_indexed edx = refl
all_regs_indexed esi = refl
all_regs_indexed edi = refl
all_regs_indexed ebp = refl
all_regs_indexed esp = refl
all_regs_indexed eip = refl
all_regs_indexed eflags = refl
all_regs_indexed cs = refl
all_regs_indexed ss = refl
all_regs_indexed ds = refl
all_regs_indexed es = refl
all_regs_indexed fs = refl
all_regs_indexed gs = refl
all_regs_indexed fs_base = refl
all_regs_indexed gs_base = refl

unfoldable pub reg_eq : Reg → Reg → Bool
unfolding reg_index
reg_eq r q = reg_index r == reg_index q

pub reg_eq→eq : (r q : Reg) → reg_eq r q ≡ true → r ≡ q
unfolding reg_eq
reg_eq→eq r q h =
    let same : reg_index r ≡ reg_index q = (==_iff (reg_index r) (reg_index q)).0 h in
    sym (all_regs_indexed r) ∙ ap (λ (n : ℕ). get_or all_regs n rax) same ∙ all_regs_indexed q

-- The 64-bit register that holds a register.
holder : Reg → Reg
holder eax = rax
holder ebx = rbx
holder ecx = rcx
holder edx = rdx
holder esi = rsi
holder edi = rdi
holder ebp = rbp
holder esp = rsp
holder eip = rip
holder r = r

-- The base that the processor reloads with a segment register.
hidden : Reg → Reg
hidden fs = fs_base
hidden gs = gs_base
hidden r = r

-- Writing the first register can change the second.
unfoldable pub touches : Reg → Reg → Bool
unfolding holder hidden reg_eq
touches r q = reg_eq (holder r) (holder q) || reg_eq (hidden r) q

pub reg_eq_refl : (r : Reg) → reg_eq r r ≡ true
unfolding reg_eq
reg_eq_refl r = (==_iff (reg_index r) (reg_index r)).1 refl

pub touches-reg_eq : (r q : Reg) → touches r q ≡ false → reg_eq r q ≡ false
unfolding touches
touches-reg_eq r q apart = elim (Bool-cases (reg_eq r q)) [
  | inr other ↦ other
  | inl same ↦
      let e : r ≡ q = reg_eq→eq r q same in
      let touched : reg_eq (holder r) (holder q) ≡ true = rw e (reg_eq_refl (holder q)) in
      cc (rw touched at apart)
]

-- The bits of a register.
abbrev pub reg_bits : Reg → ℕ
reg_bits eax = 32
reg_bits ebx = 32
reg_bits ecx = 32
reg_bits edx = 32
reg_bits esi = 32
reg_bits edi = 32
reg_bits ebp = 32
reg_bits esp = 32
reg_bits eip = 32
reg_bits cs = 16
reg_bits ss = 16
reg_bits ds = 16
reg_bits es = 16
reg_bits fs = 16
reg_bits gs = 16
reg_bits r = 64

-- Each value fits the register that it is written to.
abbrev pub AreFitting : List (Reg × ℕ) → Type 0
AreFitting [] = Unit
AreFitting ((r, v) ∷ writes) = (v < 2 ^ reg_bits r) × AreFitting writes

module _ (H : Host) (V : View H) where
  -- A write that succeeds stores a value that fits, but for `eflags`, of which bits may be fixed; it
  -- changes no register that it does not touch. A read gives the value and changes nothing.
  pub record HasRegisters : Type 0 where
    pub write_self :
        (uc : ℕ) (r : Reg) (value : ℕ) (w w' : H.World)
        → H.uc_reg_write uc r value w ≡ (0, w')
        → reg_eq r eflags ≡ false
        → value < 2 ^ reg_bits r
        → V.reg uc r w' ≡ value
    pub write_other :
        (uc : ℕ) (r q : Reg) (value : ℕ) (w w' : H.World)
        → H.uc_reg_write uc r value w ≡ (0, w')
        → touches r q ≡ false
        → V.reg uc q w' ≡ V.reg uc q w
    pub read_value :
        (uc : ℕ) (r : Reg) (value : ℕ) (w w' : H.World)
        → H.uc_reg_read uc r w ≡ ((0, value), w')
        → value ≡ V.reg uc r w
    pub read_other :
        (uc : ℕ) (r q : Reg) (value : ℕ) (w w' : H.World)
        → H.uc_reg_read uc r w ≡ ((0, value), w')
        → V.reg uc q w' ≡ V.reg uc q w
