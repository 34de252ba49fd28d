-- ===== src/Loader/Registers/Restored.antt =====
-- The registers after the x86_64 state of a snapshot is restored.
use process_bridge.Base.{
  ◌≡◌, ℕ, Option, false, returned, some, none, ap, Gives, refl, pure, >>-eq_returned, if◌then◌else◌,
  Bool-cases, inr, ◌∙◌, inl, giving,
}
use process_bridge.Loader.X8664
use process_bridge.Loader.Host.{
  Host, Reg, eax, ebx, ecx, edx, esi, edi, ebp, esp, eip, rax, rbx, rcx, rdx, rsi, rdi, rbp, rsp,
  r8, r9, r10, r11, r12, r13, r14, r15, rip, eflags, cs, ss, ds, es, fs, gs, fs_base, gs_base,
}
use process_bridge.Loader.Engine.{View}
use process_bridge.Loader.Registers.{HasRegisters, touches, reg_eq, reg_eq→eq, AreFitting}
use process_bridge.Common.X8664.{X8664Regs}
use process_bridge.Loader.Writes.{write_regs}
use process_bridge.Loader.Check.{pb_uc_check_value-eq_returned}
use process_bridge.Loader.Registers.Written.{write_regs_last, last_write, untouched}

-- What a snapshot has for a register. `eflags` is left out, for the engine fixes bits of it.
unfoldable pub saved : X8664Regs → Reg → Option ℕ
saved s rax = some s.rax
saved s rbx = some s.rbx
saved s rcx = some s.rcx
saved s rdx = some s.rdx
saved s rsi = some s.rsi
saved s rdi = some s.rdi
saved s rbp = some s.rbp
saved s rsp = some s.rsp
saved s r8 = some s.r8
saved s r9 = some s.r9
saved s r10 = some s.r10
saved s r11 = some s.r11
saved s r12 = some s.r12
saved s r13 = some s.r13
saved s r14 = some s.r14
saved s r15 = some s.r15
saved s rip = some s.rip
saved s cs = some s.cs
saved s ss = some s.ss
saved s ds = some s.ds
saved s es = some s.es
saved s fs = some s.fs
saved s gs = some s.gs
saved s fs_base = some s.fs_base
saved s gs_base = some s.gs_base
saved s _ = none

module _ (H : Host) (V : View H) (registers : HasRegisters H V) (uc : ℕ) where
  -- The last write of each register that a snapshot has, in the order of `dump_regs`.
  last_write-saved :
      (s : X8664Regs) (q : Reg) (value : ℕ)
      → saved s q ≡ some value
      → last_write q (X8664.reg_writes s) ≡ some value
  unfolding saved last_write untouched touches
  last_write-saved s rax value h = h
  last_write-saved s rbx value h = h
  last_write-saved s rcx value h = h
  last_write-saved s rdx value h = h
  last_write-saved s rsi value h = h
  last_write-saved s rdi value h = h
  last_write-saved s rbp value h = h
  last_write-saved s rsp value h = h
  last_write-saved s r8 value h = h
  last_write-saved s r9 value h = h
  last_write-saved s r10 value h = h
  last_write-saved s r11 value h = h
  last_write-saved s r12 value h = h
  last_write-saved s r13 value h = h
  last_write-saved s r14 value h = h
  last_write-saved s r15 value h = h
  last_write-saved s rip value h = h
  last_write-saved s cs value h = h
  last_write-saved s ss value h = h
  last_write-saved s ds value h = h
  last_write-saved s es value h = h
  last_write-saved s fs value h = h
  last_write-saved s gs value h = h
  last_write-saved s fs_base value h = h
  last_write-saved s gs_base value h = h
  last_write-saved s eax value h = cc
  last_write-saved s ebx value h = cc
  last_write-saved s ecx value h = cc
  last_write-saved s edx value h = cc
  last_write-saved s esi value h = cc
  last_write-saved s edi value h = cc
  last_write-saved s ebp value h = cc
  last_write-saved s esp value h = cc
  last_write-saved s eip value h = cc
  last_write-saved s eflags value h = cc

  saved_plain :
      (s : X8664Regs) (q : Reg) (value : ℕ) → saved s q ≡ some value → reg_eq q eflags ≡ false
  unfolding saved
  saved_plain s q value h = elim (Bool-cases (reg_eq q eflags)) [
    | inl same ↦ cc (ap (saved s) (reg_eq→eq q eflags same))
    | inr other ↦ other
  ]

  dump_gdt-Gives : (s : X8664Regs) (w : H.World) → Gives 0 (X8664.dump_gdt H uc s w)
  unfolding X8664.dump_gdt
  dump_gdt-Gives s w = search giving depth 14

  -- Where the restore of an x86_64 state whose values fit their registers returns, in an engine
  -- that keeps the laws of its registers, it returns the saved instruction pointer, and every
  -- register that a snapshot has holds its saved value, but for `eflags`, of which this says
  -- nothing.
  pub dump_x86_64_cpu_state-saved :
      (s : X8664Regs) (w w' : H.World) (entry : ℕ)
      → AreFitting (X8664.reg_writes s)
      → X8664.dump_x86_64_cpu_state H uc s w ≡ returned entry w'
      → (q : Reg) (value : ℕ) → saved s q ≡ some value
      → (entry ≡ s.rip) × (V.reg uc q w' ≡ value)
  unfolding X8664.dump_x86_64_cpu_state X8664.dump_regs saved
  dump_x86_64_cpu_state-saved s w w' entry fits h q value has =
      let (gdt, u, made, after_gdt) = >>-eq_returned (X8664.dump_gdt H uc s w) _ h in
      let zero_gdt : gdt ≡ 0 = (dump_gdt-Gives s w).given gdt u made in
      let go_on = rw (if◌then◌else◌, zero_gdt) at after_gdt in
      let (regs, v, loaded, after_regs) = >>-eq_returned (X8664.dump_regs H uc s u) _ go_on in
      let (_, v', wrote, zero) =
        >>-eq_returned (write_regs H uc (X8664.reg_writes s) u) (λ _. pure 0) loaded in
      let zero_regs : regs ≡ 0 = cc in
      let same : v' ≡ v = cc in
      let read =
        pb_uc_check_value-eq_returned (H.uc_reg_read uc rip) v w' entry
          (rw (if◌then◌else◌, zero_regs) at after_regs) in
      let held : (q : Reg) (value : ℕ) → saved s q ≡ some value → V.reg uc q v ≡ value =
        λ q value h.
          write_regs_last H V registers uc (X8664.reg_writes s) q value u v
            (saved_plain s q value h) fits (rw same at wrote) (last_write-saved s q value h) in
      (
        registers.read_value uc rip entry v w' read ∙ held rip s.rip refl,
        registers.read_other uc rip q entry v w' read ∙ held q value has,
      )
