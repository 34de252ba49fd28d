-- ===== src/Loader/Registers/Saved32.antt =====
-- The registers of an i386 snapshot, and how the restore of loader/src/i386/cpu_state_dump.c gives
-- each its value.
use process_bridge.Loader.Host.{
  rax, rbx, rcx, rdx, rsi, rdi, rbp, rsp, r8, r9, r10, r11, r12, r13, r14, r15, rip, eflags, cs, ss,
  ds, es, fs, gs, fs_base, gs_base, eax, ebx, ecx, edx, esi, edi, ebp, esp, eip, Reg,
}
use process_bridge.Loader.Registers.Written.{last_write, untouched}
use process_bridge.Common.I386.{I386Regs}
use process_bridge.Base.{ℕ, Option, ◌≡◌, some, true, none, false, Bool-cases, refl, inl, ap, inr}
use process_bridge.Loader.Engine.Ring3.{popped, iret_changes}
use process_bridge.Loader.I386.{segment_writes, general_writes}
use process_bridge.Loader.Registers.{reg_eq, touches, reg_eq→eq}

-- What a snapshot has for a register. `eflags` is left out, for the engine fixes bits of it, and
-- `orig_eax` is no register.
unfoldable pub saved32 : I386Regs → Reg → Option ℕ
saved32 r ebx = some r.ebx
saved32 r ecx = some r.ecx
saved32 r edx = some r.edx
saved32 r esi = some r.esi
saved32 r edi = some r.edi
saved32 r ebp = some r.ebp
saved32 r eax = some r.eax
saved32 r ds = some r.xds
saved32 r es = some r.xes
saved32 r fs = some r.xfs
saved32 r gs = some r.xgs
saved32 r eip = some r.eip
saved32 r cs = some r.xcs
saved32 r esp = some r.esp
saved32 r ss = some r.xss
saved32 r _ = none

-- How a register comes by its value: it is written last, or popped and not written again, or
-- written first and left alone by the trampoline and what follows it.
pub data Way (r : I386Regs) (q : Reg) (value : ℕ) : Type 0 where
  by_segment : last_write q (segment_writes r) ≡ some value → Way r q value
  by_frame : popped r q ≡ some value → untouched q (segment_writes r) ≡ true → Way r q value
  by_general :
      last_write q (general_writes r) ≡ some value
      → touches esp q ≡ false
      → iret_changes q ≡ false
      → untouched q (segment_writes r) ≡ true
      → Way r q value

pub saved32-Way : (r : I386Regs) (q : Reg) (value : ℕ) → saved32 r q ≡ some value → Way r q value
unfolding saved32 last_write untouched popped iret_changes touches
saved32-Way r ebx value h = by_general h refl refl refl
saved32-Way r ecx value h = by_general h refl refl refl
saved32-Way r edx value h = by_general h refl refl refl
saved32-Way r esi value h = by_general h refl refl refl
saved32-Way r edi value h = by_general h refl refl refl
saved32-Way r ebp value h = by_general h refl refl refl
saved32-Way r eax value h = by_general h refl refl refl
saved32-Way r ds value h = by_segment h
saved32-Way r es value h = by_segment h
saved32-Way r fs value h = by_segment h
saved32-Way r gs value h = by_segment h
saved32-Way r eip value h = by_frame h refl
saved32-Way r cs value h = by_frame h refl
saved32-Way r esp value h = by_frame h refl
saved32-Way r ss value h = by_frame h refl
saved32-Way r rax value h = cc
saved32-Way r rbx value h = cc
saved32-Way r rcx value h = cc
saved32-Way r rdx value h = cc
saved32-Way r rsi value h = cc
saved32-Way r rdi value h = cc
saved32-Way r rbp value h = cc
saved32-Way r rsp value h = cc
saved32-Way r r8 value h = cc
saved32-Way r r9 value h = cc
saved32-Way r r10 value h = cc
saved32-Way r r11 value h = cc
saved32-Way r r12 value h = cc
saved32-Way r r13 value h = cc
saved32-Way r r14 value h = cc
saved32-Way r r15 value h = cc
saved32-Way r rip value h = cc
saved32-Way r eflags value h = cc
saved32-Way r fs_base value h = cc
saved32-Way r gs_base value h = cc

pub saved32_plain :
    (r : I386Regs) (q : Reg) (value : ℕ) → saved32 r q ≡ some value → reg_eq q eflags ≡ false
unfolding saved32
saved32_plain r q value h = elim (Bool-cases (reg_eq q eflags)) [
  | inl same ↦ cc (ap (saved32 r) (reg_eq→eq q eflags same))
  | inr other ↦ other
]
