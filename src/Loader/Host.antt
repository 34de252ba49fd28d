-- ===== src/Loader/Host.antt =====
-- What the loader calls and does not implement: Unicorn (<unicorn/unicorn.h>) and the system
-- calls of loader/src/dump.c, over one world. An engine is the number that stands for its pointer.
use process_bridge.Base.{ℕ, Option, List}

-- The registers that the loader names, `UC_X86_REG_RAX` as `rax`. `gdtr` is written by a call of
-- its own.
pub data Reg : Type 0 where
  rax rbx rcx rdx rsi rdi rbp rsp r8 r9 r10 r11 r12 r13 r14 r15 rip : Reg
  eax ebx ecx edx esi edi ebp esp eip : Reg
  eflags cs ss ds es fs gs fs_base gs_base : Reg

-- `uc_x86_mmr`
pub record Mmr : Type 0 where
  pub selector : ℕ
  pub base : ℕ
  pub limit : ℕ
  pub flags : ℕ

-- What `mmap` gives: an address, and the bytes of the file that stand there.
pub record Mapping : Type 0 where
  pub address : ℕ
  pub bytes : List ℕ

-- An operation that returns a `uc_err` gives it as a number, 0 for `UC_ERR_OK`.
pub record Host : Type 1 where
  pub World : Type 0
  pub uc_arch_x86 : ℕ
  pub uc_mode_32 : ℕ
  pub uc_mode_64 : ℕ
  pub uc_prot_read : ℕ
  pub uc_prot_write : ℕ
  pub uc_prot_exec : ℕ
  pub uc_open : ℕ → ℕ → World → (ℕ × ℕ) × World
  pub uc_query_arch : ℕ → World → ℕ × World
  pub uc_query_mode : ℕ → World → ℕ × World
  pub uc_mem_map : ℕ → ℕ → ℕ → ℕ → World → ℕ × World
  pub uc_mem_write : ℕ → ℕ → List ℕ → World → ℕ × World
  pub uc_mem_protect : ℕ → ℕ → ℕ → ℕ → World → ℕ × World
  pub uc_mem_unmap : ℕ → ℕ → ℕ → World → ℕ × World
  pub uc_reg_write : ℕ → Reg → ℕ → World → ℕ × World
  pub uc_gdtr_write : ℕ → Mmr → World → ℕ × World
  pub uc_reg_read : ℕ → Reg → World → (ℕ × ℕ) × World
  pub uc_emu_start : ℕ → ℕ → ℕ → ℕ → ℕ → World → ℕ × World
  pub open_file : List ℕ → World → Option ℕ × World
  pub fstat_size : ℕ → World → Option ℕ × World
  pub mmap : ℕ → ℕ → World → Option Mapping × World
  pub munmap : Mapping → ℕ → World → World
  pub close : ℕ → World → World
