-- ===== src/Tests/Ring3.antt =====
-- The concrete engine on the trampoline, and an i386 snapshot restored on it.
use process_bridge.Loader.Host.{
  rax, rbx, rcx, rdx, rsi, rdi, rbp, rsp, r8, r9, r10, r11, r12, r13, r14, r15, rip, eflags, cs, ss,
  ds, es, fs, gs, fs_base, gs_base, eax, ebx, ecx, edx, esi, edi, ebp, esp, eip, Reg,
}
use process_bridge.Base.{
  ℕ, ◌≡◌, List, false, ap, ◌<◌, ◌^◌, ◌+◌, sym, ◌==◌, get_or, ◌%◌, true, arith, ◌/◌, ◌∙◌,
  if◌then◌else◌, some, refl, Bool-cases, inl, inr,
}
use process_bridge.Loader.Engine.Ring3.{
  HasRing3, iret_changes, KeepsRegs, IsUserFrame, popped, popped_words,
}
use process_bridge.Tests.Machine.{
  Machine, machine_host, machine_view, byte_in, pop_frame, reg_in, mem_map_lem, perms_in, word_in,
}
use process_bridge.Base.Bytes.{le_value, le_bytes, words_bytes, le_value-le_bytes}
use process_bridge.Common.I386.{I386Regs}
use process_bridge.Loader.Registers.{reg_eq, touches-reg_eq, touches, reg_eq→eq, reg_eq_refl}

abbrev pub KernelRing : ℕ → Machine → Type 0
KernelRing uc m = reg_in m.regs cs % 4 ≡ 0

same_regs :
    (uc : ℕ) (m m' : Machine)
    → m'.regs ≡ m.regs
    → KeepsRegs machine_host machine_view KernelRing uc m m'
same_regs uc m m' e = record {
  regs_kept = λ q. ap (λ regs. reg_in regs q) e;
  ring_kept = λ h. ap (λ regs. reg_in regs cs % 4) e ∙ h;
}

-- A word of the frame, from its four bytes.
word_in-le_bytes :
    (stores : List (ℕ × List ℕ)) (a v : ℕ)
    → v < 256 ^ 4
    → byte_in stores a ≡ v % 256
    → byte_in stores (a + 1) ≡ v / 256 % 256
    → byte_in stores (a + 2) ≡ v / 256 / 256 % 256
    → byte_in stores (a + 3) ≡ v / 256 / 256 / 256 % 256
    → word_in stores a ≡ v
unfolding le_value le_bytes
word_in-le_bytes stores a v fits b0 b1 b2 b3 = rw (b0, b1, b2, b3) (le_value-le_bytes 4 v fits)

module _ (m : Machine) (r : I386Regs) (user : IsUserFrame r)
    (frame : (i : ℕ)
      → i < 20
      → byte_in m.stores (reg_in m.regs esp + i)
        ≡ get_or (words_bytes 4 (popped_words r)) i 0) where
  frame_word :
      (k v : ℕ)
      → k + 3 < 20
      → v < 256 ^ 4
      → get_or (words_bytes 4 (popped_words r)) k 0 ≡ v % 256
      → get_or (words_bytes 4 (popped_words r)) (k + 1) 0 ≡ v / 256 % 256
      → get_or (words_bytes 4 (popped_words r)) (k + 2) 0 ≡ v / 256 / 256 % 256
      → get_or (words_bytes 4 (popped_words r)) (k + 3) 0 ≡ v / 256 / 256 / 256 % 256
      → word_in m.stores (reg_in m.regs esp + k) ≡ v
  frame_word k v inside fits b0 b1 b2 b3 =
      let a = reg_in m.regs esp in
      let at : (j : ℕ) → j < 4 → byte_in m.stores (a + k + j) ≡ byte_in m.stores (a + (k + j)) =
        λ j lt. let e : a + k + j ≡ a + (k + j) = omega arith in ap (byte_in m.stores) e in
      word_in-le_bytes m.stores (a + k) v fits (frame k (omega arith) ∙ b0)
        (at 1 (omega arith) ∙ frame (k + 1) (omega arith) ∙ b1)
        (at 2 (omega arith) ∙ frame (k + 2) (omega arith) ∙ b2)
        (at 3 (omega arith) ∙ frame (k + 3) (omega arith) ∙ b3)

  value_of : {a b c : ℕ} → a ≡ b → some b ≡ some c → a ≡ c
  value_of e h = cc

  pop_frame-popped :
      (q : Reg) (value : ℕ) → popped r q ≡ some value → reg_in (pop_frame m).regs q ≡ value
  unfolding popped reg_eq words_bytes le_bytes
  pop_frame-popped eip value h =
      value_of (frame_word 0 r.eip (omega arith) user.frame_fits.0 refl refl refl refl) h
  pop_frame-popped cs value h =
      value_of (frame_word 4 r.xcs (omega arith) user.frame_fits.1.0 refl refl refl refl) h
  pop_frame-popped esp value h =
      value_of (frame_word 12 r.esp (omega arith) user.frame_fits.1.1.1.0 refl refl refl refl) h
  pop_frame-popped ss value h =
      value_of (frame_word 16 r.xss (omega arith) user.frame_fits.1.1.1.1.0 refl refl refl refl) h
  pop_frame-popped rax value h = cc
  pop_frame-popped rbx value h = cc
  pop_frame-popped rcx value h = cc
  pop_frame-popped rdx value h = cc
  pop_frame-popped rsi value h = cc
  pop_frame-popped rdi value h = cc
  pop_frame-popped rbp value h = cc
  pop_frame-popped rsp value h = cc
  pop_frame-popped r8 value h = cc
  pop_frame-popped r9 value h = cc
  pop_frame-popped r10 value h = cc
  pop_frame-popped r11 value h = cc
  pop_frame-popped r12 value h = cc
  pop_frame-popped r13 value h = cc
  pop_frame-popped r14 value h = cc
  pop_frame-popped r15 value h = cc
  pop_frame-popped rip value h = cc
  pop_frame-popped eax value h = cc
  pop_frame-popped ebx value h = cc
  pop_frame-popped ecx value h = cc
  pop_frame-popped edx value h = cc
  pop_frame-popped esi value h = cc
  pop_frame-popped edi value h = cc
  pop_frame-popped ebp value h = cc
  pop_frame-popped eflags value h = cc
  pop_frame-popped ds value h = cc
  pop_frame-popped es value h = cc
  pop_frame-popped fs value h = cc
  pop_frame-popped gs value h = cc
  pop_frame-popped fs_base value h = cc
  pop_frame-popped gs_base value h = cc

-- What an `iret` leaves alone is none of the five registers of its frame.
pop_frame-other :
    (m : Machine) (q : Reg) → iret_changes q ≡ false → reg_in (pop_frame m).regs q ≡ reg_in m.regs q
unfolding iret_changes
pop_frame-other m q quiet =
    let e1 : reg_eq eip q ≡ false = touches-reg_eq eip q (ground arith) in
    let e2 : reg_eq cs q ≡ false = touches-reg_eq cs q (ground arith) in
    let e3 : reg_eq eflags q ≡ false = touches-reg_eq eflags q (ground arith) in
    let e4 : reg_eq esp q ≡ false = touches-reg_eq esp q (ground arith) in
    let e5 : reg_eq ss q ≡ false = touches-reg_eq ss q (ground arith) in
    rw (e1, e2, e3, e4, e5, if◌then◌else◌) refl

ran_iret :
    (begin : ℕ) (m m' : Machine)
    → machine_host.uc_emu_start 1 begin 0 0 1 m ≡ (0, m')
    → byte_in m.stores begin ≡ 0xCF
    → m' ≡ pop_frame m
ran_iret begin m m' h there =
    let is_iret : (byte_in m.stores begin == 0xCF) ≡ true = ground arith in
    sym (ap (λ (p : ℕ × Machine). p.1) h) ∙ rw (if◌then◌else◌, is_iret) refl

-- A register whose write does not touch the code selector is another.
not_code : (r : Reg) → touches cs r ≡ false → reg_eq r cs ≡ false
not_code r apart = elim (Bool-cases (reg_eq r cs)) [
  | inl same ↦
      let e : r ≡ cs = reg_eq→eq r cs same in
      let itself : reg_eq cs r ≡ true = rw e (reg_eq_refl cs) in cc (touches-reg_eq cs r apart)
  | inr other ↦ other
]

pub machine_ring3 : HasRing3 machine_host machine_view KernelRing
machine_ring3 = record {
  map_regs = λ uc start size prot m m' h.
      same_regs uc m m' (ap (λ (n : Machine). n.regs) (sym (mem_map_lem start size prot m m' h).1));
  write_mem_regs =
      λ uc start bytes m m' h. same_regs uc m m' (ap (λ (p : ℕ × Machine). p.1.regs) (sym h));
  protect_regs =
      λ uc start size prot m m' h. same_regs uc m m' (ap (λ (p : ℕ × Machine). p.1.regs) (sym h));
  unmap_regs =
      λ uc start size m m' h. same_regs uc m m' (ap (λ (p : ℕ × Machine). p.1.regs) (sym h));
  unmap_keeps = λ uc start size x m m' h outer. record {
    byte_kept = ap (λ (p : ℕ × Machine). byte_in p.1.stores x) (sym h);
    perms_kept = ap (λ (p : ℕ × Machine). perms_in p.1.areas x) (sym h);
  };
  gdtr_regs = λ uc mmr m m' h. same_regs uc m m' (ap (λ (p : ℕ × Machine). p.1.regs) (sym h));
  write_ring = λ uc r value m m' h a b c ring.
      ap (λ (p : ℕ × Machine). reg_in p.1.regs cs % 4) (sym h)
      ∙ rw (if◌then◌else◌, not_code r a) ring;
  iret_keeps = λ uc begin x m m' h there outer.
      let ran = ran_iret begin m m' h there in
      record {
        byte_kept = ap (λ (n : Machine). byte_in n.stores x) ran;
        perms_kept = ap (λ (n : Machine). perms_in n.areas x) ran;
      };
  iret_pops = λ uc begin r m m' h there ring user frame q value pop.
      ap (λ (n : Machine). reg_in n.regs q) (ran_iret begin m m' h there)
      ∙ pop_frame-popped m r user frame q value pop;
  iret_other = λ uc begin q m m' h there quiet.
      ap (λ (n : Machine). reg_in n.regs q) (ran_iret begin m m' h there)
      ∙ pop_frame-other m q quiet;
}
