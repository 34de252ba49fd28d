-- ===== src/Common/X8664.antt =====
-- common/include/linux/x86_64/process_state.h: the registers in a snapshot.
use process_bridge.Base.{ℕ, ◌≡◌, refl, List, [], ◌∷◌, length}
use process_bridge.Base.Bytes.{le_bytes, le_value, le_value-le_bytes, words_bytes, word_at, Fit}

pub record X8664Regs : Type 0 where
  pub r15 : ℕ
  pub r14 : ℕ
  pub r13 : ℕ
  pub r12 : ℕ
  pub rbp : ℕ
  pub rbx : ℕ
  pub r11 : ℕ
  pub r10 : ℕ
  pub r9 : ℕ
  pub r8 : ℕ
  pub rax : ℕ
  pub rcx : ℕ
  pub rdx : ℕ
  pub rsi : ℕ
  pub rdi : ℕ
  pub orig_rax : ℕ
  pub rip : ℕ
  pub cs : ℕ
  pub eflags : ℕ
  pub rsp : ℕ
  pub ss : ℕ
  pub fs_base : ℕ
  pub gs_base : ℕ
  pub ds : ℕ
  pub es : ℕ
  pub fs : ℕ
  pub gs : ℕ

-- The fields in the order of the struct.
abbrev pub x8664_regs_words : X8664Regs → List ℕ
x8664_regs_words s =
    s.r15 ∷ s.r14 ∷ s.r13 ∷ s.r12 ∷ s.rbp ∷ s.rbx ∷ s.r11 ∷ s.r10 ∷ s.r9 ∷ s.r8 ∷ s.rax ∷ s.rcx
    ∷ s.rdx ∷ s.rsi ∷ s.rdi ∷ s.orig_rax ∷ s.rip ∷ s.cs ∷ s.eflags ∷ s.rsp ∷ s.ss ∷ s.fs_base
    ∷ s.gs_base ∷ s.ds ∷ s.es ∷ s.fs ∷ s.gs ∷ []

abbrev pub sizeof_x8664_regs : ℕ
sizeof_x8664_regs = 216

-- The fields fit their C type, `uint64_t`.
abbrev pub IsX8664Regs : X8664Regs → Type 0
IsX8664Regs s = Fit 8 (x8664_regs_words s)

-- The bytes of the struct, as `fwrite` writes them.
unfoldable pub x8664_regs_bytes : X8664Regs → List ℕ
x8664_regs_bytes s = words_bytes 8 (x8664_regs_words s)

-- The struct that a `memcpy` of its bytes gives.
unfoldable pub x8664_regs_of : List ℕ → X8664Regs
x8664_regs_of b = record {
  r15 = word_at 8 0 b;
  r14 = word_at 8 8 b;
  r13 = word_at 8 16 b;
  r12 = word_at 8 24 b;
  rbp = word_at 8 32 b;
  rbx = word_at 8 40 b;
  r11 = word_at 8 48 b;
  r10 = word_at 8 56 b;
  r9 = word_at 8 64 b;
  r8 = word_at 8 72 b;
  rax = word_at 8 80 b;
  rcx = word_at 8 88 b;
  rdx = word_at 8 96 b;
  rsi = word_at 8 104 b;
  rdi = word_at 8 112 b;
  orig_rax = word_at 8 120 b;
  rip = word_at 8 128 b;
  cs = word_at 8 136 b;
  eflags = word_at 8 144 b;
  rsp = word_at 8 152 b;
  ss = word_at 8 160 b;
  fs_base = word_at 8 168 b;
  gs_base = word_at 8 176 b;
  ds = word_at 8 184 b;
  es = word_at 8 192 b;
  fs = word_at 8 200 b;
  gs = word_at 8 208 b;
}

-- Writing x86_64 registers of 64 bits and reading their bytes back gives the registers.
pub x8664_regs_of-x8664_regs_bytes :
    (s : X8664Regs) → IsX8664Regs s → x8664_regs_of (x8664_regs_bytes s) ≡ s
unfolding x8664_regs_of x8664_regs_bytes words_bytes word_at le_bytes le_value
x8664_regs_of-x8664_regs_bytes s h = λ i. record {
  r15 = le_value-le_bytes 8 s.r15 h.0 i;
  r14 = le_value-le_bytes 8 s.r14 h.1.0 i;
  r13 = le_value-le_bytes 8 s.r13 h.1.1.0 i;
  r12 = le_value-le_bytes 8 s.r12 h.1.1.1.0 i;
  rbp = le_value-le_bytes 8 s.rbp h.1.1.1.1.0 i;
  rbx = le_value-le_bytes 8 s.rbx h.1.1.1.1.1.0 i;
  r11 = le_value-le_bytes 8 s.r11 h.1.1.1.1.1.1.0 i;
  r10 = le_value-le_bytes 8 s.r10 h.1.1.1.1.1.1.1.0 i;
  r9 = le_value-le_bytes 8 s.r9 h.1.1.1.1.1.1.1.1.0 i;
  r8 = le_value-le_bytes 8 s.r8 h.1.1.1.1.1.1.1.1.1.0 i;
  rax = le_value-le_bytes 8 s.rax h.1.1.1.1.1.1.1.1.1.1.0 i;
  rcx = le_value-le_bytes 8 s.rcx h.1.1.1.1.1.1.1.1.1.1.1.0 i;
  rdx = le_value-le_bytes 8 s.rdx h.1.1.1.1.1.1.1.1.1.1.1.1.0 i;
  rsi = le_value-le_bytes 8 s.rsi h.1.1.1.1.1.1.1.1.1.1.1.1.1.0 i;
  rdi = le_value-le_bytes 8 s.rdi h.1.1.1.1.1.1.1.1.1.1.1.1.1.1.0 i;
  orig_rax = le_value-le_bytes 8 s.orig_rax h.1.1.1.1.1.1.1.1.1.1.1.1.1.1.1.0 i;
  rip = le_value-le_bytes 8 s.rip h.1.1.1.1.1.1.1.1.1.1.1.1.1.1.1.1.0 i;
  cs = le_value-le_bytes 8 s.cs h.1.1.1.1.1.1.1.1.1.1.1.1.1.1.1.1.1.0 i;
  eflags = le_value-le_bytes 8 s.eflags h.1.1.1.1.1.1.1.1.1.1.1.1.1.1.1.1.1.1.0 i;
  rsp = le_value-le_bytes 8 s.rsp h.1.1.1.1.1.1.1.1.1.1.1.1.1.1.1.1.1.1.1.0 i;
  ss = le_value-le_bytes 8 s.ss h.1.1.1.1.1.1.1.1.1.1.1.1.1.1.1.1.1.1.1.1.0 i;
  fs_base = le_value-le_bytes 8 s.fs_base h.1.1.1.1.1.1.1.1.1.1.1.1.1.1.1.1.1.1.1.1.1.0 i;
  gs_base = le_value-le_bytes 8 s.gs_base h.1.1.1.1.1.1.1.1.1.1.1.1.1.1.1.1.1.1.1.1.1.1.0 i;
  ds = le_value-le_bytes 8 s.ds h.1.1.1.1.1.1.1.1.1.1.1.1.1.1.1.1.1.1.1.1.1.1.1.0 i;
  es = le_value-le_bytes 8 s.es h.1.1.1.1.1.1.1.1.1.1.1.1.1.1.1.1.1.1.1.1.1.1.1.1.0 i;
  fs = le_value-le_bytes 8 s.fs h.1.1.1.1.1.1.1.1.1.1.1.1.1.1.1.1.1.1.1.1.1.1.1.1.1.0 i;
  gs = le_value-le_bytes 8 s.gs h.1.1.1.1.1.1.1.1.1.1.1.1.1.1.1.1.1.1.1.1.1.1.1.1.1.1.0 i;
}

pub length-x8664_regs_bytes : (s : X8664Regs) → length (x8664_regs_bytes s) ≡ sizeof_x8664_regs
unfolding x8664_regs_bytes words_bytes le_bytes
length-x8664_regs_bytes s = refl
