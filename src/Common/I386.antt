-- ===== src/Common/I386.antt =====
-- common/include/linux/i386/process_state.h: the registers in a snapshot.
use process_bridge.Base.{ℕ, ◌≡◌, refl, List, [], ◌∷◌, length}
use process_bridge.Base.Bytes.{le_bytes, le_value, le_value-le_bytes, words_bytes, word_at, Fit}

pub record I386Regs : Type 0 where
  pub ebx : ℕ
  pub ecx : ℕ
  pub edx : ℕ
  pub esi : ℕ
  pub edi : ℕ
  pub ebp : ℕ
  pub eax : ℕ
  pub xds : ℕ
  pub xes : ℕ
  pub xfs : ℕ
  pub xgs : ℕ
  pub orig_eax : ℕ
  pub eip : ℕ
  pub xcs : ℕ
  pub eflags : ℕ
  pub esp : ℕ
  pub xss : ℕ

-- The fields in the order of the struct.
abbrev pub i386_regs_words : I386Regs → List ℕ
i386_regs_words s =
    s.ebx ∷ s.ecx ∷ s.edx ∷ s.esi ∷ s.edi ∷ s.ebp ∷ s.eax ∷ s.xds ∷ s.xes ∷ s.xfs ∷ s.xgs
    ∷ s.orig_eax ∷ s.eip ∷ s.xcs ∷ s.eflags ∷ s.esp ∷ s.xss ∷ []

abbrev pub sizeof_i386_regs : ℕ
sizeof_i386_regs = 68

-- The fields fit their C type, `uint32_t`.
abbrev pub IsI386Regs : I386Regs → Type 0
IsI386Regs s = Fit 4 (i386_regs_words s)

-- The bytes of the struct, as `fwrite` writes them.
unfoldable pub i386_regs_bytes : I386Regs → List ℕ
i386_regs_bytes s = words_bytes 4 (i386_regs_words s)

-- The struct that a `memcpy` of its bytes gives.
unfoldable pub i386_regs_of : List ℕ → I386Regs
i386_regs_of b = record {
  ebx = word_at 4 0 b;
  ecx = word_at 4 4 b;
  edx = word_at 4 8 b;
  esi = word_at 4 12 b;
  edi = word_at 4 16 b;
  ebp = word_at 4 20 b;
  eax = word_at 4 24 b;
  xds = word_at 4 28 b;
  xes = word_at 4 32 b;
  xfs = word_at 4 36 b;
  xgs = word_at 4 40 b;
  orig_eax = word_at 4 44 b;
  eip = word_at 4 48 b;
  xcs = word_at 4 52 b;
  eflags = word_at 4 56 b;
  esp = word_at 4 60 b;
  xss = word_at 4 64 b;
}

-- Writing the registers and reading their bytes back gives the registers.
pub i386_regs_of-i386_regs_bytes :
    (s : I386Regs) → IsI386Regs s → i386_regs_of (i386_regs_bytes s) ≡ s
unfolding i386_regs_of i386_regs_bytes words_bytes word_at le_bytes le_value
i386_regs_of-i386_regs_bytes s h = λ i. record {
  ebx = le_value-le_bytes 4 s.ebx h.0 i;
  ecx = le_value-le_bytes 4 s.ecx h.1.0 i;
  edx = le_value-le_bytes 4 s.edx h.1.1.0 i;
  esi = le_value-le_bytes 4 s.esi h.1.1.1.0 i;
  edi = le_value-le_bytes 4 s.edi h.1.1.1.1.0 i;
  ebp = le_value-le_bytes 4 s.ebp h.1.1.1.1.1.0 i;
  eax = le_value-le_bytes 4 s.eax h.1.1.1.1.1.1.0 i;
  xds = le_value-le_bytes 4 s.xds h.1.1.1.1.1.1.1.0 i;
  xes = le_value-le_bytes 4 s.xes h.1.1.1.1.1.1.1.1.0 i;
  xfs = le_value-le_bytes 4 s.xfs h.1.1.1.1.1.1.1.1.1.0 i;
  xgs = le_value-le_bytes 4 s.xgs h.1.1.1.1.1.1.1.1.1.1.0 i;
  orig_eax = le_value-le_bytes 4 s.orig_eax h.1.1.1.1.1.1.1.1.1.1.1.0 i;
  eip = le_value-le_bytes 4 s.eip h.1.1.1.1.1.1.1.1.1.1.1.1.0 i;
  xcs = le_value-le_bytes 4 s.xcs h.1.1.1.1.1.1.1.1.1.1.1.1.1.0 i;
  eflags = le_value-le_bytes 4 s.eflags h.1.1.1.1.1.1.1.1.1.1.1.1.1.1.0 i;
  esp = le_value-le_bytes 4 s.esp h.1.1.1.1.1.1.1.1.1.1.1.1.1.1.1.0 i;
  xss = le_value-le_bytes 4 s.xss h.1.1.1.1.1.1.1.1.1.1.1.1.1.1.1.1.0 i;
}

pub length-i386_regs_bytes : (s : I386Regs) → length (i386_regs_bytes s) ≡ sizeof_i386_regs
unfolding i386_regs_bytes words_bytes le_bytes
length-i386_regs_bytes s = refl
