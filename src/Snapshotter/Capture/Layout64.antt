-- ===== src/Snapshotter/Capture/Layout64.antt =====
-- snapshotter/include/linux/arch.h, for the x86_64 build: the assertions that the registers of a
-- snapshot are laid out as those of ptrace.
use process_bridge.Base.{
  ℕ, Bool, true, ◌≡◌, List, [], ◌∷◌, ◌&&◌, ◌==◌, refl, arith, ◌∙◌, zero, get_elem?, some, subst,
  suc,
}
use process_bridge.Base.Bytes.{word_at}
use process_bridge.Common.X8664.{X8664Regs, x8664_regs_of, sizeof_x8664_regs}

-- The fields of the registers.
pub data Field : Type 0 where
  r15 r14 r13 r12 rbp rbx r11 r10 r9 r8 rax rcx rdx rsi rdi orig_rax rip cs eflags rsp ss fs_base
        gs_base ds es fs gs :
      Field

-- `struct user_regs_struct` of <sys/user.h>: its size, and the place and the size of a field.
pub record UserRegs : Type 0 where
  pub size : ℕ
  pub offset : Field → ℕ
  pub field_size : Field → ℕ

-- The place of a field in the registers of a snapshot.
unfoldable pub pb_offset : Field → ℕ
pb_offset r15 = 0
pb_offset r14 = 8
pb_offset r13 = 16
pb_offset r12 = 24
pb_offset rbp = 32
pb_offset rbx = 40
pb_offset r11 = 48
pb_offset r10 = 56
pb_offset r9 = 64
pb_offset r8 = 72
pb_offset rax = 80
pb_offset rcx = 88
pb_offset rdx = 96
pb_offset rsi = 104
pb_offset rdi = 112
pb_offset orig_rax = 120
pb_offset rip = 128
pb_offset cs = 136
pb_offset eflags = 144
pb_offset rsp = 152
pb_offset ss = 160
pb_offset fs_base = 168
pb_offset gs_base = 176
pb_offset ds = 184
pb_offset es = 192
pb_offset fs = 200
pb_offset gs = 208

-- `ASSERT_SAME_FIELD`
unfoldable pub same_field : UserRegs → Field → Bool
same_field U f = pb_offset f == U.offset f && 8 == U.field_size f

abbrev fields : List Field
fields =
    r15 ∷ r14 ∷ r13 ∷ r12 ∷ rbp ∷ rbx ∷ r11 ∷ r10 ∷ r9 ∷ r8 ∷ rax ∷ rcx ∷ rdx ∷ rsi ∷ rdi ∷ orig_rax
    ∷ rip ∷ cs ∷ eflags ∷ rsp ∷ ss ∷ fs_base ∷ gs_base ∷ ds ∷ es ∷ fs ∷ gs ∷ []

unfoldable pub same_fields : UserRegs → List Field → Bool
same_fields U [] = true
same_fields U (f ∷ others) = same_field U f && same_fields U others

-- All the assertions.
unfoldable pub static_assertions : UserRegs → Bool
static_assertions U = sizeof_x8664_regs == U.size && same_fields U fields

-- What a snapshot has in a field.
unfoldable pub field_of : Field → X8664Regs → ℕ
field_of r15 s = s.r15
field_of r14 s = s.r14
field_of r13 s = s.r13
field_of r12 s = s.r12
field_of rbp s = s.rbp
field_of rbx s = s.rbx
field_of r11 s = s.r11
field_of r10 s = s.r10
field_of r9 s = s.r9
field_of r8 s = s.r8
field_of rax s = s.rax
field_of rcx s = s.rcx
field_of rdx s = s.rdx
field_of rsi s = s.rsi
field_of rdi s = s.rdi
field_of orig_rax s = s.orig_rax
field_of rip s = s.rip
field_of cs s = s.cs
field_of eflags s = s.eflags
field_of rsp s = s.rsp
field_of ss s = s.ss
field_of fs_base s = s.fs_base
field_of gs_base s = s.gs_base
field_of ds s = s.ds
field_of es s = s.es
field_of fs s = s.fs
field_of gs s = s.gs

-- The fields of the list, at their places.
nth_field : Field → ℕ
nth_field r15 = 0
nth_field r14 = 1
nth_field r13 = 2
nth_field r12 = 3
nth_field rbp = 4
nth_field rbx = 5
nth_field r11 = 6
nth_field r10 = 7
nth_field r9 = 8
nth_field r8 = 9
nth_field rax = 10
nth_field rcx = 11
nth_field rdx = 12
nth_field rsi = 13
nth_field rdi = 14
nth_field orig_rax = 15
nth_field rip = 16
nth_field cs = 17
nth_field eflags = 18
nth_field rsp = 19
nth_field ss = 20
nth_field fs_base = 21
nth_field gs_base = 22
nth_field ds = 23
nth_field es = 24
nth_field fs = 25
nth_field gs = 26

same_fields_get :
    (U : UserRegs) (others : List Field) (k : ℕ) (f : Field)
    → same_fields U others ≡ true
    → get_elem? others k ≡ some f
    → same_field U f ≡ true
unfolding same_fields
same_fields_get U [] k f h at = cc
same_fields_get U (g ∷ others) zero f h at =
    let same : g ≡ f = cc in subst (λ (x : Field). same_field U x ≡ true) same (ground arith)
same_fields_get U (g ∷ others) (suc k) f h at = same_fields_get U others k f (ground arith) at

listed_field : (f : Field) → get_elem? fields (nth_field f) ≡ some f
unfolding nth_field
listed_field r15 = refl
listed_field r14 = refl
listed_field r13 = refl
listed_field r12 = refl
listed_field rbp = refl
listed_field rbx = refl
listed_field r11 = refl
listed_field r10 = refl
listed_field r9 = refl
listed_field r8 = refl
listed_field rax = refl
listed_field rcx = refl
listed_field rdx = refl
listed_field rsi = refl
listed_field rdi = refl
listed_field orig_rax = refl
listed_field rip = refl
listed_field cs = refl
listed_field eflags = refl
listed_field rsp = refl
listed_field ss = refl
listed_field fs_base = refl
listed_field gs_base = refl
listed_field ds = refl
listed_field es = refl
listed_field fs = refl
listed_field gs = refl

field_of-word_at :
    (f : Field) (bytes : List ℕ) → field_of f (x8664_regs_of bytes) ≡ word_at 8 (pb_offset f) bytes
unfolding field_of pb_offset x8664_regs_of
field_of-word_at r15 bytes = refl
field_of-word_at r14 bytes = refl
field_of-word_at r13 bytes = refl
field_of-word_at r12 bytes = refl
field_of-word_at rbp bytes = refl
field_of-word_at rbx bytes = refl
field_of-word_at r11 bytes = refl
field_of-word_at r10 bytes = refl
field_of-word_at r9 bytes = refl
field_of-word_at r8 bytes = refl
field_of-word_at rax bytes = refl
field_of-word_at rcx bytes = refl
field_of-word_at rdx bytes = refl
field_of-word_at rsi bytes = refl
field_of-word_at rdi bytes = refl
field_of-word_at orig_rax bytes = refl
field_of-word_at rip bytes = refl
field_of-word_at cs bytes = refl
field_of-word_at eflags bytes = refl
field_of-word_at rsp bytes = refl
field_of-word_at ss bytes = refl
field_of-word_at fs_base bytes = refl
field_of-word_at gs_base bytes = refl
field_of-word_at ds bytes = refl
field_of-word_at es bytes = refl
field_of-word_at fs bytes = refl
field_of-word_at gs bytes = refl

-- Where the assertions hold, whatever bytes the kernel writes into the registers of a snapshot, each
-- field is the number that stands where `struct user_regs_struct` has that field, at its size.
pub x8664_regs_of-static_assertions :
    (U : UserRegs) (f : Field) (bytes : List ℕ)
    → static_assertions U ≡ true
    → field_of f (x8664_regs_of bytes) ≡ word_at (U.field_size f) (U.offset f) bytes
unfolding static_assertions same_field
x8664_regs_of-static_assertions U f bytes h =
    let all : same_fields U fields ≡ true = ground arith in
    let same = same_fields_get U fields (nth_field f) f all (listed_field f) in
    let place : pb_offset f ≡ U.offset f = ground arith in
    let size : 8 ≡ U.field_size f = ground arith in
    field_of-word_at f bytes ∙ (λ i. word_at (size i) (place i) bytes)
