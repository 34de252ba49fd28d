-- ===== src/Snapshotter/Capture/Layout32.antt =====
-- snapshotter/include/linux/arch.h, for the i386 build: the assertions that the registers of a
-- snapshot are laid out as those of ptrace.
use process_bridge.Base.{
  ℕ, Bool, true, ◌≡◌, List, [], ◌∷◌, ◌&&◌, ◌==◌, refl, get_elem?, zero, arith, some, ◌∙◌, subst,
  suc,
}
use process_bridge.Base.Bytes.{word_at}
use process_bridge.Common.I386.{I386Regs, i386_regs_of, sizeof_i386_regs}

-- The fields of the registers.
pub data Field : Type 0 where
  ebx ecx edx esi edi ebp eax xds xes xfs xgs orig_eax eip xcs eflags esp xss : Field

-- `struct user_regs_struct` of <sys/user.h>: its size, and the place and the size of a field.
pub record UserRegs : Type 0 where
  pub size : ℕ
  pub offset : Field → ℕ
  pub field_size : Field → ℕ

-- The place of a field in the registers of a snapshot.
unfoldable pub pb_offset : Field → ℕ
pb_offset ebx = 0
pb_offset ecx = 4
pb_offset edx = 8
pb_offset esi = 12
pb_offset edi = 16
pb_offset ebp = 20
pb_offset eax = 24
pb_offset xds = 28
pb_offset xes = 32
pb_offset xfs = 36
pb_offset xgs = 40
pb_offset orig_eax = 44
pb_offset eip = 48
pb_offset xcs = 52
pb_offset eflags = 56
pb_offset esp = 60
pb_offset xss = 64

-- `ASSERT_SAME_FIELD`
unfoldable pub same_field : UserRegs → Field → Bool
same_field U f = pb_offset f == U.offset f && 4 == U.field_size f

abbrev fields : List Field
fields =
    ebx ∷ ecx ∷ edx ∷ esi ∷ edi ∷ ebp ∷ eax ∷ xds ∷ xes ∷ xfs ∷ xgs ∷ orig_eax ∷ eip ∷ xcs ∷ eflags
    ∷ esp ∷ xss ∷ []

unfoldable pub same_fields : UserRegs → List Field → Bool
same_fields U [] = true
same_fields U (f ∷ others) = same_field U f && same_fields U others

-- All the assertions.
unfoldable pub static_assertions : UserRegs → Bool
static_assertions U = sizeof_i386_regs == U.size && same_fields U fields

-- What a snapshot has in a field.
unfoldable pub field_of : Field → I386Regs → ℕ
field_of ebx s = s.ebx
field_of ecx s = s.ecx
field_of edx s = s.edx
field_of esi s = s.esi
field_of edi s = s.edi
field_of ebp s = s.ebp
field_of eax s = s.eax
field_of xds s = s.xds
field_of xes s = s.xes
field_of xfs s = s.xfs
field_of xgs s = s.xgs
field_of orig_eax s = s.orig_eax
field_of eip s = s.eip
field_of xcs s = s.xcs
field_of eflags s = s.eflags
field_of esp s = s.esp
field_of xss s = s.xss

-- The fields of the list, at their places.
nth_field : Field → ℕ
nth_field ebx = 0
nth_field ecx = 1
nth_field edx = 2
nth_field esi = 3
nth_field edi = 4
nth_field ebp = 5
nth_field eax = 6
nth_field xds = 7
nth_field xes = 8
nth_field xfs = 9
nth_field xgs = 10
nth_field orig_eax = 11
nth_field eip = 12
nth_field xcs = 13
nth_field eflags = 14
nth_field esp = 15
nth_field xss = 16

same_fields_get :
    (U : UserRegs) (others : List Field) (k : ℕ) (f : Field)
    → same_fields U others ≡ true
    → get_elem? others k ≡ some f
    → same_field U f ≡ true
unfolding same_fields
same_fields_get U [] k f h at = cc
same_fields_get U (g ∷ others) zero f h at =
    let same : g ≡ f = cc in subst (λ (x : Field). same_field U x ≡ true) same (ground arith)
same_fields_get U (g ∷ others) (suc k) f h at = same_fields_get U others k f (ground arith) at

listed_field : (f : Field) → get_elem? fields (nth_field f) ≡ some f
unfolding nth_field
listed_field ebx = refl
listed_field ecx = refl
listed_field edx = refl
listed_field esi = refl
listed_field edi = refl
listed_field ebp = refl
listed_field eax = refl
listed_field xds = refl
listed_field xes = refl
listed_field xfs = refl
listed_field xgs = refl
listed_field orig_eax = refl
listed_field eip = refl
listed_field xcs = refl
listed_field eflags = refl
listed_field esp = refl
listed_field xss = refl

field_of-word_at :
    (f : Field) (bytes : List ℕ) → field_of f (i386_regs_of bytes) ≡ word_at 4 (pb_offset f) bytes
unfolding field_of pb_offset i386_regs_of
field_of-word_at ebx bytes = refl
field_of-word_at ecx bytes = refl
field_of-word_at edx bytes = refl
field_of-word_at esi bytes = refl
field_of-word_at edi bytes = refl
field_of-word_at ebp bytes = refl
field_of-word_at eax bytes = refl
field_of-word_at xds bytes = refl
field_of-word_at xes bytes = refl
field_of-word_at xfs bytes = refl
field_of-word_at xgs bytes = refl
field_of-word_at orig_eax bytes = refl
field_of-word_at eip bytes = refl
field_of-word_at xcs bytes = refl
field_of-word_at eflags bytes = refl
field_of-word_at esp bytes = refl
field_of-word_at xss bytes = refl

-- Where the assertions hold, whatever bytes the kernel writes into the registers of a snapshot, each
-- field is the number that stands where `struct user_regs_struct` has that field, at its size.
pub i386_regs_of-static_assertions :
    (U : UserRegs) (f : Field) (bytes : List ℕ)
    → static_assertions U ≡ true
    → field_of f (i386_regs_of bytes) ≡ word_at (U.field_size f) (U.offset f) bytes
unfolding static_assertions same_field
i386_regs_of-static_assertions U f bytes h =
    let all : same_fields U fields ≡ true = ground arith in
    let same = same_fields_get U fields (nth_field f) f all (listed_field f) in
    let place : pb_offset f ≡ U.offset f = ground arith in
    let size : 4 ≡ U.field_size f = ground arith in
    field_of-word_at f bytes ∙ (λ i. word_at (size i) (place i) bytes)
