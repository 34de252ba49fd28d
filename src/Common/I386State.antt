-- ===== src/Common/I386State.antt =====
-- common/include/linux/i386/process_state.h: the i386 state in a snapshot.
use process_bridge.Base.{
  zero, suc, refl, ℕ, List, ◌≡◌, length, take, ◌+◌, [], ◌∷◌, ◌++◌, ◌*◌, length-append, drop, ap,
  All, arith, take-append_of_eq, ◌∙◌, drop-append_of_eq,
}
use process_bridge.Common.I386.{
  I386Regs, IsI386Regs, i386_regs_bytes, i386_regs_of, i386_regs_of-i386_regs_bytes,
  sizeof_i386_regs, length-i386_regs_bytes,
}
use process_bridge.Common.UserDesc.{UserDesc, IsUserDesc, DescLayout, IsLawful}

abbrev pub gdt_entry_tls_entries : ℕ
gdt_entry_tls_entries = 3

-- `tls` has `gdt_entry_tls_entries` descriptors.
pub record I386State : Type 0 where
  pub regs : I386Regs
  pub tls : List UserDesc

-- The fields fit their types.
pub record IsI386State (s : I386State) : Type 0 where
  pub regs_fit : IsI386Regs s.regs
  pub tls_size : length s.tls ≡ gdt_entry_tls_entries
  pub tls_fit : All IsUserDesc s.tls

module _ (L : DescLayout) where
  tls_bytes : List UserDesc → List ℕ
  tls_bytes [] = []
  tls_bytes (d ∷ ds) = L.bytes d ++ tls_bytes ds

  -- `n` descriptors one after the other.
  tls_of : ℕ → List ℕ → List UserDesc
  tls_of zero b = []
  tls_of (suc n) b = L.desc_of (take L.size b) ∷ tls_of n (drop L.size b)

  abbrev pub sizeof_i386_state : ℕ
  sizeof_i386_state = sizeof_i386_regs + gdt_entry_tls_entries * L.size

  -- The bytes of the struct, as `fwrite` writes them.
  unfoldable pub i386_state_bytes : I386State → List ℕ
  unfolding tls_bytes
  i386_state_bytes s = i386_regs_bytes s.regs ++ tls_bytes s.tls

  -- The struct that a `memcpy` of its bytes gives.
  unfoldable pub i386_state_of : List ℕ → I386State
  unfolding tls_of
  i386_state_of b = record {
    regs = i386_regs_of (take sizeof_i386_regs b);
    tls = tls_of gdt_entry_tls_entries (drop sizeof_i386_regs b);
  }

module _ (L : DescLayout) (lawful : IsLawful L) where
  tls_of-tls_bytes :
      (ds : List UserDesc) (n : ℕ)
      → length ds ≡ n
      → All IsUserDesc ds
      → tls_of L n (tls_bytes L ds) ≡ ds
  unfolding tls_of tls_bytes
  tls_of-tls_bytes [] zero h fit = refl
  tls_of-tls_bytes [] (suc n) h fit = absurd (omega arith)
  tls_of-tls_bytes (d ∷ ds) zero h fit = absurd (omega arith)
  tls_of-tls_bytes (d ∷ ds) (suc n) h fit = rw (
    take-append_of_eq L.size (L.bytes d) (tls_bytes L ds) (lawful.length-bytes d),
    drop-append_of_eq L.size (L.bytes d) (tls_bytes L ds) (lawful.length-bytes d),
    lawful.desc_of-bytes d fit.0,
    tls_of-tls_bytes ds n (omega arith) fit.1,
  )

  -- Writing an i386 state whose fields fit their types and reading its bytes back gives the state,
  -- with any layout of descriptors that copies them by their bytes.
  pub i386_state_of-i386_state_bytes :
      (s : I386State) → IsI386State s → i386_state_of L (i386_state_bytes L s) ≡ s
  unfolding i386_state_of i386_state_bytes
  i386_state_of-i386_state_bytes s h =
      let b = i386_regs_bytes s.regs in
      let t = tls_bytes L s.tls in
      λ i. record {
        regs =
            (ap i386_regs_of
                  (take-append_of_eq sizeof_i386_regs b t (length-i386_regs_bytes s.regs))
                ∙ i386_regs_of-i386_regs_bytes s.regs h.regs_fit)
              i;
        tls =
            (ap (tls_of L 3)
                  (drop-append_of_eq sizeof_i386_regs b t (length-i386_regs_bytes s.regs))
                ∙ tls_of-tls_bytes s.tls 3 h.tls_size h.tls_fit)
              i;
      }

  length-tls_bytes : (ds : List UserDesc) → length (tls_bytes L ds) ≡ length ds * L.size
  unfolding tls_bytes
  length-tls_bytes [] = omega arith
  length-tls_bytes (d ∷ ds) =
      length-append (L.bytes d) (tls_bytes L ds)
      ∙ omega (arith, lawful.length-bytes d, length-tls_bytes ds)

  pub length-i386_state_bytes :
      (s : I386State) → IsI386State s → length (i386_state_bytes L s) ≡ sizeof_i386_state L
  unfolding i386_state_bytes
  length-i386_state_bytes s h =
      length-append (i386_regs_bytes s.regs) (tls_bytes L s.tls)
      ∙ rw (length-i386_regs_bytes, length-tls_bytes, h.tls_size) refl
