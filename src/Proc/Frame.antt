-- ===== src/Proc/Frame.antt =====
-- What the first switch to a new process finds.
use mathlib.Core.Path.{ap₂}
use abel_os.Base.{
  ℕ, zero, suc, ◌+◌, ◌%◌, ◌^◌, ◌≤◌, ◌<◌, ◌≡◌, ◌≢◌, refl, List, [], ◌∷◌, ◌==◌, ◌⊎◌, inl, inr,
  Bool-cases, u32, sub32, arith,
}
use abel_os.Proc.{Words, arch_proc_prepare_stack, proc_create_process}

-- The words that are popped from `a` on.
abbrev pub pops : ℕ → ℕ → Words → List ℕ
pops zero a m = []
pops (suc n) a m = m a ∷ pops n (a + 4) m

-- Without a page there is no process and memory stays. With one, the top of the stack lies in the page,
-- seven words from its end: four registers of 0, the flags with interrupts enabled, the process's
-- start, and as its return address the routine that ends it; all other words stay.
pub proc_create_process-frame :
    (exit stack_end p_start : ℕ) (m : Words)
    → stack_end % 4096 ≡ 0
    → stack_end + 4096 ≤ 2 ^ 32
    → let (top, m') = proc_create_process exit stack_end p_start m in
      ((stack_end ≡ 0) × (top ≡ 0) × (m' ≡ m))
      ⊎ ((stack_end ≢ 0)
          × (top + 28 ≡ stack_end + 4096)
          × (pops 7 top m' ≡ 0 ∷ (0 ∷ (0 ∷ (0 ∷ (0x202 ∷ (p_start ∷ (exit ∷ [])))))))
          × ((x : ℕ) → (x < top) ⊎ (top + 28 ≤ x) → m' x ≡ m x))
unfolding proc_create_process arch_proc_prepare_stack
proc_create_process-frame exit stack_end p_start m aligned low =
    elim (Bool-cases (stack_end == 0)) [
      | inl null ↦ let e : stack_end ≡ 0 = ground arith in rw null (inl (e, refl, refl))
      | inr page ↦
          let ne : stack_end ≢ 0 = ground arith in
          let top : sub32 (u32 (stack_end + 4096)) 28 ≡ stack_end + 4068 = omega arith in
          rw (page, top)
            (inr (
              ne,
              omega arith,
              (ap₂ ◌∷◌ (ground arith) (
                  ap₂ ◌∷◌ (ground arith) (
                    ap₂ ◌∷◌ (ground arith) (
                      ap₂ ◌∷◌ (ground arith) (
                        ap₂ ◌∷◌ (ground arith)
                          (ap₂ ◌∷◌ (ground arith) (ap₂ ◌∷◌ (ground arith) refl))))))),
              λ x out. ground arith,
            ))
    ]
