-- ===== src/Kernel/Stacks.antt =====
-- The stacks of processes that have not run yet: what the first switch to each of them finds.
use abel_os.Base.{
  ℕ, zero, suc, ◌+◌, ◌*◌, ◌≤◌, ◌<◌, ◌≡◌, ◌≢◌, refl, ap, ltb, ◌∙◌, List, [], ◌∷◌, ◌⊎◌, inl, inr,
  Bool-cases, arith,
}
use mathlib.Core.Path.{ap₂}
use abel_os.Vmm.{kernel_page_idx, AddrSpace, read_pte}
use abel_os.Vmm.Frames.{IsEntry, window}
use abel_os.Proc.{Words}
use abel_os.Proc.Frame.{pops, proc_create_process-frame}
use abel_os.Fifo.{Entry}
use abel_os.Memory.{with_page}
use abel_os.Memory.Alloc.{IsFresh}
use abel_os.Memory.Supply.{KeepsEntries}
use abel_os.Kernel.{Image, Machine, create_process}

-- What is popped when a process runs for the first time: four registers, the flags with interrupts
-- enabled, its start, and as its return address `scheduler_exit_current`.
abbrev pub frame_of : Image → ℕ → List ℕ
frame_of k p_start = 0 ∷ (0 ∷ (0 ∷ (0 ∷ (0x202 ∷ (p_start ∷ (k.scheduler_exit_current ∷ []))))))

-- The stack is in a page of the kernel that is in use, and the frame at its end starts the process at
-- `p_start`.
pub record WillStart (k : Image) (p_start : ℕ) (a : AddrSpace) (w : Words) (e : Entry)
    : Type 0 where
  pub index : ℕ
  pub mapped : IsEntry a index
  pub top : e.pcb.stack_ptr + 28 ≡ window + index * 4096 + 4096
  pub frame : pops 7 e.pcb.stack_ptr w ≡ frame_of k p_start

-- All words but those of the frame at `top` are as before.
abbrev pub KeepsWords : (top : ℕ) → Words → Words → Type 0
KeepsWords top w w' = (x : ℕ) → (x < top) ⊎ (top + 28 ≤ x) → w' x ≡ w x

pops-kept :
    (n a : ℕ) (w w' : Words)
    → ((x : ℕ) → a ≤ x → x < a + n * 4 → w' x ≡ w x)
    → pops n a w' ≡ pops n a w
pops-kept zero a w w' same = refl
pops-kept (suc n) a w w' same =
    ap₂ ◌∷◌ (same a (omega arith) (omega arith))
      (pops-kept n (a + 4) w w' (λ x lo hi. same x (omega arith) (omega arith)))

-- Such a stack is not in a page that is not in use.
WillStart-other :
    (k : Image) (p_start i : ℕ) (a : AddrSpace) (w : Words) (e : Entry)
    → read_pte a kernel_page_idx i ≡ 0
    → (v : WillStart k p_start a w e) → v.index ≢ i
WillStart-other k p_start i a w e unused v same =
    v.mapped (ap (read_pte a kernel_page_idx) same ∙ unused)

pub WillStart-differs :
    (k : Image) (p_start i top : ℕ) (a : AddrSpace) (w : Words) (e : Entry)
    → read_pte a kernel_page_idx i ≡ 0
    → top + 28 ≡ window + i * 4096 + 4096
    → WillStart k p_start a w e
    → e.pcb.stack_ptr ≢ top
WillStart-differs k p_start i top a w e unused at v same =
    let other = WillStart-other k p_start i a w e unused v in
    let here = v.top in absurd (other (omega arith))

-- A frame that is written in a page which was not in use leaves the others.
pub WillStart-kept :
    (k : Image) (p_start i top : ℕ) (a b : AddrSpace) (w w' : Words) (e : Entry)
    → read_pte a kernel_page_idx i ≡ 0
    → top + 28 ≡ window + i * 4096 + 4096
    → KeepsEntries a b
    → KeepsWords top w w'
    → WillStart k p_start a w e
    → WillStart k p_start b w' e
WillStart-kept k p_start i top a b w w' e unused at entries words v = record {
  index = v.index;
  mapped = entries v.index v.mapped;
  top = v.top;
  frame = pops-kept 7 e.pcb.stack_ptr w w' (λ x lo hi. words x (outside x lo hi)) ∙ v.frame;
}
  where
    outside :
        (x : ℕ) → e.pcb.stack_ptr ≤ x → x < e.pcb.stack_ptr + 7 * 4 → (x < top) ⊎ (top + 28 ≤ x)
    outside x lo hi =
        let other = WillStart-other k p_start i a w e unused v in
        let below = v.top in
        elim (Bool-cases (ltb v.index i)) [
          | inl less ↦ let lt : v.index < i = ground arith in inl (omega arith)
          | inr more ↦ let gt : i < v.index = ground arith in inr (omega arith)
        ]

-- The stack of a new process, in a page that was not in use.
pub create_process-frame :
    (k : Image) (p_start : ℕ) (m : Machine)
    → k.kernel.virt_start ≡ window
    → IsFresh k.kernel m.memory (with_page k.kernel m.memory).0 (with_page k.kernel m.memory).1
    → let r = create_process k p_start m in
      (i : ℕ) × (read_pte m.memory.space kernel_page_idx i ≡ 0)
      × IsEntry r.1.memory.space i
      × (r.0 + 28 ≡ window + i * 4096 + 4096)
      × (pops 7 r.0 r.1.words ≡ frame_of k p_start)
      × KeepsWords r.0 m.words r.1.words
unfolding create_process
create_process-frame k p_start m at w =
    let (i, place, unused, entry, before, others) = w.others in
    let below = w.mapped.below in
    elim (proc_create_process-frame k.scheduler_exit_current (with_page k.kernel m.memory).0 p_start
      m.words (omega arith) (omega (arith, at))) [
        | inl (null, no_top, same) ↦ absurd (omega arith)
        | inr (ne, top, frame, words) ↦ (i, unused, entry, omega arith, frame, words)
      ]
