-- ===== src/Kernel/Processes.antt =====
-- The processes that `kernel_main` creates.
use abel_os.Base.{
  ℕ, suc, ◌+◌, ◌<◌, ◌^◌, ◌≡◌, ◌≢◌, refl, sym, ap, ◌∙◌, ◌∷◌, arith, inl, inr, some, false, ◌==◌,
}
use mathlib.Core.Path.{subst, ap₂}
use abel_os.Vmm.{kernel_page_idx, read_pte}
use abel_os.Vmm.Frames.{window}
use abel_os.PmmInit.{KernelImage}
use abel_os.Kalloc.Blocks.{PairApart}
use abel_os.Memory.{Memory, with_page}
use abel_os.Memory.Alloc.{IsMemory, IsFresh}
use abel_os.Memory.Supply.{
  KeepsEntries, IsFresh-KeepsEntries, HasSupply, with_page-HasSupply, kalloc_pages-some,
}
use abel_os.Fifo.{Entry, link}
use abel_os.Fifo.Change.{entry}
use abel_os.Scheduler.{Sched, add_process, fifo_ops}
use abel_os.Scheduler.Pids.{IsSched, add_process-IsSched}
use abel_os.Scheduler.Listed.{AreOk, AreOk-link, new_proc, add_process-link}
use abel_os.Kernel.{
  Image, Machine, pcb_size, node_size, create_process, add_to_scheduler, start_process,
}
use abel_os.Proc.Frame.{pops}
use abel_os.Kernel.Stacks.{WillStart, KeepsWords, create_process-frame}
use abel_os.Kernel.Linked.{AreLinked, AreLinked-cons, AreLinked-link, NoProc-Apart}

-- Memory satisfies its invariant, the processes are distinct and none is ending, and what the process
-- list points at are blocks of the heap in use.
pub record IsSystem (k : Image) (m : Machine) : Type 0 where
  pub memory_lem : IsMemory k.kernel m.memory
  pub sched_lem : IsSched m.sched
  pub ok : AreOk m.sched.procs
  pub linked : AreLinked m.memory.heap.used m.sched.procs

supply : (i j : ℕ) (s : Memory) → i ≡ j → HasSupply i s → HasSupply j s
supply i j s e g = subst (λ n. HasSupply n s) e g

with_page-IsMemory :
    (k : KernelImage) (n : ℕ) (s : Memory)
    → k.virt_start ≡ window
    → IsMemory k s
    → HasSupply (suc n) s
    → IsMemory k (with_page k s).1
      × HasSupply n (with_page k s).1
      × IsFresh k s (with_page k s).0 (with_page k s).1
with_page-IsMemory k n s at v g =
    let (w, g') = with_page-HasSupply k n s at v g in
    (
      record {
        owned = w.owned;
        heap_lem = v.heap_lem;
        free_mapped = w.free_mapped;
        used_mapped = w.used_mapped;
      },
      g',
      w,
    )

-- A process that is added with a stack: what of the machine has changed.
record IsAdded (k : Image) (n stack : ℕ) (m : Machine) (t : Machine) (e : Entry) : Type 0 where
  pub system : IsSystem k t
  pub left : HasSupply n t.memory
  pub sched_eq :
      t.sched ≡ record m.sched { procs = link e m.sched.procs; last_pid = m.sched.last_pid + 1 }
  pub id_eq : e.pcb.id ≡ m.sched.last_pid
  pub stack_eq : e.pcb.stack_ptr ≡ stack
  pub words_eq : t.words ≡ m.words
  pub entries : KeepsEntries m.memory.space t.memory.space

-- A process that is created: it is added, will start at `p_start` on a page that was not in use, and
-- nothing but its frame was written.
pub record IsCreated (k : Image) (n p_start : ℕ) (m : Machine) (t : Machine) (e : Entry)
    : Type 0 where
  pub system : IsSystem k t
  pub left : HasSupply n t.memory
  pub sched_eq :
      t.sched ≡ record m.sched { procs = link e m.sched.procs; last_pid = m.sched.last_pid + 1 }
  pub id_eq : e.pcb.id ≡ m.sched.last_pid
  pub starts : WillStart k p_start t.memory.space t.words e
  pub unused : read_pte m.memory.space kernel_page_idx starts.index ≡ 0
  pub entries : KeepsEntries m.memory.space t.memory.space
  pub words : KeepsWords e.pcb.stack_ptr m.words t.words

add_to_scheduler-IsAdded :
    (k : Image) (stack priority n : ℕ) (m : Machine)
    → k.kernel.virt_start ≡ window
    → IsSystem k m
    → HasSupply (n + 2 + 2) m.memory
    → m.sched.last_pid + 1 < 2 ^ 32
    → (t : Machine) × (e : Entry) × (add_to_scheduler k stack priority m ≡ some t)
      × IsAdded k n stack m t e
unfolding add_to_scheduler
add_to_scheduler-IsAdded k stack priority n m at v g small =
    let (copy, s1, b1, runs1, v1, g1, kept1, used1, ptr1) =
      kalloc_pages-some k.kernel (n + 2) pcb_size m.memory at v.memory_lem g (omega arith) in
    let (node, s2, b2, runs2, v2, g2, kept2, used2, ptr2) =
      kalloc_pages-some k.kernel n node_size s1 at v1 g1 (omega arith) in
    let c : copy ≢ 0 = λ h. absurd (omega arith) in
    let d : node ≢ 0 = λ h. absurd (omega arith) in
    let there : (copy == 0) ≡ false = ground arith in
    let sched = add_process fifo_ops copy node stack priority m.sched in
    let t : Machine = record m { memory = s2; sched = sched } in
    let apart = subst PairApart used1 v1.heap_lem.used_apart in
    let fresh = NoProc-Apart b1 m.memory.heap.used m.sched.procs apart.0 v.linked in
    let used : s2.heap.used ≡ b2 ∷ (b1 ∷ m.memory.heap.used) = used2 ∙ ap (λ l. b2 ∷ l) used1 in
    let e = entry copy node (new_proc stack priority m.sched) in
    let eq = add_process-link copy node stack priority m.sched c d small in
    (
      t,
      e,
      rw runs1 (rw there (rw runs2 refl)),
      record {
        system = record {
          memory_lem = v2;
          sched_lem =
              add_process-IsSched copy node stack priority m.sched v.sched_lem small
                (rw ptr1 fresh);
          ok = subst (λ (u : Sched). AreOk u.procs) (sym eq) (AreOk-link e m.sched.procs refl v.ok);
          linked =
              subst (λ (u : Sched). AreLinked s2.heap.used u.procs) (sym eq)
                (subst (λ l. AreLinked l (link e m.sched.procs)) (sym used)
                  (AreLinked-link (b2 ∷ (b1 ∷ m.memory.heap.used)) e m.sched.procs (inr (inl ptr1))
                    (inl ptr2)
                    (AreLinked-cons b2 (b1 ∷ m.memory.heap.used) m.sched.procs
                      (AreLinked-cons b1 m.memory.heap.used m.sched.procs v.linked))));
        };
        left = g2;
        sched_eq = eq;
        id_eq = refl;
        stack_eq = refl;
        words_eq = refl;
        entries = λ j used. kept2 j (kept1 j used);
      },
    )

-- For a kernel whose pages start at 0xC0400000, a machine that satisfies the invariant of its memory and
-- its processes, five more pages than wanted, and a counter of pids that does not wrap around: a process
-- is created and added behind the first one with the next pid, it will start where it is asked to, on a
-- page that was not in use, all other stacks are as before, the invariant still holds, and the pages
-- that were wanted are left.
pub start_process-IsCreated :
    (k : Image) (p_start n : ℕ) (m : Machine)
    → k.kernel.virt_start ≡ window
    → IsSystem k m
    → HasSupply (n + 5) m.memory
    → m.sched.last_pid + 1 < 2 ^ 32
    → (t : Machine) × (e : Entry) × (start_process k p_start m ≡ some t)
      × IsCreated k n p_start m t e
unfolding start_process create_process
start_process-IsCreated k p_start n m at v g small =
    let (w, g', fresh) =
      with_page-IsMemory k.kernel (n + 4) m.memory at v.memory_lem
        (supply (n + 5) (suc (n + 4)) m.memory (omega arith) g) in
    let r = create_process k p_start m in
    let (i, unused, entry, top, frame, words) = create_process-frame k p_start m at fresh in
    let v' : IsSystem k r.1 = record {
      memory_lem = w;
      sched_lem = v.sched_lem;
      ok = v.ok;
      linked = v.linked;
    } in
    let (t, e, runs, added) =
      add_to_scheduler-IsAdded k r.0 0 n r.1 at v'
        (supply (n + 4) (n + 2 + 2) r.1.memory (omega arith) g') small in
    let kept = IsFresh-KeepsEntries k.kernel m.memory _ _ fresh in
    (
      t,
      e,
      runs,
      record {
        system = added.system;
        left = added.left;
        sched_eq = added.sched_eq;
        id_eq = added.id_eq;
        starts = record {
          index = i;
          mapped = added.entries i entry;
          top = ap (λ p. p + 28) added.stack_eq ∙ top;
          frame = ap₂ (pops 7) added.stack_eq added.words_eq ∙ frame;
        };
        unused = unused;
        entries = λ j used. added.entries j (kept j used);
        words =
            subst (λ p. KeepsWords p m.words t.words) (sym added.stack_eq)
              (subst (KeepsWords r.0 m.words) (sym added.words_eq) words);
      },
    )
