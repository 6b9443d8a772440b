-- ===== src/Proc/Tests.antt =====
-- A new process on the page at 0xC0400000.
use abel_os.Base.{ℕ, ◌+◌, ◌≤◌, ◌<◌, ◌≡◌, ◌≢◌, [], ◌∷◌, ◌⊎◌, arith}
use abel_os.Proc.{Words, proc_create_process}
use abel_os.Proc.Frame.{pops, proc_create_process-frame}

abbrev zeros : Words
zeros x = 0

proc_create_process-frame_example :
    let (top, m') = proc_create_process 0xC0105000 0xC0400000 0xC0106000 zeros in
    ((◌≡◌ {A = ℕ} 0xC0400000 0) × (top ≡ 0) × (m' ≡ zeros))
    ⊎ ((◌≢◌ {A = ℕ} 0xC0400000 0)
        × (top + 28 ≡ 0xC0400000 + 4096)
        × (pops 7 top m' ≡ 0 ∷ (0 ∷ (0 ∷ (0 ∷ (0x202 ∷ (0xC0106000 ∷ (0xC0105000 ∷ [])))))))
        × ((x : ℕ) → (x < top) ⊎ (top + 28 ≤ x) → m' x ≡ zeros x))
proc_create_process-frame_example =
    proc_create_process-frame 0xC0105000 0xC0400000 0xC0106000 zeros (omega arith) (omega arith)
