-- ===== src/Vmm/Startup.antt =====
-- Emptied tables: `arch_vmm_init`, and `arch_vmm_alloc_page_table` for a new one.
use abel_os.Base.{
  ℕ, zero, suc, ◌+◌, ◌-◌, ◌/◌, ◌^◌, ◌≤◌, ◌<◌, ◌≡◌, ◌≢◌, refl, ◌∙◌, true, false, ◌&&◌, ◌||◌, bit_and,
  bit_or, ltb, leb, ◌==◌, if◌then◌else◌, arith, u32, sub32, ==_refl,
}
use abel_os.PmmInit.{KernelImage}
use abel_os.Vmm.{
  n_entries, flag_kernel, kernel_page_idx, swap_page_idx, is_present, AddrSpace, directory_idx,
  read_pte, write_pde, write_pte, clear_ptes, core_data, arch_vmm_init, alloc_page_table,
}
use abel_os.Vmm.Translate.{read_pte-write_pte, p_dir-write_pte, is_present-flags}

read_pte-clear_ptes :
    (i left j : ℕ) (a : AddrSpace) (k l : ℕ)
    → read_pte (clear_ptes i left j a) k l
      ≡ (if k == i && (leb j l && ltb l (j + left)) then 0 else read_pte a k l)
unfolding clear_ptes
read_pte-clear_ptes i zero j a k l = ground arith
read_pte-clear_ptes i (suc left) j a k l = ground (
  arith,
  read_pte-clear_ptes i left (j + 1) (write_pte i j 0 a) k l,
  read_pte-write_pte i j 0 a k l,
)

p_dir-clear_ptes :
    (i left j : ℕ) (a : AddrSpace) (k : ℕ)
    → i ≢ directory_idx
    → (clear_ptes i left j a).p_dir k ≡ a.p_dir k
unfolding clear_ptes
p_dir-clear_ptes i zero j a k h = refl
p_dir-clear_ptes i (suc left) j a k h =
    p_dir-clear_ptes i left (j + 1) (write_pte i j 0 a) k h ∙ p_dir-write_pte i j 0 a k h

read_pte-write_pde :
    (j v : ℕ) (a : AddrSpace) (k l : ℕ)
    → k ≢ directory_idx
    → read_pte (write_pde j v a) k l ≡ read_pte a k l
unfolding read_pte
read_pte-write_pde j v a k l h = let other : (k == directory_idx) ≡ false = ground arith in rw other

-- Where a directory entry below the directory's own is not in use, `arch_vmm_alloc_page_table` puts a
-- present one there, and the new table has null entries only, whatever the page held; all other tables stay.
pub alloc_page_table-lem :
    (p pdi : ℕ) (a : AddrSpace) (i j : ℕ)
    → is_present (a.p_dir pdi) ≡ false
    → pdi ≢ directory_idx
    → i ≢ directory_idx
    → j < n_entries
    → (is_present ((alloc_page_table p pdi a).p_dir pdi) ≡ true)
      × (read_pte (alloc_page_table p pdi a) i j ≡ (if i == pdi then 0 else read_pte a i j))
unfolding alloc_page_table
alloc_page_table-lem p pdi a i j absent hp hi hj =
    let a' = write_pde pdi (bit_or p flag_kernel) a in
    let kept = read_pte-write_pde pdi (bit_or p flag_kernel) a i j hi in
    (
      rw absent
          (rw (p_dir-clear_ptes pdi n_entries 0 a' pdi hp) (rw (==_refl pdi) (is_present-flags p))),
      rw absent (ground (arith, read_pte-clear_ptes pdi n_entries 0 a' i j, kept)),
    )

-- For a kernel image that ends below 4 GiB less a page, `arch_vmm_init` leaves the swap table empty
-- and the kernel's table with the pages of the image only, and every other table as it was; in the
-- directory it removes the identity mapping, enters the swap table, and changes nothing else.
pub arch_vmm_init-lem :
    (k : KernelImage) (a : AddrSpace) (i j : ℕ)
    → k.start ≤ k.finish
    → k.finish + 4096 ≤ 2 ^ 32
    → i ≢ directory_idx
    → j < n_entries
    → (read_pte (arch_vmm_init k a) i j ≡ (
        if i == swap_page_idx
          || (i == kernel_page_idx && leb ((k.finish - k.start + 4095) / 4096) j)
        then 0
        else read_pte a i j))
      × ((arch_vmm_init k a).p_dir j ≡ (
          if j == swap_page_idx
          then bit_or (bit_and (core_data k).k_swap_page_table_addr 0xffff_f000) flag_kernel
          else if j == 0
          then 0
          else a.p_dir j))
unfolding arch_vmm_init
arch_vmm_init-lem k a i j order low hi hj =
    let pages = u32 (sub32 k.finish k.start + 4096 - 1) / 4096 in
    let same : pages ≡ (k.finish - k.start + 4095) / 4096 = omega arith in
    let swap = bit_or (bit_and (core_data k).k_swap_page_table_addr 0xffff_f000) flag_kernel in
    let mapped = write_pde swap_page_idx swap (write_pde 0 0 a) in
    let emptied = clear_ptes swap_page_idx n_entries 0 mapped in
    (
      ground (
        arith,
        same,
        read_pte-clear_ptes kernel_page_idx (n_entries - pages) pages emptied i j,
        read_pte-clear_ptes swap_page_idx n_entries 0 mapped i j,
        read_pte-write_pde swap_page_idx swap (write_pde 0 0 a) i j hi,
        read_pte-write_pde 0 0 a i j hi,
      ),
      p_dir-clear_ptes kernel_page_idx (n_entries - pages) pages emptied j (omega arith)
          ∙ p_dir-clear_ptes swap_page_idx n_entries 0 mapped j (omega arith),
    )
