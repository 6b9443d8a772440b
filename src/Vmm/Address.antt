-- ===== src/Vmm/Address.antt =====
-- The macros of os/include/arch/x86/vmm/types.h that take an address apart, as divisions.
use abel_os.Base.{ℕ, ◌*◌, ◌/◌, ◌%◌, ◌^◌, ◌<◌, ◌≡◌, ◌∙◌, ap, bit_and, bit_or, arith}
use abel_os.Base.Bits.{bit_or-lt}
use abel_os.Base.Masks.{bit_and_page, bit_and_pti, bit_and_pdi, bit_or_page}
use abel_os.Vmm.{flag_kernel, addr_to_pdi, addr_to_pti}

pub addr_to_pdi_lem : (v : ℕ) → addr_to_pdi v ≡ v / 2 ^ 22 % 1024
unfolding addr_to_pdi
addr_to_pdi_lem v = bit_and_pdi v

pub addr_to_pti_lem : (v : ℕ) → addr_to_pti v ≡ v / 4096 % 1024
unfolding addr_to_pti
addr_to_pti_lem v = bit_and_pti v

-- The page that an entry names, whatever the low bits of the address that was put there.
pub page_of_entry :
    (p : ℕ) → p < 2 ^ 32 → bit_and (bit_or p flag_kernel) 0xffff_f000 ≡ p / 4096 * 4096
page_of_entry p h =
    bit_and_page (bit_or p flag_kernel) (bit_or-lt 32 p flag_kernel h (omega arith))
    ∙ ap (λ q. q * 4096) (bit_or_page p)
