-- ===== src/Pmm/Tests.antt =====
-- Runs of the page allocator on a map of sixteen pages, of which page 10 is free.
use abel_os.Base.{zero, suc, ◌*◌, ◌≡◌, refl, false, [], ◌∷◌, arith}
use abel_os.Base.Bits.{testbit}
use abel_os.Pmm.{PhysicalMemoryMap, find_first_zero, find_byte, mark_used, alloc_page, free_page}
use abel_os.Pmm.Pages.{is_used, AreBytes, IsMap}
use abel_os.Pmm.Alloc.{Allocated, alloc_page-Allocated}
use abel_os.Pmm.Free.{free_page-alloc_page}

abbrev sixteen_pages : PhysicalMemoryMap
sixteen_pages = record {
  bitmap = 0xC000_0000;
  bytes = 0xff ∷ 0xdf ∷ [];
  bitmap_phy_addr = 0x500;
  bitmap_len = 2;
  n_pages = 1;
}

sixteen_pages-AreBytes : AreBytes (0xff ∷ 0xdf ∷ [])
sixteen_pages-AreBytes zero = omega arith
sixteen_pages-AreBytes (suc zero) = omega arith
sixteen_pages-AreBytes (suc (suc i)) = omega arith

sixteen_pages-IsMap : IsMap sixteen_pages
sixteen_pages-IsMap = record {
  covers = refl;
  fits = omega arith;
  are_bytes = sixteen_pages-AreBytes;
}

alloc_page_address : (alloc_page sixteen_pages).0 ≡ 10 * 4096
unfolding alloc_page find_byte find_first_zero
alloc_page_address = refl

alloc_page_bytes : (alloc_page sixteen_pages).1.bytes ≡ 0xff ∷ 0xff ∷ []
unfolding alloc_page find_byte find_first_zero mark_used
alloc_page_bytes = refl

page_10_free : is_used (0xff ∷ 0xdf ∷ []) 10 ≡ false
unfolding is_used testbit
page_10_free = refl

alloc_page_example :
    Allocated sixteen_pages (alloc_page sixteen_pages).0 (alloc_page sixteen_pages).1
alloc_page_example = alloc_page-Allocated sixteen_pages sixteen_pages-IsMap

free_page-alloc_page_example :
    free_page (alloc_page sixteen_pages).0 (alloc_page sixteen_pages).1 ≡ sixteen_pages
free_page-alloc_page_example =
    free_page-alloc_page sixteen_pages 10 sixteen_pages-IsMap page_10_free
