-- ===== src/Pmm/Examples.antt =====
-- A small page allocator for the tests of the modules that take pages from it.
use emyx.Base.{◌≡◌, refl, true, [], ◌∷◌, arith}
use emyx.Pmm.{Pmm, bitmap_test}
use emyx.Pmm.Bitmap.{used, clear_count}
use emyx.Pmm.Invariant.{IsValid}

-- Twelve pages of which 0, 1, 2, 3 and 8 to 11 are taken.
abbrev pub pages : Pmm
pages = record {
  bitmap = 0x0F ∷ 0x0F ∷ [];
  bitmap_bytes = 2;
  max_page = 12;
  total_pages = 12;
  free_pages = 4;
}

pub pages-IsValid : IsValid pages
unfolding used clear_count bitmap_test
pages-IsValid = record {
  counts = record {
    bytes = omega arith;
    size = refl;
    covers = omega arith;
    limit = omega arith;
    counted = refl;
  };
  zero_taken = refl;
  some_pages = omega arith;
}

pub page_two : used pages.bitmap 2 ≡ true
unfolding used bitmap_test
page_two = refl
