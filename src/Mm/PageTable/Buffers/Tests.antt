-- ===== src/Mm/PageTable/Buffers/Tests.antt =====
-- A buffer of ten bytes across the border of two pages.
use rcore_os.Prelude.{◌+◌, ◌*◌, ◌/◌, ◌≡◌, refl, ap, ◌∙◌, [], some, arith, dec_lt}
use rcore_os.Mm.Address.{to_phys_page_num, indexes}
use rcore_os.Mm.PageTable.{
  Memory, from_token, translate, find_pte, find_from, is_valid, pte_flags, pte_ppn,
}
use rcore_os.Mm.PageTable.Buffers.{translated_byte_buffer}
use rcore_os.Mm.PageTable.Buffers.Pages.{IsMapped}
use rcore_os.Mm.PageTable.Buffers.Whole.{Visits, translated_byte_buffer-Visits}

-- Every entry of the page `p` points to the page `p + i + 1`.
abbrev linked_pages : Memory
linked_pages = record {
  allocator = record { current = 0; end = 0; recycled = [] };
  entries = λ p i. (p + i + 1) * 1024 + 1;
}

translate_first : translate (from_token 5) linked_pages 0 ≡ some (8 * 1024 + 1)
unfolding translate find_pte find_from from_token is_valid pte_flags pte_ppn to_phys_page_num
    indexes
translate_first = refl

translate_second : translate (from_token 5) linked_pages 1 ≡ some (9 * 1024 + 1)
unfolding translate find_pte find_from from_token is_valid pte_flags pte_ppn to_phys_page_num
    indexes
translate_second = refl

linked_pages-IsMapped : IsMapped (from_token 5) linked_pages 4090 (4090 + 10)
linked_pages-IsMapped va h l = elim (dec_lt va 4096) [
  | yes first ↦
      let page : va / 4096 ≡ 0 = omega arith in
      (8 * 1024 + 1, ap (translate (from_token 5) linked_pages) page ∙ translate_first)
  | no second ↦
      let page : va / 4096 ≡ 1 = omega arith in
      (9 * 1024 + 1, ap (translate (from_token 5) linked_pages) page ∙ translate_second)
]

translated_byte_buffer-Visits_example :
    Visits (from_token 5) linked_pages 4090 10 (translated_byte_buffer 5 linked_pages 4090 10)
translated_byte_buffer-Visits_example =
    translated_byte_buffer-Visits 5 linked_pages 4090 10 (omega arith) linked_pages-IsMapped
