-- ===== src/Elf/Load/Heap.antt =====
-- Where `load` of elf/src/lib.rs places the heap: above every segment, with a page between.
use cyanos.Mm.Mmu.{Mmu}
