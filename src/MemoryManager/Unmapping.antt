-- ===== src/MemoryManager/Unmapping.antt =====
-- paging_unmap and free_pages of core/mmanager.cpp.
use juice_os_kernel.Prelude.{
  ℕ, zero, suc, ◌+◌, ◌-◌, ◌*◌, ◌/◌, ◌%◌, ◌^◌, ◌<◌, ◌≡◌, refl, ap, subst, inl, inr, true, false,
  ◌&&◌, some, arith, leb, ltb, ◌==◌, if◌then◌else◌, ℕ_discrete, Bool-cases,
}
use juice_os_kernel.BitmapAllocator.Defs.{alloc, belongs}
use juice_os_kernel.MemoryManager.Defs.{
  DirectoryEntry, TableEntry, PageTable, MemoryManager, update, Outcome, done, failed, page_fault,
  entry_present, not_belonging, and_then, walk, is_some, translate, is_mapped, reaches,
  unmap_entries, paging_map, paging_unmap, alloc_pages, free_pages,
}
use juice_os_kernel.MemoryManager.Mapping.{MapsIn-entry}
use juice_os_kernel.MemoryManager.Entries.{MapsIn, map_entries-done, paging_map-MapsIn}

-- Entries that are present in `tables` are so in `tables'`.
abbrev Keeps : (tables tables' : ℕ → PageTable) → Type 0
Keeps tables tables' =
    (page j : ℕ) → (tables page j).present ≡ true → (tables' page j).present ≡ true

MapsIn-Keeps :
    (addr count : ℕ) (mm mm' : MemoryManager)
    → MapsIn addr count mm mm'
    → Keeps mm.tables mm'.tables
MapsIn-Keeps addr count mm mm' h page j p = rw h.result kept
  where
    table : ℕ
    table = (mm.directory (addr / 2 ^ 22 % 1024)).address

    index : ℕ
    index = addr / 4096 % 1024

    in_table : (mm.tables table j).present ≡ true → (h.table j).present ≡ true
    in_table q =
        let run = map_entries-done count index (addr / 2 ^ 12) (mm.tables table) h.table h.ran j in
        rw run (elim (Bool-cases (leb index j && ltb j (index + count))) [
          | inl e ↦ rw e refl
          | inr e ↦ rw e q
        ])

    kept : (update mm.tables table h.table page j).present ≡ true
    kept = elim (ℕ_discrete page table) [
      | yes e ↦
          let same : (page == table) ≡ true = ground arith in
          let q : (mm.tables table j).present ≡ true =
            subst (λ a. (mm.tables a j).present ≡ true) e p in
          rw same (in_table q)
      | no n ↦ let other : (page == table) ≡ false = ground arith in rw other p
    ]

walk-kept :
    (e : DirectoryEntry) (tables tables' : ℕ → PageTable) (large index offset : ℕ)
    → Keeps tables tables'
    → is_some (walk e tables (some large) index offset) ≡ true
    → is_some (walk e tables' (some large) index offset) ≡ true
walk-kept e tables tables' large index offset k h = ground (arith, k e.address index)

MapsIn-reaches :
    (addr count : ℕ) (mm mm' : MemoryManager)
    → MapsIn addr count mm mm'
    → reaches count (mm'.directory (addr / 2 ^ 22 % 1024)).address mm' ≡ true
unfolding reaches is_mapped translate
MapsIn-reaches addr count mm mm' h =
    let a = (mm.directory (addr / 2 ^ 22 % 1024)).address * 4096 in
    let e = mm.directory (a / 2 ^ 22 % 1024) in
    let dirs : mm'.directory ≡ mm.directory = ap (λ (m : MemoryManager). m.directory) h.result in
    let kept =
      walk-kept e mm.tables mm'.tables (e.address * 2 ^ 22 + a % 2 ^ 22) (a / 4096 % 1024)
        (a % 4096) (MapsIn-Keeps addr count mm mm' h) in
    rw dirs (elim (Bool-cases (count == 0)) [
      | inl z ↦ rw z refl
      | inr z ↦ rw z (kept (rw z at h.reached))
    ])

unmap_entries-present :
    (count index : ℕ) (table : PageTable)
    → 0 < count
    → (table index).present ≡ true
    → unmap_entries count index table ≡ failed entry_present
unfolding unmap_entries
unmap_entries-present zero index table pos p = absurd (omega arith)
unmap_entries-present (suc count) index table pos p = rw p

-- What `paging_map` has mapped by page tables, `paging_unmap` never unmaps: it stops at its
-- assertion on the present bit of the first entry, and at no other.
pub paging_unmap-paging_map :
    (addr count : ℕ) (mm mm' : MemoryManager)
    → 0 < count
    → paging_map addr count mm ≡ done mm'
    → (mm'.directory (addr / 2 ^ 22 % 1024)).four_mb_pages ≡ false
    → paging_unmap addr count mm' ≡ failed entry_present
unfolding paging_unmap
paging_unmap-paging_map addr count mm mm' pos e small =
    let (mm₀, p, h) = paging_map-MapsIn addr count mm mm' e small in
    let dirs : mm'.directory ≡ mm₀.directory = ap (λ (m : MemoryManager). m.directory) h.result in
    let there : (mm'.directory (addr / 2 ^ 22 % 1024)).present ≡ true = rw dirs p in
    let room = h.room in
    let fits : ltb count (1024 - addr / 4096 % 1024) ≡ true = ground arith in
    let z : addr / 4096 % 1024 + 0 ≡ addr / 4096 % 1024 = omega arith in
    let entry = MapsIn-entry addr count mm₀ mm' h 0 pos in
    let stops =
      unmap_entries-present count (addr / 4096 % 1024)
        (mm'.tables (mm'.directory (addr / 2 ^ 22 % 1024)).address) pos
        (ap (λ (t : TableEntry). t.present) (rw z at entry)) in
    rw (there, small, fits, MapsIn-reaches addr count mm₀ mm' h, stops) refl

alloc_pages-paging_map :
    (amount addr : ℕ) (mm mm' : MemoryManager)
    → alloc_pages amount mm ≡ done (addr, mm')
    → paging_map addr amount (record mm { page_allocator = (alloc amount mm.page_allocator).1 })
      ≡ done mm'
unfolding alloc_pages
alloc_pages-paging_map amount addr mm mm' e =
    let (p, q) = ended (paging_map given amount mm₁) e in
    subst (λ a. paging_map a amount mm₁ ≡ done mm') p q
  where
    given : ℕ
    given = (alloc amount mm.page_allocator).0

    mm₁ : MemoryManager
    mm₁ = record mm { page_allocator = (alloc amount mm.page_allocator).1 }

    ended :
        (o : Outcome MemoryManager)
        → and_then {B = ℕ × MemoryManager} o (λ m. done (given, m)) ≡ done (addr, mm')
        → (given ≡ addr) × (o ≡ done mm')
    ended (done m) h = (cc, cc)
    ended (failed a) h = absurd (cc)
    ended page_fault h = absurd (cc)

-- So `free_pages` of a block that `alloc_pages` has mapped by page tables always stops at an
-- assertion: that on the entry's present bit, if the block belongs to the page allocator, and that
-- on its belonging otherwise.
pub free_pages-alloc_pages :
    (amount addr : ℕ) (mm mm' : MemoryManager)
    → 0 < amount
    → alloc_pages amount mm ≡ done (addr, mm')
    → (mm'.directory (addr / 2 ^ 22 % 1024)).four_mb_pages ≡ false
    → free_pages addr amount mm'
      ≡ failed (if belongs addr mm'.page_allocator then entry_present else not_belonging)
unfolding free_pages
free_pages-alloc_pages amount addr mm mm' pos e small =
    let stops =
      paging_unmap-paging_map addr amount _ mm' pos (alloc_pages-paging_map amount addr mm mm' e)
        small in
    elim (Bool-cases (belongs addr mm'.page_allocator)) [
      | inl b ↦ rw (b, stops) refl
      | inr b ↦ rw b refl
    ]
