-- ===== src/MemoryManager/Mapping.antt =====
-- paging_map of core/mmanager.cpp: the mapping that it makes.
use juice_os_kernel.Prelude.{
  ℕ, ◌+◌, ◌-◌, ◌*◌, ◌/◌, ◌%◌, ◌^◌, ◌≤◌, ◌<◌, ◌≡◌, refl, ap, ◌∙◌, ◌⊎◌, inl, inr, true, false, ◌&&◌,
  Option, some, arith, ltb, leb, ◌==◌, Bool-cases,
}
use juice_os_kernel.BitmapAllocator.Defs.{alloc, divide_round_up}
use juice_os_kernel.MemoryManager.Defs.{
  DirectoryEntry, PageTable, MemoryManager, cleared, update, Outcome, done, page_fault, walk,
  translate, is_mapped, reaches, add_page_table, with_table, map_present, paging_map,
}
use juice_os_kernel.MemoryManager.Entries.{
  mapped, map_entries-clear, map_entries-done, MapsIn, paging_map-MapsIn,
}

walk-mapped :
    (e : DirectoryEntry) (tables : ℕ → PageTable) (large : Option ℕ) (index offset page : ℕ)
    → e.present ≡ true
    → e.four_mb_pages ≡ false
    → tables e.address index ≡ mapped page
    → walk e tables large index offset ≡ some (page % 2 ^ 20 * 4096 + offset)
walk-mapped e tables large index offset page p s m = rw (p, s, m)

pub MapsIn-entry :
    (addr count : ℕ) (mm mm' : MemoryManager)
    → MapsIn addr count mm mm'
    → (i : ℕ) → i < count
    → mm'.tables (mm'.directory (addr / 2 ^ 22 % 1024)).address (addr / 4096 % 1024 + i)
      ≡ mapped (addr / 2 ^ 12 + i)
MapsIn-entry addr count mm mm' h i hi =
    let index : ℕ = addr / 4096 % 1024 in
    let run = map_entries-done count index (addr / 2 ^ 12) _ h.table h.ran (index + i) in
    let k : index + i - index ≡ i = omega arith in
    let l : (leb index (index + i) && ltb (index + i) (index + count)) ≡ true = ground arith in
    rw h.result (at (mm.directory (addr / 2 ^ 22 % 1024)).address ∙ run ∙ rw (l, k))
  where
    at :
        (a : ℕ)
        → update mm.tables a h.table a (addr / 4096 % 1024 + i) ≡ h.table (addr / 4096 % 1024 + i)
    at a = let s : (a == a) ≡ true = ground arith in rw s

-- After a successful `paging_map` in a part of memory that is not under a 4 MB page, each byte of
-- the pages that it was given is mapped to itself.
pub translate-paging_map :
    (addr count : ℕ) (mm mm' : MemoryManager) (i o : ℕ)
    → addr % 4096 ≡ 0
    → addr < 2 ^ 32
    → i < count
    → o < 4096
    → paging_map addr count mm ≡ done mm'
    → (mm'.directory (addr / 2 ^ 22 % 1024)).four_mb_pages ≡ false
    → translate mm' (addr + i * 4096 + o) ≡ some (addr + i * 4096 + o)
unfolding translate
translate-paging_map addr count mm mm' i o al lt hi ho e small =
    let (mm₀, p, h) = paging_map-MapsIn addr count mm mm' e small in
    let room = h.room in
    let x : ℕ = addr + i * 4096 + o in
    let index : ℕ = addr / 4096 % 1024 in
    let d : x / 2 ^ 22 % 1024 ≡ addr / 2 ^ 22 % 1024 = omega arith in
    let j : x / 4096 % 1024 ≡ index + i = omega arith in
    let off : x % 4096 ≡ o = omega arith in
    let t = mm'.tables (mm'.directory (addr / 2 ^ 22 % 1024)).address (index + i) in
    let dirs : mm'.directory ≡ mm₀.directory = ap (λ (m : MemoryManager). m.directory) h.result in
    let present : (mm'.directory (addr / 2 ^ 22 % 1024)).present ≡ true = rw dirs p in
    let entry : t ≡ mapped (addr / 2 ^ 12 + i) = MapsIn-entry addr count mm₀ mm' h i hi in
    rw (d, j, off)
      (walk-mapped (mm'.directory (addr / 2 ^ 22 % 1024)) mm'.tables _ (index + i) o
          (addr / 2 ^ 12 + i) present small entry
        ∙ ap some (omega arith))

with_table-map :
    (mm : MemoryManager) (count page : ℕ) (t : Outcome PageTable) (table : PageTable)
    → reaches count page mm ≡ true
    → t ≡ done table
    → with_table mm count page t ≡ done (record mm { tables = update mm.tables page table })
with_table-map mm count page t table r e = rw (r, e)

map_present-done :
    (addr count : ℕ) (mm : MemoryManager)
    → (mm.directory (addr / 2 ^ 22 % 1024)).four_mb_pages ≡ false
    → count < 1024 - addr / 4096 % 1024
    → reaches count (mm.directory (addr / 2 ^ 22 % 1024)).address mm ≡ true
    → ((j : ℕ)
        → addr / 4096 % 1024 ≤ j
        → j < addr / 4096 % 1024 + count
        → (mm.tables (mm.directory (addr / 2 ^ 22 % 1024)).address j).present ≡ false)
    → (mm' : MemoryManager) × (map_present addr count mm ≡ done mm')
unfolding map_present
map_present-done addr count mm small lt r clear =
    let page = (mm.directory (addr / 2 ^ 22 % 1024)).address in
    let (t, e, _) =
      map_entries-clear count (addr / 4096 % 1024) (addr / 2 ^ 12) (mm.tables page) clear in
    let l : ltb count (1024 - addr / 4096 % 1024) ≡ true = ground arith in
    (
      record mm { tables = update mm.tables page t },
      rw (small, l) (with_table-map mm count page _ t r e),
    )

-- The page that the page allocator gives for a page table.
abbrev pub new_page_table : MemoryManager → ℕ
new_page_table mm = (alloc (divide_round_up 4096 4096) mm.page_allocator).0

-- The page lies under a 4 MB page.
abbrev pub IsUnderLarge : MemoryManager → ℕ → Type 0
IsUnderLarge mm page =
    ((mm.directory (page / 2 ^ 22 % 1024)).present ≡ true)
    × ((mm.directory (page / 2 ^ 22 % 1024)).four_mb_pages ≡ true)

-- The directory entry of `addr` names nothing yet, and the page for its table is under a 4 MB page
-- or not mapped; or it names a page table that is mapped and of which the entries for `count`
-- pages are not present.
abbrev pub CanMap : (addr count : ℕ) → MemoryManager → Type 0
CanMap addr count mm =
    (((mm.directory (addr / 2 ^ 22 % 1024)).present ≡ false)
      × (IsUnderLarge mm (new_page_table mm) ⊎ (is_mapped mm (new_page_table mm) ≡ false)))
    ⊎ (((mm.directory (addr / 2 ^ 22 % 1024)).present ≡ true)
        × ((mm.directory (addr / 2 ^ 22 % 1024)).four_mb_pages ≡ false)
        × (is_mapped mm ((mm.directory (addr / 2 ^ 22 % 1024)).address * 4096) ≡ true)
        × ((j : ℕ)
            → addr / 4096 % 1024 ≤ j
            → j < addr / 4096 % 1024 + count
            → (mm.tables (mm.directory (addr / 2 ^ 22 % 1024)).address j).present ≡ false))

IsUnderLarge-is_mapped :
    (mm : MemoryManager) (page : ℕ) → IsUnderLarge mm page → is_mapped mm page ≡ true
unfolding is_mapped translate
IsUnderLarge-is_mapped mm page (p, l) = rw (p, l)

-- The state behind `add_page_table`, in which the new table can be filled in.
record HasNewTable (d : ℕ) (mm mm' : MemoryManager) : Type 0 where
  added : add_page_table d mm ≡ done mm'
  small : (mm'.directory d).four_mb_pages ≡ false
  mapped_table : is_mapped mm' ((mm'.directory d).address * 4096) ≡ true
  clear : (j : ℕ) → (mm'.tables (mm'.directory d).address j).present ≡ false

abbrev with_new_table : ℕ → MemoryManager → MemoryManager
with_new_table d mm = record {
  directory = update mm.directory d (record {
    present = true;
    writable = true;
    usermode_accessable = false;
    four_mb_pages = false;
    address = new_page_table mm / 2 ^ 12;
  });
  tables = update mm.tables (new_page_table mm / 2 ^ 12) (λ _. cleared);
  page_allocator = (alloc (divide_round_up 4096 4096) mm.page_allocator).1;
}

add_page_table-HasNewTable :
    (d : ℕ) (mm : MemoryManager)
    → (mm.directory d).present ≡ false
    → IsUnderLarge mm (new_page_table mm)
    → (mm' : MemoryManager) × HasNewTable d mm mm'
unfolding add_page_table
add_page_table-HasNewTable d mm absent u =
    let a = new_page_table mm in
    let m = IsUnderLarge-is_mapped mm a u in
    let same : (d == d) ≡ true = ground arith in
    let page : (a / 2 ^ 12 == a / 2 ^ 12) ≡ true = ground arith in
    let other : (a / 2 ^ 22 % 1024 == d) ≡ false = elim (Bool-cases (a / 2 ^ 22 % 1024 == d)) [
      | inl e ↦ absurd (differ (ground arith) u.0)
      | inr e ↦ e
    ] in
    let index : a / 2 ^ 12 * 4096 / 2 ^ 22 % 1024 ≡ a / 2 ^ 22 % 1024 = omega arith in
    (
      with_new_table d mm,
      record {
        added = rw m refl;
        small = rw same refl;
        mapped_table = rw same (
            IsUnderLarge-is_mapped (with_new_table d mm) (a / 2 ^ 12 * 4096) (rw (index, other) u));
        clear = λ j. rw (same, page) refl;
      },
    )
  where
    differ :
        new_page_table mm / 2 ^ 22 % 1024 ≡ d
        → (mm.directory (new_page_table mm / 2 ^ 22 % 1024)).present ≡ true
        → ⊥
    differ e p = let q : (mm.directory d).present ≡ true = rw e at p in cc

-- `paging_map` of pages that end before the last entry of a page table, where that table is mapped
-- and has no entry in use among those that are needed, or is new and its page lies under a 4 MB
-- page or is not mapped: it succeeds where the table is there already or the page for it is mapped, and
-- stops with a page fault where the table is new and its page is not mapped.
pub paging_map-done_or_fault :
    (addr count : ℕ) (mm : MemoryManager)
    → count < 1024 - addr / 4096 % 1024
    → CanMap addr count mm
    → ((((mm.directory (addr / 2 ^ 22 % 1024)).present ≡ true)
          ⊎ (is_mapped mm (new_page_table mm) ≡ true))
        × ((mm' : MemoryManager) × (paging_map addr count mm ≡ done mm')))
      ⊎ (((mm.directory (addr / 2 ^ 22 % 1024)).present ≡ false)
          × (is_mapped mm (new_page_table mm) ≡ false)
          × (paging_map addr count mm ≡ page_fault))
unfolding paging_map
paging_map-done_or_fault addr count mm lt (inl (absent, inl u)) =
    let d = addr / 2 ^ 22 % 1024 in
    let (mm₁, h) = add_page_table-HasNewTable d mm absent u in
    let m = h.mapped_table in
    let r : reaches count (mm₁.directory d).address mm₁ ≡ true = unfold reaches in ground arith in
    let (mm', e) = map_present-done addr count mm₁ h.small lt r (λ j le lt'. h.clear j) in
    inl (inr (IsUnderLarge-is_mapped mm _ u), (mm', rw (absent, h.added) e))
paging_map-done_or_fault addr count mm lt (inl (absent, inr m)) =
    let f : add_page_table (addr / 2 ^ 22 % 1024) mm ≡ page_fault =
      unfold add_page_table in rw m refl in
    inr (absent, m, rw (absent, f) refl)
paging_map-done_or_fault addr count mm lt (inr (p, small, m, clear)) =
    let d = addr / 2 ^ 22 % 1024 in
    let r : reaches count (mm.directory d).address mm ≡ true = unfold reaches in ground arith in
    let (mm', e) = map_present-done addr count mm small lt r clear in inl (inl p, (mm', rw p e))
