-- ===== src/MemoryManager/Entries.antt =====
-- The table entries that paging_map of core/mmanager.cpp writes.
use juice_os_kernel.Prelude.{
  ℕ, zero, suc, ◌+◌, ◌-◌, ◌/◌, ◌%◌, ◌^◌, ◌≤◌, ◌<◌, ◌≡◌, refl, sym, ap, ◌∙◌, subst, inl, inr, true,
  false, ◌&&◌, arith, ltb, leb, if◌then◌else◌, dec_lt, ℕ_discrete, Bool-cases,
}
use juice_os_kernel.BitmapAllocator.Defs.{alloc, divide_round_up}
use juice_os_kernel.MemoryManager.Defs.{
  TableEntry, PageTable, MemoryManager, update, Outcome, done, failed, page_fault, entry_present,
  no_space, and_then, is_mapped, reaches, add_page_table, map_entries, with_table, map_present,
  paging_map,
}

-- The entry that maps a page of memory for the kernel.
abbrev pub mapped : ℕ → TableEntry
mapped page = record {
  present = true;
  read_write = true;
  user_mode = false;
  address = page % 2 ^ 20;
}

-- What a run of `map_entries` makes of a table.
abbrev pub MapsRun : (count index page : ℕ) → PageTable → PageTable → Type 0
MapsRun count index page table table' =
    (j : ℕ)
    → table' j
      ≡ (if leb index j && ltb j (index + count) then mapped (page + (j - index)) else table j)

MapsRun-zero : (index page : ℕ) (table : PageTable) → MapsRun 0 index page table table
MapsRun-zero index page table j = let e : index + 0 ≡ index = omega arith in rw e (ground arith)

MapsRun-suc :
    (count index page : ℕ) (table table' : PageTable)
    → MapsRun count (index + 1) (page + 1) (update table index (mapped page)) table'
    → MapsRun (suc count) index page table table'
MapsRun-suc count index page table table' h j = h j ∙ elim (ℕ_discrete j index) [
  | yes e ↦ let z : page + (j - index) ≡ page = omega arith in rw z (ground arith)
  | no ne ↦ elim (dec_lt j index) [
    | yes lt ↦ ground arith
    | no ge ↦
        let s : page + 1 + (j - (index + 1)) ≡ page + (j - index) = omega arith in
        rw s (ground arith)
  ]
]

-- The run succeeds on entries that are not present, and maps them.
pub map_entries-clear :
    (count index page : ℕ) (table : PageTable)
    → ((j : ℕ) → index ≤ j → j < index + count → (table j).present ≡ false)
    → (table' : PageTable) × (map_entries count index page table ≡ done table')
      × MapsRun count index page table table'
unfolding map_entries
map_entries-clear zero index page table clear = (table, refl, MapsRun-zero index page table)
map_entries-clear (suc count) index page table clear =
    let (table', e, h) =
      map_entries-clear count (index + 1) (page + 1) (update table index (mapped page))
        (λ j le lt. let c = clear j (omega arith) (omega arith) in ground arith) in
    let c = clear index (omega arith) (omega arith) in
    (table', rw c e, MapsRun-suc count index page table table' h)

-- A run that succeeds has mapped its entries, which were not present.
pub map_entries-done :
    (count index page : ℕ) (table table' : PageTable)
    → map_entries count index page table ≡ done table'
    → MapsRun count index page table table'
unfolding map_entries
map_entries-done zero index page table table' e =
    let s : table ≡ table' = cc in
    subst (MapsRun 0 index page table) s (MapsRun-zero index page table)
map_entries-done (suc count) index page table table' e = elim (Bool-cases (table index).present) [
  | inl p ↦ absurd (failed-ne-done table' (rw p at e))
  | inr n ↦ MapsRun-suc count index page table table' (
      map_entries-done count (index + 1) (page + 1) (update table index (mapped page)) table'
        (rw n at e))
]
  where
    failed-ne-done :
        (t : PageTable) → ◌≡◌ {A = Outcome PageTable} (failed entry_present) (done t) → ⊥
    failed-ne-done t h = cc

-- `paging_map` works on a directory entry that is present.
paging_map-present :
    (addr count : ℕ) (mm mm' : MemoryManager)
    → paging_map addr count mm ≡ done mm'
    → (mm₀ : MemoryManager) × (map_present addr count mm₀ ≡ done mm')
      × ((mm₀.directory (addr / 2 ^ 22 % 1024)).present ≡ true)
unfolding paging_map add_page_table
paging_map-present addr count mm mm' e =
    let d = addr / 2 ^ 22 % 1024 in
    elim (Bool-cases (mm.directory d).present) [
      | inl p ↦ (mm, rw p at e, p)
      | inr n ↦
          elim (Bool-cases (is_mapped mm (alloc (divide_round_up 4096 4096) mm.page_allocator).0)) [
            | inl m ↦ (_, rw (n, m) at e, ground arith)
            | inr m ↦ absurd (fault-ne-done (rw (n, m) at e))
          ]
    ]
  where
    fault-ne-done : ◌≡◌ {A = Outcome MemoryManager} page_fault (done mm') → ⊥
    fault-ne-done h = cc

-- What `map_present` does where the directory entry names a page table.
pub record MapsIn (addr count : ℕ) (mm mm' : MemoryManager) : Type 0 where
  pub table : PageTable
  pub room : count < 1024 - addr / 4096 % 1024
  pub reached : reaches count (mm.directory (addr / 2 ^ 22 % 1024)).address mm ≡ true
  pub ran :
      map_entries count
        (addr / 4096 % 1024)
        (addr / 2 ^ 12)
        (mm.tables (mm.directory (addr / 2 ^ 22 % 1024)).address)
      ≡ done table
  pub result :
      mm'
      ≡ record mm { tables = update mm.tables (mm.directory (addr / 2 ^ 22 % 1024)).address table }

with_table-done :
    (mm mm' : MemoryManager) (count page : ℕ) (t : Outcome PageTable)
    → with_table mm count page t ≡ done mm'
    → (table : PageTable) × (reaches count page mm ≡ true)
      × (t ≡ done table)
      × (mm' ≡ record mm { tables = update mm.tables page table })
with_table-done mm mm' count page t e = elim (Bool-cases (reaches count page mm)) [
  | inl r ↦ let (table, p, q) = ended t (rw r at e) in (table, r, p, q)
  | inr r ↦ absurd (fault-ne-done (rw r at e))
]
  where
    fault-ne-done : ◌≡◌ {A = Outcome MemoryManager} page_fault (done mm') → ⊥
    fault-ne-done h = cc

    ended :
        (o : Outcome PageTable)
        → and_then o (λ table. done (record mm { tables = update mm.tables page table })) ≡ done mm'
        → (table : PageTable) × (o ≡ done table)
          × (mm' ≡ record mm { tables = update mm.tables page table })
    ended (done table) h = (table, refl, cc)
    ended (failed assertion) h = absurd (cc)
    ended page_fault h = absurd (cc)

map_present-MapsIn :
    (addr count : ℕ) (mm mm' : MemoryManager)
    → (mm.directory (addr / 2 ^ 22 % 1024)).four_mb_pages ≡ false
    → map_present addr count mm ≡ done mm'
    → MapsIn addr count mm mm'
unfolding map_present
map_present-MapsIn addr count mm mm' small e = elim (dec_lt count (1024 - addr / 4096 % 1024)) [
  | yes lt ↦
      let l : ltb count (1024 - addr / 4096 % 1024) ≡ true = ground arith in
      let (t, k, r, s) = with_table-done mm mm' _ _ _ (rw (small, l) at e) in
      record { table = t; room = lt; reached = k; ran = r; result = s }
  | no ge ↦
      let l : ltb count (1024 - addr / 4096 % 1024) ≡ false = ground arith in
      absurd (failed-ne-done (rw (small, l) at e))
]
  where
    failed-ne-done : ◌≡◌ {A = Outcome MemoryManager} (failed no_space) (done mm') → ⊥
    failed-ne-done h = cc

map_present-directory :
    (addr count : ℕ) (mm mm' : MemoryManager)
    → map_present addr count mm ≡ done mm'
    → mm'.directory ≡ mm.directory
unfolding map_present
map_present-directory addr count mm mm' e =
    elim (Bool-cases (mm.directory (addr / 2 ^ 22 % 1024)).four_mb_pages) [
      | inl large ↦ ap (λ (m : MemoryManager). m.directory) (done-same (sym (rw large at e)))
      | inr small ↦
          let h = map_present-MapsIn addr count mm mm' small e in
          ap (λ (m : MemoryManager). m.directory) h.result
    ]
  where
    done-same : {x y : MemoryManager} → done x ≡ done y → x ≡ y
    done-same h = cc

-- The state that `map_present` was called in, for a successful `paging_map` of small pages.
pub paging_map-MapsIn :
    (addr count : ℕ) (mm mm' : MemoryManager)
    → paging_map addr count mm ≡ done mm'
    → (mm'.directory (addr / 2 ^ 22 % 1024)).four_mb_pages ≡ false
    → (mm₀ : MemoryManager) × ((mm₀.directory (addr / 2 ^ 22 % 1024)).present ≡ true)
      × MapsIn addr count mm₀ mm'
paging_map-MapsIn addr count mm mm' e small =
    let (mm₀, same, p) = paging_map-present addr count mm mm' e in
    let k = map_present-directory addr count mm₀ mm' same in
    (mm₀, p, map_present-MapsIn addr count mm₀ mm' (rw k at small) same)
