-- ===== src/Iso/Listing.antt =====
-- The loops over the entries of a directory, as visits of a list.
use juice_os_kernel.Prelude.{
  ℕ, zero, suc, ◌+◌, ◌-◌, ◌*◌, ◌/◌, ◌%◌, ◌^◌, ◌≤◌, ◌<◌, ◌≡◌, refl, sym, ap, ap₂, ◌∙◌, inl, inr,
  Bool, true, false, not, ◌&&◌, Option, none, some, List, [], ◌∷◌, ◌++◌, arith, ltb, ◌==◌,
  if◌then◌else◌, Bool-cases, drop,
}
use juice_os_kernel.Text.Defs.{text_equal}
use juice_os_kernel.Text.Copies.{c_string}
use juice_os_kernel.Fat.Files.{Walk, finished, stopped, out_of_bounds, out_of_fuel}
use juice_os_kernel.Iso.FileData.{Device, read_cd_sector}
use juice_os_kernel.Iso.Layout.{record_length, filename_size, filename_start}
use juice_os_kernel.Iso.Names.{Iso9660, convert_iso9660_filename, extract_filename}
use juice_os_kernel.Iso.Directories.{
  Found, after_sector, scan_sector, scan_sectors, visit_part, resolve_path_part,
}

-- A place i is in the sector and holds an entry.
abbrev is_entry : (buffer : List ℕ) → (i : ℕ) → Bool
is_entry buffer i = ltb i 2048 && not (record_length (drop i buffer) == 0)

-- The entries of a sector from the place i on, where at most n bytes are left: each with the bytes of the sector.
abbrev pub listed_in : (n : ℕ) → (buffer : List ℕ) → (i : ℕ) → List (List ℕ × ℕ)
listed_in zero buffer i = []
listed_in (suc n) buffer i =
    let rest = listed_in n buffer (i + record_length (drop i buffer)) in
    if ltb i 2048 && not (record_length (drop i buffer) == 0) then (buffer, i) ∷ rest else []

-- The entries of so many sectors of a directory.
abbrev pub listed : (n : ℕ) → Device → (x : ℕ) → List (List ℕ × ℕ)
listed zero device x = []
listed (suc n) device x = listed_in 2048 (read_cd_sector device x) 0 ++ listed n device (x + 1)

-- What is done for each of a list of entries, up to the first that returns.
abbrev pub visit_all :
    {S : Type 0}
    → (visit : (buffer : List ℕ) → (i : ℕ) → S → Walk S) → List (List ℕ × ℕ)
    → S
    → Walk S
visit_all visit [] s = finished s
visit_all visit ((buffer, i) ∷ rest) s =
    after_sector (visit buffer i s) (λ s'. visit_all visit rest s')

after_after :
    {S : Type 0} (w : Walk S) (f g : S → Walk S)
    → after_sector (after_sector w f) g ≡ after_sector w (λ s. after_sector (f s) g)
after_after (finished s) f g = refl
after_after (stopped s) f g = refl
after_after out_of_bounds f g = refl
after_after out_of_fuel f g = refl

after_same :
    {S : Type 0} (w : Walk S) (f g : S → Walk S)
    → ((s : S) → f s ≡ g s)
    → after_sector w f ≡ after_sector w g
after_same (finished s) f g e = e s
after_same (stopped s) f g e = refl
after_same out_of_bounds f g e = refl
after_same out_of_fuel f g e = refl

module _ {S : Type 0} (visit : (buffer : List ℕ) → (i : ℕ) → S → Walk S) where
  visit_all-append :
      (xs ys : List (List ℕ × ℕ)) (s : S)
      → visit_all visit (xs ++ ys) s
        ≡ after_sector (visit_all visit xs s) (λ s'. visit_all visit ys s')
  visit_all-append [] ys s = refl
  visit_all-append ((buffer, i) ∷ xs) ys s =
      after_same (visit buffer i s) (λ s'. visit_all visit (xs ++ ys) s')
        (λ s'. after_sector (visit_all visit xs s') (λ s''. visit_all visit ys s''))
        (λ s'. visit_all-append xs ys s')
      ∙ sym (
          after_after (visit buffer i s) (λ s'. visit_all visit xs s')
            (λ s'. visit_all visit ys s'))

  scan_sector-listed_in :
      (rounds : ℕ) (buffer : List ℕ) (i : ℕ) (s : S)
      → 2048 ≤ i + rounds
      → scan_sector rounds visit buffer i s ≡ visit_all visit (listed_in rounds buffer i) s
  unfolding scan_sector
  scan_sector-listed_in zero buffer i s h = let e : ltb i 2048 ≡ false = ground arith in rw e refl
  scan_sector-listed_in (suc rounds) buffer i s h = elim (Bool-cases (is_entry buffer i)) [
    | inr e ↦ rw e refl
    | inl e ↦
        let n = record_length (drop i buffer) in
        let more : 0 < n = nonzero n (ltb i 2048) e in
        rw e (
          after_same (visit buffer i s) (λ s'. scan_sector rounds visit buffer (i + n) s')
            (λ s'. visit_all visit (listed_in rounds buffer (i + n)) s')
            (λ s'. scan_sector-listed_in rounds buffer (i + n) s' (omega arith)))
  ]
    where
      nonzero : (n : ℕ) (b : Bool) → (b && not (n == 0)) ≡ true → 0 < n
      nonzero n b e = ground arith

  scan_sectors-listed :
      (rounds : ℕ) (device : Device) (x size c : ℕ) (s : S)
      → size + 2048 ≤ 2 ^ 32
      → size ≤ (c + rounds) * 2048
      → c * 2048 < size + 2048
      → scan_sectors rounds device visit x size c s
        ≡ visit_all visit (listed ((size + 2047) / 2048 - c) device (x + c)) s
  unfolding scan_sectors
  scan_sectors-listed zero device x size c s w h b =
      let e : ltb (c * 2048 % 2 ^ 32) size ≡ false = ground arith in
      let none_left : (size + 2047) / 2048 - c ≡ 0 = omega arith in rw (e, none_left) refl
  scan_sectors-listed (suc rounds) device x size c s w h b =
      elim (Bool-cases (ltb (c * 2048 % 2 ^ 32) size)) [
        | inr e ↦
            let none_left : (size + 2047) / 2048 - c ≡ 0 = ground arith in rw (e, none_left) refl
        | inl e ↦
            let inside : c * 2048 < size = ground arith in
            let n = (size + 2047) / 2048 - (c + 1) in
            let one_more : (size + 2047) / 2048 - c ≡ suc n = omega arith in
            let place : x + (c + 1) ≡ x + c + 1 = omega arith in
            let bytes = read_cd_sector device (x + c) in
            rw (e, one_more, scan_sector-listed_in 2048 bytes 0 s (omega arith))
              (after_same (visit_all visit (listed_in 2048 bytes 0) s)
                  (λ s'. scan_sectors rounds device visit x size (c + 1) s')
                  (λ s'. visit_all visit (listed n device (x + c + 1)) s')
                  (λ s'.
                    scan_sectors-listed rounds device x size (c + 1) s' w (omega arith)
                      (omega arith)
                    ∙ ap (λ (y : ℕ). visit_all visit (listed n device y) s') place)
                ∙ sym (visit_all-append (listed_in 2048 bytes 0) (listed n device (x + c + 1)) s))
      ]

-- The name of an entry without Rock Ridge.
abbrev pub converted : (buffer : List ℕ) → (i : ℕ) → List ℕ
converted buffer i =
    c_string
      (convert_iso9660_filename (filename_start (drop i buffer)) (filename_size (drop i buffer)))

-- The first of a list of entries that has the name, if one has.
abbrev pub first_named : Iso9660 → (part : List ℕ) → List (List ℕ × ℕ) → Option Found
first_named driver part [] = none
first_named driver part ((buffer, i) ∷ entries) =
    if text_equal part (converted buffer i)
    then some (driver.temp_read_buffer + i, drop i buffer)
    else first_named driver part entries

abbrev pub searched : Option Found → Walk (Option Found)
searched none = finished none
searched (some entry) = stopped (some entry)

visit_all-visit_part :
    (fuel : ℕ) (driver : Iso9660) (part : List ℕ) (entries : List (List ℕ × ℕ))
    → driver.supports_rock_ridge ≡ false
    → visit_all (visit_part fuel driver part) entries none
      ≡ searched (first_named driver part entries)
unfolding visit_part extract_filename
visit_all-visit_part fuel driver part [] r = refl
visit_all-visit_part fuel driver part ((buffer, i) ∷ entries) r =
    rw r (elim (Bool-cases (text_equal part (converted buffer i))) [
      | inl e ↦ rw e refl
      | inr e ↦ rw e (visit_all-visit_part fuel driver part entries r)
    ])

-- On a volume without Rock Ridge, for a directory of at most 2^32 - 2048 bytes, resolve_path_part
-- ends, and gives the first entry of the directory's sectors, in order, whose converted name is the
-- part, and null if none has that name.
pub resolve_path_part-first_named :
    (fuel : ℕ) (driver : Iso9660) (x size : ℕ) (part : List ℕ)
    → driver.supports_rock_ridge ≡ false
    → size + 2048 ≤ 2 ^ 32
    → resolve_path_part fuel driver x size part
      ≡ searched (first_named driver part (listed ((size + 2047) / 2048) driver.device x))
unfolding resolve_path_part
resolve_path_part-first_named fuel driver x size part r w =
    let all : (size + 2047) / 2048 - 0 ≡ (size + 2047) / 2048 = omega arith in
    let place : x + 0 ≡ x = omega arith in
    scan_sectors-listed (visit_part fuel driver part) (size / 2048 + 1) driver.device x size 0 none
      w (omega arith) (omega arith)
    ∙ ap₂ (λ (n y : ℕ). visit_all (visit_part fuel driver part) (listed n driver.device y) none) all
        place
    ∙ visit_all-visit_part fuel driver part (listed ((size + 2047) / 2048) driver.device x) r
