-- ===== src/Fat/Checks.antt =====
-- The single checks of probe of core/filesystems/fat.cpp: the size of a sector, the sectors of a cluster, and the type.
use juice_os_kernel.Prelude.{
  ℕ, ◌^◌, ◌≤◌, ◌<◌, ◌≡◌, refl, ◌≢◌, ◌⊎◌, inl, inr, true, not, ◌&&◌, ◌||◌, some, arith, ltb, ◌==◌,
  if◌then◌else◌, ℕ_discrete, all_below, all_below-at,
}
use juice_os_kernel.Fat.Layout.{FatType, fat12, fat16, fat32, exfat}
use juice_os_kernel.Fat.Probe.{is_power_of_two, is_valid_sector_size, fat_type_of}

-- The numbers of clusters that stand for a type, as Microsoft's description of FAT has them, and the root directory of FAT32, which is no area of its own.
abbrev pub FitsType : FatType → (clusters root_dir_sectors : ℕ) → Type 0
FitsType fat12 clusters root_dir_sectors = (0 < clusters) × (clusters < 4085)
FitsType fat16 clusters root_dir_sectors = (4085 ≤ clusters) × (clusters < 65525)
FitsType fat32 clusters root_dir_sectors = (65525 ≤ clusters) × (root_dir_sectors ≡ 0)
FitsType exfat clusters root_dir_sectors = ⊥

abbrev pub IsSectorSize : ℕ → Type 0
IsSectorSize size = (size ≡ 512) ⊎ ((size ≡ 1024) ⊎ ((size ≡ 2048) ⊎ (size ≡ 4096)))

pub fat_type_of-FitsType :
    (clusters roots : ℕ) (type : FatType)
    → fat_type_of clusters roots ≡ some type
    → type ≢ exfat
    → FitsType type clusters roots
unfolding fat_type_of
fat_type_of-FitsType clusters roots fat12 e n = ground arith
fat_type_of-FitsType clusters roots fat16 e n = ground arith
fat_type_of-FitsType clusters roots fat32 e n = ground arith
fat_type_of-FitsType clusters roots exfat e n = n refl

pub is_valid_sector_size-IsSectorSize :
    (size : ℕ) → is_valid_sector_size size ≡ true → IsSectorSize size
unfolding is_valid_sector_size
is_valid_sector_size-IsSectorSize size e = elim (ℕ_discrete size 512) [
  | yes a ↦ inl a
  | no a ↦ elim (ℕ_discrete size 1024) [
    | yes b ↦ inr (inl b)
    | no b ↦ elim (ℕ_discrete size 2048) [
      | yes c ↦ inr (inr (inl c))
      | no c ↦ inr (inr (inr (ground arith)))
    ]
  ]
]

-- The powers of two among the bytes, by their exponents.
exponent_of : ℕ → ℕ
exponent_of n =
    if ltb n 2
    then 0
    else if ltb n 4
    then 1
    else if ltb n 8
    then 2
    else if ltb n 16
    then 3
    else if ltb n 32
    then 4
    else if ltb n 64
    then 5
    else if ltb n 128
    then 6
    else 7

power_table :
    all_below 256
      (λ n. not (is_power_of_two n) || ((n == 2 ^ exponent_of n) && ltb (exponent_of n) 8))
    ≡ true
unfolding all_below is_power_of_two exponent_of
power_table = refl

pub is_power_of_two-pow :
    (n : ℕ) → n < 256 → is_power_of_two n ≡ true → (k : ℕ) × (k < 8) × (n ≡ 2 ^ k)
is_power_of_two-pow n h e =
    let t =
      all_below-at
        (λ (m : ℕ). not (is_power_of_two m) || ((m == 2 ^ exponent_of m) && ltb (exponent_of m) 8))
        n 256 h power_table in
    let (a, b) = rest (rw e at t) in (exponent_of n, b, a)
  where
    rest :
        ((n == 2 ^ exponent_of n) && ltb (exponent_of n) 8) ≡ true
        → (n ≡ 2 ^ exponent_of n) × (exponent_of n < 8)
    rest q = ground arith
