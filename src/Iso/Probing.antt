-- ===== src/Iso/Probing.antt =====
-- The descriptors that probe of core/filesystems/iso_9660.cpp meets.
use juice_os_kernel.Prelude.{
  ℕ, zero, suc, ◌+◌, ◌≤◌, ◌<◌, ◌≡◌, refl, ap, ◌∙◌, subst, Bool, true, false, arith, ltb, ◌==◌,
  if◌then◌else◌,
}
use juice_os_kernel.Iso.FileData.{Device, common_lba_size, read_cd_sector}
use juice_os_kernel.Iso.Layout.{
  VolumeDesc, volume_desc_of, primary_desc_volume, volume_desc_set_terminator, VolumeInfo,
  no_volume_info, set_primary_volume_desc_lba, set_root_dir_entry,
}
use juice_os_kernel.Iso.Probe.{
  found, endless, primary_volume_desc_sector, is_volume_desc, with_pvd, probe_result, probe_loop,
  probe,
}

abbrev pub desc_at : Device → (i : ℕ) → VolumeDesc
desc_at device i = volume_desc_of (read_cd_sector device (primary_volume_desc_sector + i))

-- A descriptor that is neither primary nor the last.
pub record IsOther (device : Device) (i : ℕ) : Type 0 where
  pub is_valid : is_volume_desc (desc_at device i) ≡ true
  pub is_no_terminator : ((desc_at device i).type == volume_desc_set_terminator) ≡ false
  pub is_not_primary : ((desc_at device i).type == primary_desc_volume) ≡ false

pub record IsPrimary (device : Device) (i : ℕ) : Type 0 where
  pub is_valid : is_volume_desc (desc_at device i) ≡ true
  pub is_primary : (desc_at device i).type ≡ primary_desc_volume
  pub has_common_size : (desc_at device i).logical_block_size ≡ common_lba_size

pub record IsTerminator (device : Device) (i : ℕ) : Type 0 where
  pub is_valid : is_volume_desc (desc_at device i) ≡ true
  pub is_terminator : (desc_at device i).type ≡ volume_desc_set_terminator

-- All descriptors from the place i on, so many.
abbrev pub Others : Device → (i n : ℕ) → Type 0
Others device i n = (k : ℕ) → k < n → IsOther device (i + k)

next-Others : (device : Device) (i n : ℕ) → Others device i (suc n) → Others device (i + 1) n
next-Others device i n o k h = subst (IsOther device) (omega arith) (o (suc k) (omega arith))

loop-IsOther :
    (rounds i : ℕ) (device : Device) (info : VolumeInfo)
    → i < 100
    → IsOther device i
    → probe_loop (suc rounds) device i info ≡ probe_loop rounds device (i + 1) info
unfolding probe_loop
loop-IsOther rounds i device info h o =
    let e : ltb i 100 ≡ true = ground arith in
    rw (e, o.is_valid, o.is_no_terminator, o.is_not_primary) refl

loop-Others :
    (n rounds i : ℕ) (device : Device) (info : VolumeInfo)
    → i + n ≤ 100
    → Others device i n
    → probe_loop (n + rounds) device i info ≡ probe_loop rounds device (i + n) info
loop-Others zero rounds i device info h o =
    let e : i + 0 ≡ i = omega arith in let e' : 0 + rounds ≡ rounds = omega arith in rw (e, e') refl
loop-Others (suc n) rounds i device info h o =
    let e : suc n + rounds ≡ suc (n + rounds) = omega arith in
    let e' : i + 1 + n ≡ i + suc n = omega arith in
    let here : IsOther device i = subst (IsOther device) (omega arith) (o zero (omega arith)) in
    rw
      (
        e,
        loop-IsOther (n + rounds) i device info (omega arith) here,
        loop-Others n rounds (i + 1) device info (omega arith) (next-Others device i n o),
        e',
      )
      refl

loop-IsPrimary :
    (rounds i : ℕ) (device : Device)
    → i < 100
    → IsPrimary device i
    → probe_loop (suc rounds) device i no_volume_info
      ≡ probe_loop rounds device
          (i + 1)
          (with_pvd (primary_volume_desc_sector + i) (desc_at device i) no_volume_info)
unfolding probe_loop
loop-IsPrimary rounds i device h o =
    let e : ltb i 100 ≡ true = ground arith in
    let t : ((desc_at device i).type == volume_desc_set_terminator) ≡ false =
      rw (o.is_primary) refl in
    let p : ((desc_at device i).type == primary_desc_volume) ≡ true = rw (o.is_primary) refl in
    let s : ((desc_at device i).logical_block_size == common_lba_size) ≡ true =
      rw (o.has_common_size) refl in
    rw (e, o.is_valid, t, p, s) refl

loop-IsTerminator :
    (rounds i : ℕ) (device : Device) (info : VolumeInfo)
    → i < 100
    → IsTerminator device i
    → probe_loop (suc rounds) device i info ≡ probe_result true info
unfolding probe_loop
loop-IsTerminator rounds i device info h o =
    let e : ltb i 100 ≡ true = ground arith in
    let t : ((desc_at device i).type == volume_desc_set_terminator) ≡ true =
      rw (o.is_terminator) refl in
    rw (e, o.is_valid, t) refl

chosen : {A : Type 0} {x z : A} (y : A) (b : Bool) → b ≡ true → x ≡ z → (if b then x else y) ≡ z
chosen y true e f = f
chosen y false e f = ground arith

loop_again :
    (rounds i : ℕ) (device : Device) (info : VolumeInfo)
    → i < 100
    → IsPrimary device i
    → info.has_pvd ≡ true
    → probe_loop rounds device i info ≡ endless
unfolding probe_loop
loop_again zero i device info h o v = let e : ltb i 100 ≡ true = ground arith in rw e refl
loop_again (suc rounds) i device info h o v =
    let e : ltb i 100 ≡ true = ground arith in
    let t : ((desc_at device i).type == volume_desc_set_terminator) ≡ false =
      rw (o.is_primary) refl in
    let p : ((desc_at device i).type == primary_desc_volume) ≡ true = rw (o.is_primary) refl in
    rw (e, o.is_valid, t, p) (chosen _ info.has_pvd v (loop_again rounds i device info h o v))

with_pvd-has_pvd :
    (sector : ℕ) (desc : VolumeDesc) (info : VolumeInfo)
    → (with_pvd sector desc info).has_pvd ≡ true
unfolding with_pvd set_root_dir_entry set_primary_volume_desc_lba
with_pvd-has_pvd sector desc info = refl

-- What the loop has come to behind a first primary descriptor at p and m others.
loop_behind :
    (p m rounds : ℕ) (device : Device)
    → p + 1 + m ≤ 100
    → Others device 0 p
    → IsPrimary device p
    → Others device (p + 1) m
    → probe (p + 1 + m + rounds) device
      ≡ probe_loop rounds device
          (p + 1 + m)
          (with_pvd (primary_volume_desc_sector + p) (desc_at device p) no_volume_info)
unfolding probe
loop_behind p m rounds device h before primary behind =
    let e : p + 1 + m + rounds ≡ p + suc (m + rounds) = omega arith in
    rw (e) (
      loop-Others p (suc (m + rounds)) 0 device no_volume_info (omega arith) before
      ∙ ap (λ (i : ℕ). probe_loop (suc (m + rounds)) device i no_volume_info) (omega arith)
      ∙ loop-IsPrimary (m + rounds) p device (omega arith) primary
      ∙ loop-Others m rounds (p + 1) device
          (with_pvd (primary_volume_desc_sector + p) (desc_at device p) no_volume_info) h behind)

-- On a device whose descriptors, from sector 16 on, are p others, a primary one with blocks of 2048
-- bytes, m others and the terminator, within 100, probe gives a driver with what it keeps of the
-- primary descriptor, in as many rounds as there are descriptors or more.
pub probe-found :
    (p m rounds : ℕ) (device : Device)
    → p + 1 + m < 100
    → Others device 0 p
    → IsPrimary device p
    → Others device (p + 1) m
    → IsTerminator device (p + 1 + m)
    → probe (p + 1 + m + suc rounds) device
      ≡ found (with_pvd (primary_volume_desc_sector + p) (desc_at device p) no_volume_info)
unfolding probe_result
probe-found p m rounds device h before primary behind last =
    let info = with_pvd (primary_volume_desc_sector + p) (desc_at device p) no_volume_info in
    rw
      (
        loop_behind p m (suc rounds) device (omega arith) before primary behind,
        loop-IsTerminator rounds (p + 1 + m) device info h last,
        with_pvd-has_pvd (primary_volume_desc_sector + p) (desc_at device p) no_volume_info,
      )
      refl

-- On a device with a second primary descriptor, behind p others, a primary one and m others, within
-- 100 and before a terminator, the loop of probe goes on for ever: no number of rounds is enough.
pub probe-endless :
    (p m rounds : ℕ) (device : Device)
    → p + 1 + m < 100
    → Others device 0 p
    → IsPrimary device p
    → Others device (p + 1) m
    → IsPrimary device (p + 1 + m)
    → probe (p + 1 + m + rounds) device ≡ endless
probe-endless p m rounds device h before primary behind second =
    loop_behind p m rounds device (omega arith) before primary behind
    ∙ loop_again rounds (p + 1 + m) device
        (with_pvd (primary_volume_desc_sector + p) (desc_at device p) no_volume_info) h second
        (with_pvd-has_pvd (primary_volume_desc_sector + p) (desc_at device p) no_volume_info)
