-- ===== src/Iso/Contents.antt =====
-- What read_file of core/filesystems/iso_9660.cpp copies.
use juice_os_kernel.Prelude.{
  ℕ, zero, suc, ◌+◌, ◌-◌, ◌*◌, ◌/◌, ◌%◌, ◌^◌, ◌≤◌, ◌<◌, min, ◌≡◌, refl, sym, ap, ap₂, ◌∙◌, inl, inr,
  false, ◌&&◌, Option, some, List, [], ◌∷◌, ◌++◌, append-nil, append_assoc, arith, ltb, Bool-cases,
  length, take, drop, length-drop, take-add, take-append, drop-drop,
}
use juice_os_kernel.Fat.Layout.{FileState}
use juice_os_kernel.Iso.FileData.{
  Device, read_cd_sector, left_in_file, copy_portion_size, read_file_loop, read_file,
}

-- The bytes of so many sectors from `x` on.
abbrev pub sectors : Device → (x n : ℕ) → List ℕ
sectors device x zero = []
sectors device x (suc n) = read_cd_sector device x ++ sectors device (x + 1) n

-- Every read of a sector of the CD gives its 2048 bytes.
abbrev pub IsCd : Device → Type 0
IsCd device = (x : ℕ) → length (read_cd_sector device x) ≡ 2048

drop_all : (xs ys : List ℕ) (k : ℕ) → drop (length xs + k) (xs ++ ys) ≡ drop k ys
drop_all [] ys k = let e : 0 + k ≡ k = omega arith in rw e refl
drop_all (x ∷ xs) ys k =
    let e : suc (length xs) + k ≡ suc (length xs + k) = omega arith in rw e (drop_all xs ys k)

drop_part : (xs ys : List ℕ) (k : ℕ) → k ≤ length xs → drop k (xs ++ ys) ≡ drop k xs ++ ys
drop_part xs ys zero h = refl
drop_part [] ys (suc k) h = ground arith
drop_part (x ∷ xs) ys (suc k) h = drop_part xs ys k (omega arith)

-- The sectors from a place on begin with the rest of the sector of that place.
drop-sectors :
    (device : Device)
    → IsCd device
    → (q r x n : ℕ) → r < 2048
    → q < n
    → drop (q * 2048 + r) (sectors device x n)
      ≡ drop r (read_cd_sector device (x + q)) ++ sectors device (x + q + 1) (n - q - 1)
drop-sectors device cd q r x zero h k = ground arith
drop-sectors device cd zero r x (suc n) h k =
    let e : zero * 2048 + r ≡ r = omega arith in
    let e' : suc n - zero - 1 ≡ n = omega arith in
    let e0 : x + zero ≡ x = omega arith in
    rw (e, e', e0)
      (drop_part (read_cd_sector device x) (sectors device (x + 1) n) r (omega (arith, cd x)))
drop-sectors device cd (suc q) r x (suc n) h k =
    let e : suc q * 2048 + r ≡ length (read_cd_sector device x) + (q * 2048 + r) =
      omega (arith, cd x) in
    let e1 : x + suc q ≡ x + 1 + q = omega arith in
    let e2 : suc n - suc q - 1 ≡ n - q - 1 = omega arith in
    rw (e, e1, e2)
      (drop_all (read_cd_sector device x) (sectors device (x + 1) n) (q * 2048 + r)
        ∙ drop-sectors device cd q r (x + 1) n h (omega arith))

-- A portion that lies in one sector.
portion :
    (device : Device)
    → IsCd device
    → (x n position k : ℕ) → position / 2048 < n
    → k + position % 2048 ≤ 2048
    → take k (drop (position % 2048) (read_cd_sector device (x + position / 2048)))
      ≡ take k (drop position (sectors device x n))
portion device cd x n position k h l =
    let q = position / 2048 in
    let r = position % 2048 in
    let e : q * 2048 + r ≡ position = omega arith in
    let d = drop-sectors device cd q r x n (omega arith) h in
    let bytes = read_cd_sector device (x + q) in
    let room : k ≤ length (drop r bytes) = omega (arith, length-drop r bytes, cd (x + q)) in
    sym (take-append k (drop r bytes) (sectors device (x + q + 1) (n - q - 1)) room)
    ∙ ap (take k) (sym d ∙ ap (λ (i : ℕ). drop i (sectors device x n)) e)

abbrev moved : (k : ℕ) → FileState → FileState
moved k state = record state { position = state.position + k }

-- What a loop gives that has k bytes to copy.
abbrev result : Device → FileState → (n k : ℕ) → (copied : List ℕ) → Option (FileState × List ℕ)
result device state n k copied =
    some (moved k state, copied ++ take k (drop state.position (sectors device state.inode n)))

nothing_left :
    (device : Device) (state : FileState) (n k : ℕ) (copied : List ℕ)
    → k ≡ 0
    → some (state, copied) ≡ result device state n k copied
nothing_left device state n k copied e =
    let same : state.position ≡ state.position + 0 = omega arith in
    rw e (
      ap₂ (λ (p : ℕ) (c : List ℕ). some (record state { position = p }, c)) same
        (sym (append-nil copied)))

-- A portion, and the rest of the bytes.
one_more :
    (device : Device) (state : FileState) (n k m : ℕ) (copied part : List ℕ)
    → part ≡ take k (drop state.position (sectors device state.inode n))
    → result device (moved k state) n m (copied ++ part) ≡ result device state n (k + m) copied
one_more device state n k m copied part e =
    let bytes = sectors device state.inode n in
    let place : state.position + k + m ≡ state.position + (k + m) = omega arith in
    let joined : (copied ++ part) ++ take m (drop (state.position + k) bytes)
        ≡ copied ++ take (k + m) (drop state.position bytes) =
      append_assoc copied part (take m (drop (state.position + k) bytes))
      ∙ ap₂ (λ (x y : List ℕ). copied ++ (x ++ take m y)) e (drop-drop state.position k bytes)
      ∙ ap (copied ++◌) (sym (take-add k m (drop state.position bytes))) in
    ap₂ (λ (p : ℕ) (c : List ℕ). some (record state { position = p }, c)) place joined

loop_ends :
    (rounds : ℕ) (device : Device) (state : FileState) (wanted : ℕ) (copied : List ℕ)
    → (ltb 0 wanted && ltb 0 (left_in_file state)) ≡ false
    → read_file_loop rounds device state wanted copied ≡ some (state, copied)
unfolding read_file_loop
loop_ends zero device state wanted copied e = rw e refl
loop_ends (suc rounds) device state wanted copied e = rw e refl

read_file_loop-sectors :
    (rounds : ℕ) (device : Device)
    → IsCd device
    → (state : FileState) (wanted n : ℕ) (copied : List ℕ) → state.position ≤ state.size
    → state.size < 2 ^ 32
    → state.size ≤ n * 2048
    → wanted ≤ rounds
    → read_file_loop rounds device state wanted copied
      ≡ result device state n (min wanted (state.size - state.position)) copied
unfolding read_file_loop copy_portion_size
read_file_loop-sectors zero device cd state wanted n copied p w s f =
    loop_ends zero device state wanted copied (ground arith)
    ∙ nothing_left device state n (min wanted (state.size - state.position)) copied (omega arith)
read_file_loop-sectors (suc rounds) device cd state wanted n copied p w s f =
    let left : left_in_file state ≡ state.size - state.position = left_lem state p w in
    elim (Bool-cases (ltb 0 wanted && ltb 0 (left_in_file state))) [
      | inr e ↦
          let none_left : min wanted (state.size - state.position) ≡ 0 = ground arith in
          loop_ends (suc rounds) device state wanted copied e
          ∙ nothing_left device state n (min wanted (state.size - state.position)) copied none_left
      | inl e ↦
          let some_left : (0 < wanted) × (0 < state.size - state.position) = ground arith in
          let (wanted_some, size_some) = some_left in
          let k = min (min (state.size - state.position) (2048 - state.position % 2048)) wanted in
          let portion_eq : min (min (left_in_file state) (2048 - state.position % 2048)) wanted
              ≡ k =
            rw left refl in
          let part = portion device cd state.inode n state.position k (omega arith) (omega arith) in
          let m = min (wanted - k) (state.size - (state.position + k)) in
          let sum : k + m ≡ min wanted (state.size - state.position) = omega arith in
          rw (e, portion_eq)
            (read_file_loop-sectors rounds device cd (moved k state) (wanted - k) n
                (copied
                  ++ take k (
                      drop (state.position % 2048)
                        (read_cd_sector device (state.inode + state.position / 2048))))
                (omega arith) w s (omega arith)
              ∙ one_more device state n k m copied
                  (take k (
                    drop (state.position % 2048)
                      (read_cd_sector device (state.inode + state.position / 2048))))
                  part
              ∙ ap (λ (x : ℕ). result device state n x copied) sum)
    ]
  where
    left_lem :
        (state : FileState)
        → state.position ≤ state.size
        → state.size < 2 ^ 32
        → left_in_file state ≡ state.size - state.position
    left_lem state p w = unfold left_in_file in omega arith

-- From a device that gives 2048 bytes for each sector of the CD, read_file ends with as many bytes
-- as are wanted, or as the file has from its position on, moves the position on by them, and they
-- are the bytes at that position of the file's sectors, in order.
pub read_file-sectors :
    (device : Device)
    → IsCd device
    → (state : FileState) (wanted n : ℕ) → state.position ≤ state.size
    → state.size < 2 ^ 32
    → state.size ≤ n * 2048
    → read_file device state wanted
      ≡ some (
        record state { position = state.position + min wanted (state.size - state.position) },
        take
            (min wanted (state.size - state.position))
            (drop state.position (sectors device state.inode n)),
      )
unfolding read_file
read_file-sectors device cd state wanted n p w s =
    read_file_loop-sectors wanted device cd state wanted n [] p w s (omega arith)
