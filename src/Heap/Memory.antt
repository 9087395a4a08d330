-- ===== src/Heap/Memory.antt =====
-- Words in a memory of bytes.
use juice_os_kernel.Prelude.{
  ℕ, ◌+◌, ◌*◌, ◌/◌, ◌%◌, ◌^◌, ◌≤◌, ◌<◌, ◌≡◌, refl, ◌⊎◌, inl, inr, arith, ◌==◌, if◌then◌else◌,
}

-- Memory is a byte for each address; a word has its lowest byte first.
abbrev pub Memory : Type 0
Memory = ℕ → ℕ

unfoldable pub read_word : Memory → ℕ → ℕ
read_word m a = m a + 0x100 * m (a + 1) + 0x10000 * m (a + 2) + 0x1000000 * m (a + 3)

unfoldable pub write_word : (address value : ℕ) → Memory → Memory
write_word address value m a =
    if a == address
    then value % 0x100
    else if a == address + 1
    then value / 0x100 % 0x100
    else if a == address + 2
    then value / 0x10000 % 0x100
    else if a == address + 3
    then value / 0x1000000 % 0x100
    else m a

pub write_word-other :
    (address value : ℕ) (m : Memory) (a : ℕ)
    → (a < address) ⊎ (address + 4 ≤ a)
    → write_word address value m a ≡ m a
unfolding write_word
write_word-other address value m a h = ground arith

pub read_word-write_word :
    (address value : ℕ) (m : Memory)
    → value < 2 ^ 32
    → read_word (write_word address value m) address ≡ value
unfolding read_word write_word
read_word-write_word address value m h = ground arith

-- A word that shares no byte with the one that is written.
pub read_word-write_word_other :
    (address value : ℕ) (m : Memory) (a : ℕ)
    → (a + 4 ≤ address) ⊎ (address + 4 ≤ a)
    → read_word (write_word address value m) a ≡ read_word m a
unfolding read_word
read_word-write_word_other address value m a (inl h) =
    rw
      (
        write_word-other address value m a (inl (omega arith)),
        write_word-other address value m (a + 1) (inl (omega arith)),
        write_word-other address value m (a + 2) (inl (omega arith)),
        write_word-other address value m (a + 3) (inl (omega arith)),
      )
      refl
read_word-write_word_other address value m a (inr h) =
    rw
      (
        write_word-other address value m a (inr (omega arith)),
        write_word-other address value m (a + 1) (inr (omega arith)),
        write_word-other address value m (a + 2) (inr (omega arith)),
        write_word-other address value m (a + 3) (inr (omega arith)),
      )
      refl
