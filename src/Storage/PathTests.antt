-- ===== src/Storage/PathTests.antt =====
-- Runs of normalize_path of core/drivers/storage.cpp.
use juice_os_kernel.Prelude.{ℕ, ◌≡◌, refl, none, some, List, [], ◌∷◌, replicate}
use juice_os_kernel.Text.Defs.{strlcpy, strlcpy_loop, terminate}
use juice_os_kernel.Storage.Paths.{
  normalize_path, normalize_loop, copy_slash, behind_slashes, segment_size, copy_segment,
  parent_idx, before_slash, back_to_slash,
}

abbrev eight_bytes : List ℕ
eight_bytes = replicate 8 0xAA

-- "a//./b" is "a/b".
normalizes_dots :
    normalize_path (b'a' ∷ b'/' ∷ b'/' ∷ b'.' ∷ b'/' ∷ b'b' ∷ []) eight_bytes 8
    ≡ some (b'a' ∷ b'/' ∷ b'b' ∷ 0 ∷ 0xAA ∷ 0xAA ∷ 0xAA ∷ 0xAA ∷ [], 3)
unfolding normalize_path normalize_loop copy_slash behind_slashes segment_size copy_segment
    parent_idx before_slash back_to_slash strlcpy strlcpy_loop terminate
normalizes_dots = refl

-- "/a/b/.." is "/a".
normalizes_parent :
    normalize_path (b'/' ∷ b'a' ∷ b'/' ∷ b'b' ∷ b'/' ∷ b'.' ∷ b'.' ∷ []) eight_bytes 8
    ≡ some (b'/' ∷ b'a' ∷ 0 ∷ b'b' ∷ b'/' ∷ 0 ∷ 0xAA ∷ 0xAA ∷ [], 2)
unfolding normalize_path normalize_loop copy_slash behind_slashes segment_size copy_segment
    parent_idx before_slash back_to_slash strlcpy strlcpy_loop terminate
normalizes_parent = refl

-- "/.." writes in front of the output.
parent_of_root : normalize_path (b'/' ∷ b'.' ∷ b'.' ∷ []) eight_bytes 8 ≡ none
unfolding normalize_path normalize_loop copy_slash behind_slashes segment_size copy_segment
    parent_idx before_slash back_to_slash strlcpy strlcpy_loop terminate
parent_of_root = refl
