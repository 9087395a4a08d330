-- ===== src/Storage/Paths.antt =====
-- normalize_path of core/drivers/storage.cpp.
use juice_os_kernel.Prelude.{
  ℕ, zero, suc, ◌+◌, ◌-◌, min, Bool, not, ◌&&◌, ◌||◌, Option, none, some, List, [], ◌∷◌, ◌==◌,
  if◌then◌else◌, length, get_or, set, drop,
}
use juice_os_kernel.Text.Defs.{strlcpy}

unfoldable pub behind_slashes : List ℕ → List ℕ
behind_slashes [] = []
behind_slashes (ch ∷ path) =
    let rest = behind_slashes path in if ch == b'/' then rest else ch ∷ path

unfoldable pub segment_size : List ℕ → ℕ
segment_size [] = 0
segment_size (ch ∷ path) = let rest = segment_size path in if ch == b'/' then 0 else suc rest

-- The slash in front of a segment, unless the output ends with one: the output, its index, and the
-- rest of the path.
unfoldable pub copy_slash :
    (path out_path : List ℕ) → (out_idx max_out_path_len : ℕ) → List ℕ × (ℕ × List ℕ)
copy_slash [] out_path out_idx max_out_path_len = (out_path, (out_idx, []))
copy_slash (ch ∷ path) out_path out_idx max_out_path_len =
    let (copied, n) = strlcpy (b'/' ∷ []) out_idx (max_out_path_len - out_idx) out_path in
    if (ch == b'/') && ((out_idx == 0) || not (get_or out_path (out_idx - 1) 0 == b'/'))
    then (copied, (out_idx + n, path))
    else (out_path, (out_idx, ch ∷ path))

-- One step back from a slash; `none` is a step in front of the output.
unfoldable pub before_slash : (out_path : List ℕ) → (out_idx : ℕ) → Option ℕ
before_slash out_path zero = if get_or out_path 0 0 == b'/' then none else some 0
before_slash out_path (suc i) = if get_or out_path (suc i) 0 == b'/' then some i else some (suc i)

unfoldable pub back_to_slash : (out_path : List ℕ) → (out_idx : ℕ) → ℕ
back_to_slash out_path zero = 0
back_to_slash out_path (suc i) =
    let rest = back_to_slash out_path i in if get_or out_path (suc i) 0 == b'/' then suc i else rest

-- The index for `..`: behind the text in front of the segment before.
unfoldable pub parent_idx : (out_path : List ℕ) → (out_idx : ℕ) → Option ℕ
parent_idx out_path out_idx = elim (before_slash out_path out_idx) [
  | none ↦ none
  | some i ↦ elim (before_slash out_path (back_to_slash out_path i)) [
    | none ↦ none
    | some k ↦ some (back_to_slash out_path k)
  ]
]

abbrev pub is_dot : (path : List ℕ) → Bool
is_dot path = (segment_size path == 1) && (get_or path 0 0 == b'.')

abbrev pub is_dots : (path : List ℕ) → Bool
is_dots path = (segment_size path == 2) && ((get_or path 0 0 == b'.') && (get_or path 1 0 == b'.'))

-- The output and its index behind the segment at the start of `path`.
unfoldable pub copy_segment :
    (path out_path : List ℕ) → (out_idx max_out_path_len : ℕ) → Option (List ℕ × ℕ)
copy_segment path out_path out_idx max_out_path_len =
    let (copied, n) =
      strlcpy path out_idx (min (segment_size path + 1) (max_out_path_len - out_idx)) out_path in
    let climbed : Option (List ℕ × ℕ) = elim (parent_idx out_path out_idx) [
      | none ↦ none
      | some k ↦ some (set out_path k 0, k)
    ] in
    if is_dot path
    then some (out_path, out_idx)
    else if is_dots path
    then climbed
    else some (copied, out_idx + n)

-- The loop. Each round takes a character of the path at least. `none` is an access in front of the
-- output, or a loop that goes on after its rounds.
unfoldable pub normalize_loop :
    (rounds : ℕ) → (path out_path : List ℕ) → (out_idx max_out_path_len : ℕ) → Option (List ℕ × ℕ)
normalize_loop rounds [] out_path out_idx max_out_path_len = some (out_path, out_idx)
normalize_loop zero (ch ∷ path) out_path out_idx max_out_path_len = none
normalize_loop (suc n) (ch ∷ path) out_path out_idx max_out_path_len =
    let (out1, (idx1, path1)) = copy_slash (ch ∷ path) out_path out_idx max_out_path_len in
    let segment = behind_slashes path1 in
    elim (copy_segment segment out1 idx1 max_out_path_len) [
      | none ↦ none
      | some (out2, idx2) ↦
          normalize_loop n (drop (segment_size segment) segment) out2 idx2 max_out_path_len
    ]

-- The output and the index that is returned; the path is given without its terminator.
unfoldable pub normalize_path :
    (path out_path : List ℕ) → (max_out_path_len : ℕ) → Option (List ℕ × ℕ)
normalize_path path out_path max_out_path_len =
    normalize_loop (length path) path out_path 0 max_out_path_len
