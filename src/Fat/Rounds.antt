-- ===== src/Fat/Rounds.antt =====
-- One cluster of a read of core/filesystems/fat.cpp: the reader, the copy, and the next round.
use juice_os_kernel.Prelude.{
  ℕ, suc, ◌+◌, ◌-◌, ◌*◌, ◌/◌, ◌%◌, ◌^◌, ◌≤◌, ◌<◌, ◌≡◌, refl, sym, ap, ◌∙◌, ◌≢◌, Bool, true, false,
  ◌&&◌, Option, some, List, [], ◌∷◌, ◌++◌, append-nil, append_assoc, arith, ltb, ◌==◌, length, take,
  drop, length-append, length-drop, over, set-over, length-take_le,
}
use native.Mathlib.Nat.{div-lt_iff_lt-mul}
use juice_os_kernel.Syslog.Defs.{mem_copy}
use juice_os_kernel.Fat.Layout.{FileState}
use juice_os_kernel.Fat.Clusters.{
  Fat, next_cluster, ClusterReader, read_count, cluster_bytes, advance_to, read_next,
}
use juice_os_kernel.Fat.FileData.{copy_portion, read_round, read_file_loop}
use juice_os_kernel.Fat.Files.{Walk, finished, after_read}

mem_copy-over :
    (xs written buffer : List ℕ) (at : ℕ)
    → at ≡ length written
    → at + length xs ≤ length buffer
    → mem_copy xs at (over written buffer) ≡ over (written ++ xs) buffer
unfolding mem_copy
mem_copy-over [] written buffer at e h =
    ap (λ (w : List ℕ). over w buffer) (sym (append-nil written))
mem_copy-over (x ∷ xs) written buffer at e h =
    ap (mem_copy xs (at + 1)) (set-over written buffer at x e (omega arith))
    ∙ mem_copy-over xs (written ++ (x ∷ [])) buffer (at + 1)
        (omega (arith, length-append written (x ∷ []))) (omega arith)
    ∙ ap (λ (w : List ℕ). over w buffer) (append_assoc written (x ∷ []) xs)

over_nothing : (buffer : List ℕ) → over [] buffer ≡ buffer
unfolding over
over_nothing buffer = refl

-- A copy to the front of a buffer.
mem_copy-front :
    (xs buffer : List ℕ) → length xs ≤ length buffer → mem_copy xs 0 buffer ≡ over xs buffer
mem_copy-front xs buffer h =
    ap (mem_copy xs 0) (sym (over_nothing buffer)) ∙ mem_copy-over xs [] buffer 0 refl (omega arith)

-- The bytes of a cluster of data.
abbrev pub cluster_size : Fat → ℕ
cluster_size driver = driver.volume_info.sectors_per_cluster * driver.volume_info.bytes_per_sector

abbrev pub reading : (next : ℕ) → Fat → (cluster : ℕ) → ClusterReader
reading next driver cluster = record {
  cluster = next;
  buffer = cluster_bytes driver cluster;
  read_bytes = cluster_size driver;
  has_more_data = ltb next driver.volume_info.chain_end_cluster;
}

read_next-reading :
    (driver : Fat) (reader : ClusterReader) (next : ℕ)
    → reader.cluster ≢ 0
    → next_cluster driver reader.cluster ≡ some next
    → read_next driver reader ≡ some (reading next driver reader.cluster)
read_next-reading driver reader next n f =
    let g : (reader.cluster == 0) ≡ false = ground arith in
    data_cluster g
    ∙ ap (advance_to driver reader.cluster) f
    ∙ ap
        (λ (k : ℕ). some (record (reading next driver reader.cluster) {
          read_bytes = k * driver.volume_info.bytes_per_sector;
        }))
        (counted g)
  where
    data_cluster :
        (reader.cluster == 0) ≡ false
        → read_next driver reader
          ≡ advance_to driver reader.cluster (next_cluster driver reader.cluster)
    data_cluster g = unfold read_next in rw g refl

    counted :
        (reader.cluster == 0) ≡ false
        → read_count driver reader.cluster ≡ driver.volume_info.sectors_per_cluster
    counted g = unfold read_count in rw g refl

-- One round on a cluster of which the bytes from the position on are copied.
pub read_round-over :
    (r : ClusterReader) (state : FileState) (buffer : List ℕ) (wanted portion offset : ℕ)
    → copy_portion r.read_bytes state wanted ≡ portion
    → state.position % r.read_bytes ≡ offset
    → state.position + portion < 2 ^ 32
    → offset + portion ≤ length r.buffer
    → portion ≤ length buffer
    → read_round r state buffer wanted ≡ (
      record state { position = state.position + portion },
      over (take portion (drop offset r.buffer)) buffer,
      wanted - portion,
    )
unfolding read_round
read_round-over r state buffer wanted portion offset p o small inside fits =
    let size = length-drop offset r.buffer in
    let taken = length-take_le portion (drop offset r.buffer) (omega arith) in
    let copy = mem_copy-front (take portion (drop offset r.buffer)) buffer (omega arith) in
    let moved : (state.position + portion) % 2 ^ 32 ≡ state.position + portion = omega arith in
    rw (p, o, copy, moved) refl

abbrev pub behind_round :
    (fuel : ℕ) → Fat → ClusterReader → FileState × List ℕ × ℕ → Walk (FileState × List ℕ)
behind_round fuel driver r (state, buffer, wanted) =
    elim (r.has_more_data && ltb 0 wanted) as (λ x. Walk (FileState × List ℕ)) [
      | true ↦ read_file_loop fuel driver r state buffer wanted
      | false ↦ finished (state, buffer)
    ]

pub loop_round :
    (fuel : ℕ) (driver : Fat) (reader : ClusterReader) (next : ℕ) (state : FileState)
    (buffer : List ℕ) (wanted : ℕ)
    → reader.cluster ≢ 0
    → next_cluster driver reader.cluster ≡ some next
    → read_file_loop (suc fuel) driver reader state buffer wanted
      ≡ behind_round fuel driver
          (reading next driver reader.cluster)
          (read_round (reading next driver reader.cluster) state buffer wanted)
loop_round fuel driver reader next state buffer wanted n f =
    opened
    ∙ ap
        (λ (o : Option ClusterReader).
          after_read o (λ r. behind_round fuel driver r (read_round r state buffer wanted)))
        (read_next-reading driver reader next n f)
  where
    opened :
        read_file_loop (suc fuel) driver reader state buffer wanted
        ≡ after_read
            (read_next driver reader)
            (λ r. behind_round fuel driver r (read_round r state buffer wanted))
    opened = unfold read_file_loop in refl

pub stops :
    (fuel : ℕ) (driver : Fat) (r : ClusterReader) (state : FileState) (buffer : List ℕ) (wanted : ℕ)
    → (r.has_more_data && ltb 0 wanted) ≡ false
    → behind_round fuel driver r (state, buffer, wanted) ≡ finished (state, buffer)
stops fuel driver r state buffer wanted e =
    ap
      (λ (c : Bool). elim c as (λ x. Walk (FileState × List ℕ)) [
        | true ↦ read_file_loop fuel driver r state buffer wanted
        | false ↦ finished (state, buffer)
      ])
      e

pub goes_on :
    (fuel : ℕ) (driver : Fat) (r : ClusterReader) (state : FileState) (buffer : List ℕ) (wanted : ℕ)
    → (r.has_more_data && ltb 0 wanted) ≡ true
    → behind_round fuel driver r (state, buffer, wanted)
      ≡ read_file_loop fuel driver r state buffer wanted
goes_on fuel driver r state buffer wanted e =
    ap
      (λ (c : Bool). elim c as (λ x. Walk (FileState × List ℕ)) [
        | true ↦ read_file_loop fuel driver r state buffer wanted
        | false ↦ finished (state, buffer)
      ])
      e

-- A position in the first cluster skips no cluster.
pub first_cluster_skips :
    (position bps spc : ℕ) → 0 < bps → 0 < spc → position < spc * bps → position / bps / spc ≡ 0
first_cluster_skips position bps spc b c h =
    let small = (div-lt_iff_lt-mul {k = bps} {x = position} {y = spc} b).1 h in
    let below = (div-lt_iff_lt-mul {k = spc} {x = position / bps} {y = 1} c).1 (omega arith) in
    omega arith
