-- ===== src/Fat/Chains.antt =====
-- Directories that are chains of clusters.
use juice_os_kernel.Prelude.{
  ℕ, zero, suc, ◌*◌, ◌/◌, ◌≤◌, ◌<◌, ◌≡◌, refl, ◌∙◌, ◌≢◌, Bool, true, false, some, List, [], ◌∷◌,
  map, arith, ltb, ◌==◌, length,
}
use juice_os_kernel.Fat.Entries.{EntryParser}
use juice_os_kernel.Fat.Clusters.{
  Fat, next_cluster, ClusterReader, read_count, cluster_bytes, read_next, as_dir, DirEntry, Scanned,
  scanned, returned, outside, scan_entries,
}
use juice_os_kernel.Fat.Files.{Walk, finished, dir_entries, after_scan, walk}

-- The clusters of a chain, from one of them to the end that the table marks. Cluster 0 stands for
-- the root directory before the data, which is a chain of its own.
pub data Chain (driver : Fat) : ℕ → List ℕ → Type 0 where
  root : Chain driver 0 (0 ∷ [])
  last :
      {cluster : ℕ} (next : ℕ)
      → cluster ≢ 0
      → next_cluster driver cluster ≡ some next
      → driver.volume_info.chain_end_cluster ≤ next
      → Chain driver cluster (cluster ∷ [])
  more :
      {cluster next : ℕ} {clusters : List ℕ}
      → cluster ≢ 0
      → next_cluster driver cluster ≡ some next
      → next < driver.volume_info.chain_end_cluster
      → Chain driver next clusters
      → Chain driver cluster (cluster ∷ clusters)

-- The entries of the clusters of a directory.
abbrev pub entries_of : Fat → (cluster : ℕ) → List (List ℕ)
entries_of driver cluster =
    as_dir (read_count driver cluster * driver.volume_info.bytes_per_sector / 32)
      (cluster_bytes driver cluster)

-- The clusters scanned one after the other.
unfoldable pub scan_clusters :
    {S : Type 0}
    → (visit : DirEntry → S → S × Bool) → List (List (List ℕ))
    → (filename_buff : List ℕ) → EntryParser
    → S
    → Walk S
scan_clusters visit [] filename_buff parser s = finished s
scan_clusters visit (entries ∷ clusters) filename_buff parser s =
    after_scan (scan_entries visit entries filename_buff parser s)
      (λ s' filename_buff' parser'. scan_clusters visit clusters filename_buff' parser' s')

read_next-root :
    (driver : Fat) (reader : ClusterReader)
    → reader.cluster ≡ 0
    → (r : ClusterReader) × (read_next driver reader ≡ some r)
      × ((dir_entries r ≡ entries_of driver 0) × (r.has_more_data ≡ false))
unfolding read_next
read_next-root driver reader e = (
  record {
    cluster = 0;
    buffer = cluster_bytes driver 0;
    read_bytes = read_count driver 0 * driver.volume_info.bytes_per_sector;
    has_more_data = false;
  },
  rw e refl,
  (refl, refl),
)

read_next-some :
    (driver : Fat) (reader : ClusterReader) (cluster next : ℕ)
    → reader.cluster ≡ cluster
    → cluster ≢ 0
    → next_cluster driver cluster ≡ some next
    → (r : ClusterReader) × (read_next driver reader ≡ some r)
      × ((dir_entries r ≡ entries_of driver cluster)
          × (r.has_more_data ≡ ltb next driver.volume_info.chain_end_cluster)
          × (r.cluster ≡ next))
unfolding read_next
read_next-some driver reader cluster next e n f =
    let g : (cluster == 0) ≡ false = ground arith in
    (
      record {
        cluster = next;
        buffer = cluster_bytes driver cluster;
        read_bytes = read_count driver cluster * driver.volume_info.bytes_per_sector;
        has_more_data = ltb next driver.volume_info.chain_end_cluster;
      },
      rw (e, g, f) refl,
      (refl, refl, refl),
    )

after_scan_cong :
    {S : Type 0} (r : Scanned S) (k l : S → List ℕ → EntryParser → Walk S)
    → ((s : S) (b : List ℕ) (p : EntryParser) → k s b p ≡ l s b p)
    → after_scan r k ≡ after_scan r l
after_scan_cong outside k l h = refl
after_scan_cong (returned s) k l h = refl
after_scan_cong (scanned s b p) k l h = h s b p

-- Along a chain, a walk that is given as many rounds as there are clusters comes to its end, and
-- is the scan of the clusters' entries one after the other.
pub walk-scan_clusters :
    {S : Type 0} {driver : Fat} {cluster : ℕ} {clusters : List ℕ}
    (chain : Chain driver cluster clusters) (visit : DirEntry → S → S × Bool) (fuel : ℕ)
    (reader : ClusterReader) (filename_buff : List ℕ) (parser : EntryParser) (s : S)
    → length clusters ≤ fuel
    → reader.cluster ≡ cluster
    → walk fuel driver visit reader filename_buff parser s
      ≡ scan_clusters visit (map (entries_of driver) clusters) filename_buff parser s
unfolding walk scan_clusters
walk-scan_clusters root visit zero reader filename_buff parser s h e = elim h [ ]
walk-scan_clusters {driver = driver} root visit (suc fuel) reader filename_buff parser s h e =
    let (r, f, (d, m)) = read_next-root driver reader e in rw (f, d, m) refl
walk-scan_clusters (last next n g k) visit zero reader filename_buff parser s h e = elim h [ ]
walk-scan_clusters {driver = driver} {cluster = cluster} (last next n g k) visit (suc fuel) reader
      filename_buff parser s h e =
    let (r, f, (d, m, c)) = read_next-some driver reader cluster next e n g in
    let ended : r.has_more_data ≡ false = m ∙ ground arith in rw (f, d, ended) refl
walk-scan_clusters (more n g k chain) visit zero reader filename_buff parser s h e = elim h [ ]
walk-scan_clusters {driver = driver} {cluster = cluster}
      (more {next = next} {clusters = clusters} n g k chain) visit (suc fuel) reader filename_buff
      parser s h e =
    let (r, f, (d, m, c)) = read_next-some driver reader cluster next e n g in
    let goes_on : r.has_more_data ≡ true = m ∙ ground arith in
    rw (f, goes_on, d)
      (after_scan_cong (scan_entries visit (entries_of driver cluster) filename_buff parser s) _ _
        (λ s' b p. walk-scan_clusters chain visit fuel r b p s' (omega arith) c))
