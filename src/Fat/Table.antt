-- ===== src/Fat/Table.antt =====
-- The file allocation table of core/filesystems/fat.cpp, entry by entry.
use juice_os_kernel.Prelude.{
  ℕ, zero, suc, ◌+◌, ◌*◌, ◌/◌, ◌%◌, ◌<◌, ◌≡◌, refl, sym, ap, ◌∙◌, some, List, [], ◌∷◌, arith, leb,
  ◌==◌, if◌then◌else◌, length, get_elem?,
}
use juice_os_kernel.Fat.Layout.{u16, u32, FatType, fat12, fat16, fat32, exfat}
use juice_os_kernel.Fat.Clusters.{Fat, within, next_in, next_cluster}

-- The bytes of a table of entries, as the formats lay them out.
abbrev pub encode_12 : List ℕ → List ℕ
encode_12 [] = []
encode_12 (a ∷ []) = a % 256 ∷ a / 256 ∷ []
encode_12 (a ∷ b ∷ entries) = a % 256 ∷ (a / 256 + b % 16 * 16) ∷ b / 16 ∷ encode_12 entries

abbrev pub encode_16 : List ℕ → List ℕ
encode_16 [] = []
encode_16 (a ∷ entries) = a % 256 ∷ a / 256 ∷ encode_16 entries

abbrev pub encode_32 : List ℕ → List ℕ
encode_32 [] = []
encode_32 (a ∷ entries) =
    a % 256 ∷ a / 0x100 % 256 ∷ a / 0x10000 % 256 ∷ a / 0x1000000 ∷ encode_32 entries

abbrev pub encode : FatType → List ℕ → List ℕ
encode fat12 entries = encode_12 entries
encode fat16 entries = encode_16 entries
encode fat32 entries = encode_32 entries
encode exfat entries = encode_32 entries

abbrev pub entry_limit : FatType → ℕ
entry_limit fat12 = 0x1000
entry_limit fat16 = 0x10000
entry_limit fat32 = 0x10000000
entry_limit exfat = 0x10000000

abbrev pub AllBelow : ℕ → List ℕ → Type 0
AllBelow limit [] = Unit {0}
AllBelow limit (a ∷ entries) = (a < limit) × AllBelow limit entries

-- Behind the first byte, every read moves on by one.
within-cons :
    (x : ℕ) (fat : List ℕ) (i size v : ℕ) → within (x ∷ fat) (suc i) size v ≡ within fat i size v
within-cons x fat i size v =
    let e : leb (suc i + size) (suc (length fat)) ≡ leb (i + size) (length fat) = ground arith in
    rw e refl

u16-cons : (x : ℕ) (fat : List ℕ) (i : ℕ) → u16 (x ∷ fat) (suc i) ≡ u16 fat i
unfolding u16
u16-cons x fat i = let e : suc i + 1 ≡ suc (i + 1) = omega arith in rw e refl

u32-cons : (x : ℕ) (fat : List ℕ) (i : ℕ) → u32 (x ∷ fat) (suc i) ≡ u32 fat i
unfolding u32
u32-cons x fat i =
    let e : suc i + 1 ≡ suc (i + 1) = omega arith in
    let f : suc i + 2 ≡ suc (i + 2) = omega arith in
    let g : suc i + 3 ≡ suc (i + 3) = omega arith in rw (e, f, g) refl

next_in_12 :
    (fat : List ℕ) (cluster index : ℕ)
    → cluster + cluster / 2 ≡ index
    → next_in fat12 fat cluster
      ≡ within fat index 2 (if cluster % 2 == 1 then u16 fat index / 16 else u16 fat index % 0x1000)
unfolding next_in
next_in_12 fat cluster index e = rw e refl

shift_12 :
    (x y z : ℕ) (fat : List ℕ) (c : ℕ)
    → next_in fat12 (x ∷ y ∷ z ∷ fat) (suc (suc c)) ≡ next_in fat12 fat c
shift_12 x y z fat c =
    let i = c + c / 2 in
    let odd : suc (suc c) % 2 ≡ c % 2 = omega arith in
    let u =
      u16-cons x (y ∷ z ∷ fat) (suc (suc i)) ∙ u16-cons y (z ∷ fat) (suc i) ∙ u16-cons z fat i in
    let w = λ (v : ℕ).
      within-cons x (y ∷ z ∷ fat) (suc (suc i)) 2 v
      ∙ within-cons y (z ∷ fat) (suc i) 2 v
      ∙ within-cons z fat i 2 v in
    next_in_12 (x ∷ y ∷ z ∷ fat) (suc (suc c)) (suc (suc (suc i))) (omega arith)
    ∙ rw (odd, u) (w (if c % 2 == 1 then u16 fat i / 16 else u16 fat i % 0x1000))
    ∙ sym (next_in_12 fat c i refl)

next_in-encode_12 :
    (entries : List ℕ) (cluster v : ℕ)
    → AllBelow 0x1000 entries
    → get_elem? entries cluster ≡ some v
    → next_in fat12 (encode_12 entries) cluster ≡ some v
unfolding next_in u16
next_in-encode_12 [] cluster v h e = absurd (cc)
next_in-encode_12 (a ∷ []) zero v h e = ground arith
next_in-encode_12 (a ∷ []) (suc c) v h e = absurd (cc)
next_in-encode_12 (a ∷ b ∷ entries) zero v h e = ground arith
next_in-encode_12 (a ∷ b ∷ entries) (suc zero) v h e = ground arith
next_in-encode_12 (a ∷ b ∷ entries) (suc (suc c)) v (h, (k, l)) e =
    shift_12 (a % 256) (a / 256 + b % 16 * 16) (b / 16) (encode_12 entries) c
    ∙ next_in-encode_12 entries c v l e

shift_16 :
    (x y : ℕ) (fat : List ℕ) (c : ℕ) → next_in fat16 (x ∷ y ∷ fat) (suc c) ≡ next_in fat16 fat c
unfolding next_in
shift_16 x y fat c =
    let i = 2 * c in
    let f : 2 * suc c ≡ suc (suc i) = omega arith in
    rw (f, u16-cons x (y ∷ fat) (suc i), u16-cons y fat i)
      (within-cons x (y ∷ fat) (suc i) 2 (u16 fat i) ∙ within-cons y fat i 2 (u16 fat i))

next_in-encode_16 :
    (entries : List ℕ) (cluster v : ℕ)
    → AllBelow 0x10000 entries
    → get_elem? entries cluster ≡ some v
    → next_in fat16 (encode_16 entries) cluster ≡ some v
unfolding next_in u16
next_in-encode_16 [] cluster v h e = absurd (cc)
next_in-encode_16 (a ∷ entries) zero v h e = ground arith
next_in-encode_16 (a ∷ entries) (suc c) v (h, l) e =
    shift_16 (a % 256) (a / 256) (encode_16 entries) c ∙ next_in-encode_16 entries c v l e

shift_32 :
    (x y z w : ℕ) (fat : List ℕ) (c : ℕ)
    → next_in fat32 (x ∷ y ∷ z ∷ w ∷ fat) (suc c) ≡ next_in fat32 fat c
unfolding next_in
shift_32 x y z w fat c =
    let i = 4 * c in
    let v = u32 fat i % 0x10000000 in
    let f : 4 * suc c ≡ suc (suc (suc (suc i))) = omega arith in
    let u =
      u32-cons x (y ∷ z ∷ w ∷ fat) (suc (suc (suc i)))
      ∙ u32-cons y (z ∷ w ∷ fat) (suc (suc i))
      ∙ u32-cons z (w ∷ fat) (suc i)
      ∙ u32-cons w fat i in
    rw (f, u)
      (within-cons x (y ∷ z ∷ w ∷ fat) (suc (suc (suc i))) 4 v
        ∙ within-cons y (z ∷ w ∷ fat) (suc (suc i)) 4 v
        ∙ within-cons z (w ∷ fat) (suc i) 4 v
        ∙ within-cons w fat i 4 v)

next_in-encode_32 :
    (entries : List ℕ) (cluster v : ℕ)
    → AllBelow 0x10000000 entries
    → get_elem? entries cluster ≡ some v
    → next_in fat32 (encode_32 entries) cluster ≡ some v
unfolding next_in u32
next_in-encode_32 [] cluster v h e = absurd (cc)
next_in-encode_32 (a ∷ entries) zero v h e = ground arith
next_in-encode_32 (a ∷ entries) (suc c) v (h, l) e =
    shift_32 (a % 256) (a / 0x100 % 256) (a / 0x10000 % 256) (a / 0x1000000) (encode_32 entries) c
    ∙ next_in-encode_32 entries c v l e

next_in-encode :
    (type : FatType) (entries : List ℕ) (cluster v : ℕ)
    → AllBelow (entry_limit type) entries
    → get_elem? entries cluster ≡ some v
    → next_in type (encode type entries) cluster ≡ some v
next_in-encode fat12 entries cluster v h e = next_in-encode_12 entries cluster v h e
next_in-encode fat16 entries cluster v h e = next_in-encode_16 entries cluster v h e
next_in-encode fat32 entries cluster v h e = next_in-encode_32 entries cluster v h e
next_in-encode exfat entries cluster v h e =
    unfold next_in in next_in-encode_32 entries cluster v h e

-- In a table that holds entries of the volume's width, packed as the type of the volume packs
-- them, next_cluster reads the entry of its cluster.
pub next_cluster-encode :
    (driver : Fat) (entries : List ℕ) (cluster v : ℕ)
    → driver.loaded_fat ≡ encode driver.volume_info.type entries
    → AllBelow (entry_limit driver.volume_info.type) entries
    → get_elem? entries cluster ≡ some v
    → next_cluster driver cluster ≡ some v
unfolding next_cluster
next_cluster-encode driver entries cluster v f h e =
    ap (λ (fat : List ℕ). next_in driver.volume_info.type fat cluster) f
    ∙ next_in-encode driver.volume_info.type entries cluster v h e
