-- ===== src/Heap/Rounds.antt =====
-- One round of the loop of free.
use juice_os_kernel.Prelude.{
  ℕ, suc, ◌+◌, ◌-◌, ◌^◌, ◌≤◌, ◌<◌, ◌≡◌, refl, true, false, arith, ◌==◌, if◌then◌else◌,
}
use juice_os_kernel.Heap.Defs.{
  FllAllocator, ok, entry_next, entry_size, llist_grow_up, llist_insert_before, llist_insert_after,
  extend, distance, overlaps, is_negative, free_loop,
}
use juice_os_kernel.Heap.Growing.{distance-above, distance-below}

-- Distances of places that do not overlap.
no_overlap_below :
    (x y s : ℕ) → x < y → y ≤ 2 ^ 31 → s < y - x → 0 < s → overlaps (distance x y) s ≡ false
unfolding overlaps
no_overlap_below x y s h l w p = let d = distance-below x y h l in ground arith

no_overlap_above : (x y s : ℕ) → y ≤ x → x < 2 ^ 31 → overlaps (distance x y) s ≡ false
unfolding overlaps
no_overlap_above x y s h l = let d = distance-above x y h l in ground arith

module _ (fuel : ℕ) (h : FllAllocator) (b t a s : ℕ) (z : entry_size h.memory b ≡ t) (low : 0 < b)
    (w : 0 < s) (k : 0 < t) (f : a + s ≤ 2 ^ 31) (g : b + t ≤ 2 ^ 31) where
  here : (b == 0) ≡ false
  here = ground arith

  pub free_loop-extend : b + t ≡ a → free_loop (suc fuel) a s b h ≡ ok (extend b s h)
  unfolding free_loop
  free_loop-extend e =
      let top = no_overlap_below b (a + s) s (omega arith) f (omega arith) w in
      let bottom = no_overlap_above a (b + t) s (omega arith) (omega arith) in
      let touches : (distance a (b + t) == 0) ≡ true =
        let d = distance-above a (b + t) (omega arith) (omega arith) in ground arith in
      rw (z, here, top, bottom, touches) refl

  pub free_loop-grow_up : a + s ≡ b → free_loop (suc fuel) a s b h ≡ ok (llist_grow_up b s h)
  unfolding free_loop
  free_loop-grow_up e =
      let top = no_overlap_above b (a + s) s (omega arith) (omega arith) in
      let bottom = no_overlap_below a (b + t) s (omega arith) g (omega arith) w in
      let apart : (distance a (b + t) == 0) ≡ false =
        let d = distance-below a (b + t) (omega arith) g in ground arith in
      let above : is_negative (distance b (a + s)) ≡ false =
        let d = distance-above b (a + s) (omega arith) (omega arith) in ground arith in
      let touches : (distance b (a + s) == 0) ≡ true =
        let d = distance-above b (a + s) (omega arith) (omega arith) in ground arith in
      rw (z, here, top, bottom, apart, above, touches) refl

  pub free_loop-insert_before :
      a + s < b → free_loop (suc fuel) a s b h ≡ llist_insert_before b a s h
  unfolding free_loop
  free_loop-insert_before e =
      let top = no_overlap_above b (a + s) s (omega arith) (omega arith) in
      let bottom = no_overlap_below a (b + t) s (omega arith) g (omega arith) w in
      let apart : (distance a (b + t) == 0) ≡ false =
        let d = distance-below a (b + t) (omega arith) g in ground arith in
      let above : is_negative (distance b (a + s)) ≡ false =
        let d = distance-above b (a + s) (omega arith) (omega arith) in ground arith in
      let far : (distance b (a + s) == 0) ≡ false =
        let d = distance-above b (a + s) (omega arith) (omega arith) in ground arith in
      rw (z, here, top, bottom, apart, above, far) refl

  pub free_loop-behind :
      b + t < a
      → free_loop (suc fuel) a s b h ≡ (
          if entry_next h.memory b == 0
          then llist_insert_after b a s h
          else free_loop fuel a s (entry_next h.memory b) h)
  unfolding free_loop
  free_loop-behind e =
      let top = no_overlap_below b (a + s) s (omega arith) f (omega arith) w in
      let bottom = no_overlap_above a (b + t) s (omega arith) (omega arith) in
      let apart : (distance a (b + t) == 0) ≡ false =
        let d = distance-above a (b + t) (omega arith) (omega arith) in ground arith in
      let below : is_negative (distance b (a + s)) ≡ true =
        let d = distance-below b (a + s) (omega arith) f in ground arith in
      let above : is_negative (distance a (b + t)) ≡ false =
        let d = distance-above a (b + t) (omega arith) (omega arith) in ground arith in
      rw (z, here, top, bottom, apart, below, above) refl
