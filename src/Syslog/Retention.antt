-- ===== src/Syslog/Retention.antt =====
-- The log of core/kernel.cpp keeps exactly the newest SYSLOG_LENGTH bytes.
use juice_os_kernel.Prelude.{
  ℕ, ◌+◌, ◌-◌, ◌≤◌, ◌≡◌, sym, ap, ◌∙◌, subst, Bool, true, false, List, [], ◌∷◌, ◌++◌, append-nil,
  append_assoc, arith, ltb, dec_lt, dec_le, length, take, drop, length-append, take-append-drop,
  length-take, length-drop, length-replicate,
}
use juice_os_kernel.Syslog.Tails.{last, last-append_last, last-last, last_whole, length-last}
use juice_os_kernel.Syslog.Defs.{
  Syslog, syslog_length, boot_log, clamp_portion, append_portion, log_portion, kernel_log,
  flatten_logs,
}
use juice_os_kernel.Syslog.Flattening.{
  IsValid, state, flatten-state, append-fits, append-wraps, flatten-fits, flatten-wraps,
}

-- One portion that is no longer than the log, on a state in two parts.
abbrev Keeps : List ℕ → Syslog → Syslog → Type 0
Keeps p s s' = (flatten_logs s' ≡ last syslog_length (flatten_logs s ++ p)) × IsValid s'

Keeps-append :
    (A B p : List ℕ) (w : Bool)
    → length A + length B ≡ syslog_length
    → length p ≤ syslog_length
    → Keeps p (state A B w) (append_portion p (state A B w))
Keeps-append A B p w e h = elim (dec_le (length p) (length B)) [
  | yes fits ↦ rw (append-fits A B p w e fits) (
    flatten-state (A ++ p) (drop (length p) B) w
        ∙ flatten-fits A B p w e fits
        ∙ ap (λ t. last syslog_length (t ++ p)) (sym (flatten-state A B w)),
    record {
      size = omega (
        arith,
        length-append (A ++ p) (drop (length p) B),
        length-append A p,
        length-drop (length p) B,
      );
      within = omega (arith, length-append A p);
    },
  )
  | no wraps ↦
      let q = take (length B) p in
      let r = drop (length B) p in
      let whole : q ++ r ≡ p = take-append-drop (length B) p in
      let n : length q ≡ length B = omega (arith, length-take (length B) p) in
      let k : length r ≡ length p - length B = length-drop (length B) p in
      let step = append-wraps A B q r w e n (omega arith) (omega arith) in
      subst (λ t. Keeps t (state A B w) (append_portion t (state A B w))) whole
        (rw step (
          flatten-state r (drop (length r) (A ++ q)) true
              ∙ flatten-wraps A B q r w e n (omega arith)
              ∙ ap (λ t. last syslog_length (t ++ (q ++ r))) (sym (flatten-state A B w)),
          record {
            size = omega (
              arith,
              length-append r (drop (length r) (A ++ q)),
              length-drop (length r) (A ++ q),
              length-append A q,
            );
            within = omega arith;
          },
        ))
]

-- A state is the two parts of its buffer.
state_eta :
    (s : Syslog)
    → IsValid s
    → s ≡ state (take s.write_ptr s.buffer) (drop s.write_ptr s.buffer) s.is_wrapped
state_eta s v =
    let n : s.write_ptr ≡ length (take s.write_ptr s.buffer) =
      let z = v.size in let w = v.within in omega (arith, length-take s.write_ptr s.buffer) in
    let b : s.buffer ≡ take s.write_ptr s.buffer ++ drop s.write_ptr s.buffer =
      sym (take-append-drop s.write_ptr s.buffer) in
    λ i. record { buffer = b i; write_ptr = n i; is_wrapped = s.is_wrapped }

Keeps-append_portion :
    (p : List ℕ) (s : Syslog)
    → IsValid s
    → length p ≤ syslog_length
    → Keeps p s (append_portion p s)
Keeps-append_portion p s v h =
    let n = length-take s.write_ptr s.buffer in
    let k = length-drop s.write_ptr s.buffer in
    let z = v.size in
    let w = v.within in
    subst (λ t. Keeps p t (append_portion p t)) (sym (state_eta s v))
      (Keeps-append (take s.write_ptr s.buffer) (drop s.write_ptr s.buffer) p s.is_wrapped
        (omega arith) h)

clamp_portion-last : (p : List ℕ) → clamp_portion p ≡ last syslog_length p
unfolding clamp_portion last
clamp_portion-last p = elim (dec_lt syslog_length (length p)) [
  | yes h ↦ let l : ltb syslog_length (length p) ≡ true = ground arith in rw l
  | no h ↦
      let l : ltb syslog_length (length p) ≡ false = ground arith in
      let z : length p - syslog_length ≡ 0 = omega arith in rw (l, z)
]

-- Logging a portion of any length leaves, in order, the last SYSLOG_LENGTH bytes of what was kept
-- followed by the portion, and a valid state.
pub flatten_logs-log_portion :
    (p : List ℕ) (s : Syslog)
    → IsValid s
    → (flatten_logs (log_portion p s) ≡ last syslog_length (flatten_logs s ++ p))
      × IsValid (log_portion p s)
unfolding log_portion
flatten_logs-log_portion p s v =
    let c = clamp_portion-last p in
    let (e, v') = Keeps-append_portion (clamp_portion p) s v (rw c (length-last syslog_length p)) in
    (
      e
          ∙ ap (λ t. last syslog_length (flatten_logs s ++ t)) c
          ∙ last-append_last syslog_length (flatten_logs s) p,
      v',
    )

unfoldable pub joined : List (List ℕ) → List ℕ
joined [] = []
joined (p ∷ ps) = p ++ joined ps

-- From a valid state, whatever portions are logged, the log reads as the last SYSLOG_LENGTH bytes
-- of what it held followed by all of them.
pub flatten_logs-kernel_log :
    (ps : List (List ℕ)) (s : Syslog)
    → IsValid s
    → length (flatten_logs s) ≤ syslog_length
    → flatten_logs (kernel_log ps s) ≡ last syslog_length (flatten_logs s ++ joined ps)
unfolding kernel_log joined
flatten_logs-kernel_log [] s v short = sym (
    ap (last syslog_length) (append-nil (flatten_logs s))
    ∙ last_whole syslog_length (flatten_logs s) short)
flatten_logs-kernel_log (p ∷ ps) s v short =
    let (e, v') = flatten_logs-log_portion p s v in
    flatten_logs-kernel_log ps (log_portion p s) v'
      (rw e (length-last syslog_length (flatten_logs s ++ p)))
    ∙ ap (λ t. last syslog_length (t ++ joined ps)) e
    ∙ last-last syslog_length (flatten_logs s ++ p) (joined ps)
    ∙ ap (last syslog_length) (append_assoc (flatten_logs s) p (joined ps))

-- Since the boot, the log reads as the last SYSLOG_LENGTH bytes of everything that was logged.
pub flatten_logs-since_boot :
    (ps : List (List ℕ)) → flatten_logs (kernel_log ps boot_log) ≡ last syslog_length (joined ps)
unfolding flatten_logs
flatten_logs-since_boot ps =
    flatten_logs-kernel_log ps boot_log
      (record { size = length-replicate {A = ℕ} syslog_length 0; within = omega arith })
      (omega arith)
