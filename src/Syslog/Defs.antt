-- ===== src/Syslog/Defs.antt =====
-- The log's state, and the functions that write and flatten it, of core/kernel.cpp.
use juice_os_kernel.Prelude.{
  ℕ, ◌+◌, ◌-◌, Bool, true, false, List, [], ◌∷◌, ◌++◌, ltb, if◌then◌else◌, length, set, take, drop,
  replicate,
}

abbrev pub syslog_length : ℕ
syslog_length = 2048

-- `syslog_buffer`, `syslog_writePtr` and `syslog_isWrapped`.
pub record Syslog : Type 0 where
  pub buffer : List ℕ
  pub write_ptr : ℕ
  pub is_wrapped : Bool

abbrev pub boot_log : Syslog
boot_log = record { buffer = replicate syslog_length 0; write_ptr = 0; is_wrapped = false }

-- `mem_copy` of the bytes of a list to index `i` of a buffer.
unfoldable pub mem_copy : List ℕ → (i : ℕ) → List ℕ → List ℕ
mem_copy [] i buffer = buffer
mem_copy (x ∷ xs) i buffer = mem_copy xs (i + 1) (set buffer i x)

-- The clamp of a portion that is longer than the log: its end is kept.
unfoldable pub clamp_portion : List ℕ → List ℕ
clamp_portion portion =
    if ltb syslog_length (length portion)
    then drop (length portion - syslog_length) portion
    else portion

-- The consumer that `kernel_log` hands to `vsprintf`, behind the clamp.
unfoldable pub append_portion : List ℕ → Syslog → Syslog
append_portion portion s =
    let excess = s.write_ptr + length portion - syslog_length in
    let first_portion_length = length portion - excess in
    let first = mem_copy (take first_portion_length portion) s.write_ptr s.buffer in
    if ltb 0 excess
    then record {
      buffer = mem_copy (drop first_portion_length portion) 0 first;
      write_ptr = excess;
      is_wrapped = true;
    }
    else record s { buffer = first; write_ptr = s.write_ptr + first_portion_length }

unfoldable pub log_portion : List ℕ → Syslog → Syslog
log_portion portion s = append_portion (clamp_portion portion) s

-- The portions of one or more calls of `kernel_log`, in order.
unfoldable pub kernel_log : List (List ℕ) → Syslog → Syslog
kernel_log [] s = s
kernel_log (portion ∷ rest) s = kernel_log rest (log_portion portion s)

-- The text that `flatten_logs` leaves in `flatBuffer`, before its terminator.
unfoldable pub flatten_logs : Syslog → List ℕ
flatten_logs s =
    if s.is_wrapped
    then drop s.write_ptr s.buffer ++ take s.write_ptr s.buffer
    else take s.write_ptr s.buffer
