-- ===== src/Syslog/Tests.antt =====
-- Runs of the log, and its theorems at concrete logs.
use juice_os_kernel.Prelude.{
  ℕ, ◌≡◌, refl, false, List, [], ◌∷◌, arith, take, replicate, length-replicate,
}
use juice_os_kernel.Syslog.Defs.{
  Syslog, syslog_length, boot_log, mem_copy, clamp_portion, append_portion, log_portion, kernel_log,
  flatten_logs,
}
use juice_os_kernel.Syslog.Tails.{last}
use juice_os_kernel.Syslog.Retention.{joined, flatten_logs-since_boot}
use juice_os_kernel.Syslog.Flattening.{IsValid}

-- A log of which the last two bytes are free.
abbrev nearly_full : Syslog
nearly_full = record { buffer = replicate syslog_length 7; write_ptr = 2046; is_wrapped = false }

nearly_full-IsValid : IsValid nearly_full
nearly_full-IsValid = record {
  size = length-replicate {A = ℕ} syslog_length 7;
  within = omega arith;
}

goes_round : take 3 (log_portion (1 ∷ 2 ∷ 3 ∷ []) nearly_full).buffer ≡ 3 ∷ 7 ∷ 7 ∷ []
unfolding log_portion append_portion clamp_portion mem_copy
goes_round = refl

abbrev lines : List (List ℕ)
lines = replicate 3000 8 ∷ (1 ∷ 2 ∷ []) ∷ []

flatten_logs-since_boot_example :
    flatten_logs (kernel_log lines boot_log) ≡ last syslog_length (joined lines)
flatten_logs-since_boot_example = flatten_logs-since_boot lines
