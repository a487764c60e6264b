-- ===== src/BugChecks.antt =====
-- bugcheck_names.go: the names of the common bug checks. The map is an association list; its keys are
-- all different.
use go_kd.Prelude.{ℕ, List, [], ◌∷◌, ◌==◌, if◌then◌else◌}
use go_kd.Text.{Text, codes}

unfoldable pub bug_check_names : List (ℕ × (Text × Text))
bug_check_names =
    (
      0x0A,
      (
        codes "IRQL_NOT_LESS_OR_EQUAL",
        codes "Kernel-mode driver attempted to access pageable memory at too high an IRQL.",
      ),
    )
    ∷ (0x18, (codes "REFERENCE_BY_POINTER", codes "Reference count of an object is wrong."))
    ∷ (0x1A, (codes "MEMORY_MANAGEMENT", codes "Memory manager detected a violation."))
    ∷ (0x1E, (codes "KMODE_EXCEPTION_NOT_HANDLED", codes "Kernel-mode exception was not handled."))
    ∷ (
      0x3B,
      (
        codes "SYSTEM_SERVICE_EXCEPTION",
        codes
            "Exception while executing a routine that transitions from non-privileged to privileged code.",
      ),
    )
    ∷ (0x4E, (codes "PFN_LIST_CORRUPT", codes "Page frame number list is corrupt."))
    ∷ (0x50, (codes "PAGE_FAULT_IN_NONPAGED_AREA", codes "Invalid system memory referenced."))
    ∷ (
      0x7E,
      (
        codes "SYSTEM_THREAD_EXCEPTION_NOT_HANDLED",
        codes "A system thread generated an exception that the error handler did not catch.",
      ),
    )
    ∷ (
      0x7F,
      (
        codes "UNEXPECTED_KERNEL_MODE_TRAP",
        codes "CPU generated a trap that the kernel was not allowed to catch.",
      ),
    )
    ∷ (
      0x9F,
      (
        codes "DRIVER_POWER_STATE_FAILURE",
        codes "A driver is in an inconsistent or invalid power state.",
      ),
    )
    ∷ (0xC2, (codes "BAD_POOL_CALLER", codes "A kernel-mode caller made a bad pool request."))
    ∷ (
      0xC4,
      (codes "DRIVER_VERIFIER_DETECTED_VIOLATION", codes "Driver Verifier caught a violation."),
    )
    ∷ (
      0xD1,
      (
        codes "DRIVER_IRQL_NOT_LESS_OR_EQUAL",
        codes "A driver attempted to access pageable memory at too high an IRQL.",
      ),
    )
    ∷ (0xEF, (codes "CRITICAL_PROCESS_DIED", codes "A critical system process died."))
    ∷ (
      0xF4,
      (codes "CRITICAL_OBJECT_TERMINATION", codes "A critical object was terminated unexpectedly."),
    )
    ∷ (
      0x101,
      (
        codes "CLOCK_WATCHDOG_TIMEOUT",
        codes "Clock interrupt was not received on a secondary processor.",
      ),
    )
    ∷ (0x124, (codes "WHEA_UNCORRECTABLE_ERROR", codes "Fatal hardware error reported by WHEA."))
    ∷ (
      0x139,
      (
        codes "KERNEL_SECURITY_CHECK_FAILURE",
        codes "Kernel detected a corruption of a critical data structure.",
      ),
    )
    ∷ (
      0x153,
      (
        codes "KERNEL_LOCK_ENTRY_LEAKED_ON_THREAD_TERMINATION",
        codes "Thread terminated while holding a kernel lock.",
      ),
    )
    ∷ (
      0x1A5,
      (
        codes "KERNEL_AUTO_BOOST_INVALID_LOCK_RELEASE",
        codes "A lock was released incorrectly by an auto-boosted thread.",
      ),
    )
    ∷ []

unfoldable pub find_bug_check : ℕ → List (ℕ × (Text × Text)) → Text × Text
find_bug_check code [] = ([], [])
find_bug_check code ((k, e) ∷ m) = if k == code then e else find_bug_check code m

unfoldable pub lookup_bug_check_name : ℕ → Text × Text
lookup_bug_check_name code = find_bug_check code bug_check_names
