-- ===== src/Zmq/Version.antt =====
-- `check_version` of robust-reliable-queuing/ppcommon.cpp and of basic-reliable-queuing/spqueue.cpp,
-- on the version that the messaging library tells.
use zguide_examples.Prelude.{ℕ, ◌*◌, ◌+◌, ◌<◌, ◌≤◌, ◌≡◌, ◌↔◌, Bool, true, ◌&&◌, arith}
use zguide_examples.Prelude.Tests.{ltb, leb, ◌==◌, if◌then◌else◌}

unfoldable pub check_version : ℕ → ℕ → ℕ → ℕ → Bool
check_version major minor wants_major wants_minor =
    if ltb wants_major major then true else major == wants_major && leb wants_minor minor

-- The version passes the test exactly if, written as one number, it is not smaller than the one that
-- is wanted, as long as the minor numbers stay below a thousand.
pub check_version_iff :
    (major minor wants_major wants_minor : ℕ)
    → minor < 1000
    → wants_minor < 1000
    → (check_version major minor wants_major wants_minor ≡ true)
      ↔ (wants_major * 1000 + wants_minor ≤ major * 1000 + minor)
unfolding check_version
check_version_iff a b c d h k = grind arith
