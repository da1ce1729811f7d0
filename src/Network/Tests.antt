-- ===== src/Network/Tests.antt =====
-- The differences of network counters at concrete inputs.
use libstatgrab.Base.{◌≡◌, arith}
use libstatgrab.Network.{transfer_diff}
use libstatgrab.Network.Transfer.{transfer_diff-wrap, transfer_diff_exact}

transfer_diff-wrap_example : transfer_diff 4 4294967290 ≡ 10
transfer_diff-wrap_example = transfer_diff-wrap 4294967290 10 (omega arith) (omega arith)

transfer_diff_exact_example : transfer_diff 5000000000 1000000000 ≡ 4000000000
transfer_diff_exact_example = transfer_diff_exact 1000000000 4000000000 (omega arith)
