-- ===== src/Util/CountDownLatch/Tests.antt =====
-- The theorem on `CountDownLatch` at a latch for two calls, after one and after three.
use clia.Prelude.{◌≡◌, true, false, zero, suc, err, Fault, Returns}
use clia.Util.StrFunc.{pos, negsuc}
use clia.Util.CountDownLatch.{create}
use clia.Util.CountDownLatch.Counting.{count_down_all, Counted, count_down_all-Counted}

count_down_all-Counted_example :
    Returns (create (pos (suc 1))) (λ s. Counted true (count_down_all 1 s))
    × (create (pos zero) ≡ err Fault.assertion)
    × (create (negsuc 1) ≡ err Fault.assertion)
count_down_all-Counted_example = count_down_all-Counted 1 1

after_three : Returns (create (pos (suc 1))) (λ s. Counted false (count_down_all 3 s))
after_three = (count_down_all-Counted 1 3).0
