-- ===== src/Process/Order.antt =====
-- The comparison functions of src/libstatgrab/process_stats.c.
use libstatgrab.Base.{ℕ, ◌≡◌, arith, Ordering}
use libstatgrab.Base.Bytes.{IsOrder, by_string-IsOrder, flip}
use libstatgrab.Process.{
  three_way, signed_rank, sg_process_compare_name, sg_process_compare_pid, sg_process_compare_uid,
  sg_process_compare_gid, sg_process_compare_size, sg_process_compare_res, sg_process_compare_time,
}

three_way-flip : (a b : ℕ) → three_way b a ≡ flip (three_way a b)
three_way-flip a b = ground arith

three_way_trans :
    (a b c : ℕ)
    → three_way a b ≡ Ordering.lt
    → three_way b c ≡ Ordering.lt
    → three_way a c ≡ Ordering.lt
three_way_trans a b c h k = ground arith

three_way_eq :
    (a b c : ℕ)
    → three_way a b ≡ Ordering.eq
    → three_way b c ≡ Ordering.eq
    → three_way a c ≡ Ordering.eq
three_way_eq a b c h k = ground arith

by_number-IsOrder : {T : Type 0} (key : T → ℕ) → IsOrder (λ (a b : T). three_way (key a) (key b))
by_number-IsOrder key = record {
  flips = λ a b. three_way-flip (key a) (key b);
  lt_trans = λ a b c h k. three_way_trans (key a) (key b) (key c) h k;
  eq_trans = λ a b c h k. three_way_eq (key a) (key b) (key c) h k;
}

-- Each of the seven comparison functions for processes that compare a name or a whole number is an
-- order that `qsort` can rely on: swapping the processes flips its sign, and less and equal are
-- transitive.
pub process_orders :
    IsOrder sg_process_compare_name
    × IsOrder sg_process_compare_pid
    × IsOrder sg_process_compare_uid
    × IsOrder sg_process_compare_gid
    × IsOrder sg_process_compare_size
    × IsOrder sg_process_compare_res
    × IsOrder sg_process_compare_time
process_orders = (
  by_string-IsOrder (λ p. p.process_name),
  by_number-IsOrder (λ p. signed_rank 32 p.pid),
  by_number-IsOrder (λ p. p.uid),
  by_number-IsOrder (λ p. p.gid),
  by_number-IsOrder (λ p. p.proc_size),
  by_number-IsOrder (λ p. p.proc_resident),
  by_number-IsOrder (λ p. signed_rank 64 p.time_spent),
)
