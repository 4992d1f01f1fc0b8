-- ===== src/Priority/Tests.antt =====
-- The wrappers of src/priority.rs over `usize`.
use async_priority_lock_rs.Base.{ℕ}
use async_priority_lock_rs.Priority.{Priority, highest_first, lowest_first, fifo, lifo, usize_ord}
use async_priority_lock_rs.Priority.Laws.{
  IsLawful, usize-IsPreorder, highest_first-IsLawful, wrappers-IsLawful,
}

abbrev by_usize : Priority ℕ
by_usize = highest_first usize_ord

by_usize-IsLawful : IsLawful by_usize
by_usize-IsLawful = highest_first-IsLawful usize_ord usize-IsPreorder

wrappers-IsLawful_example :
    IsLawful (lowest_first usize_ord) × IsLawful (fifo by_usize) × IsLawful (lifo by_usize)
wrappers-IsLawful_example = wrappers-IsLawful usize_ord by_usize usize-IsPreorder by_usize-IsLawful
