-- ===== src/Common/OrdMap.antt =====
-- `std::map` with unsigned keys: the list of its entries, in the order of iteration.
mod Defs
mod Laws
unfoldable pub use Defs.{
  find, insert_or_assign, try_emplace, merge, first?, last?, upper_bound, before_upper, erase_from,
  erase_before, copy_to, copy_range, From,
}
pub use Laws.*
