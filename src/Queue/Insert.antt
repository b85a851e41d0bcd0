-- ===== src/Queue/Insert.antt =====
-- _pushElement's insertion on the heap is the insertion of `Order` on the contents: the search for
-- the place, the run that links, and its three ways.
mod Place
mod Linking
mod Behind
mod Sorted
mod End
pub use Linking.{Links, Links-of_eq}
pub use Sorted.{link_sorted-Links}
pub use End.{link_last-Links}
