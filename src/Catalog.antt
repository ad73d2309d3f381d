-- ===== src/Catalog.antt =====
-- apps/api/src/catalog: pages of lists, slugs, counters of products, likes, bookmarks
-- and downloads.
pub mod Categories
pub mod Products
pub mod Slugs
pub mod Pagination
pub mod Counters
pub mod Keyset
pub mod Likes
pub mod Bookmarks
pub mod Downloads
mod RowTests
