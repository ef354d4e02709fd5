-- ===== src/Urls.antt =====
-- What src/visited.c and src/bookmarks.c share: a sorted array of strings.
pub mod Search
pub mod Sorted
