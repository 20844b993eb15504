-- ===== src/Afs.antt =====
-- The file system AFS of cardreader/include/afs.hh: an image of 65,536 bytes with a table of clusters, a
-- table of directories and the clusters.
pub mod Layout
pub mod Names
pub mod Search
pub mod Chain
pub mod Edit
pub mod Content
pub mod Valid
pub mod Browse
