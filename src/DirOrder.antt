-- ===== src/DirOrder.antt =====
-- The readdir substitute of fw-toolchain-legacy/ext4_dir_order.c: `Hash` has the directory hash
-- of ext4, `Seed` the settings read from the environment, `Listing` the sorted directories and
-- the three functions that programs call.
pub mod Hash
pub mod Seed
pub mod Listing
