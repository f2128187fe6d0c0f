-- ===== src/Actionset.antt =====
-- actionset/: the closed action set and the confirm / auto-send switch.
pub mod Switch
pub mod Prepare
