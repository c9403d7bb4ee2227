-- ===== src/Reference.antt =====
-- reference/: what the generators of reports share.
pub mod Causelib
pub mod Shortlistlib
