-- ===== src/S3Export.antt =====
-- s3_export.py: what a run publishes, under which keys and in which order.
pub mod Keys
pub mod Upload
pub mod Publish
