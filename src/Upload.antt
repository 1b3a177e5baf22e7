-- ===== src/Upload.antt =====
-- Uploads in flight: `UploadSlots` of apps/backend/app/uploads.py.
pub mod Slots
pub mod Counts
pub mod Sound
pub mod Fair
mod Examples
