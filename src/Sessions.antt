-- ===== src/Sessions.antt =====
-- The sessions that the server keeps in memory, each under a lock: the tasks that are handed to the
-- helper (admin/kdzs_helper_handoff.go) and the uploads of photos (admin/upload_session.go).
pub mod Handoff
pub mod Photo
pub mod Delivered
pub mod Uploads
mod Tests
