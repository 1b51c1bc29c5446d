-- ===== src/User.antt =====
-- What an affiliate sees of its memberships: backend-vexxa/src/modules/user.
pub mod Visibility
