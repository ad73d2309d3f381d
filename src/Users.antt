-- ===== src/Users.antt =====
-- apps/api/src/core/users and the guards: profiles, names, roles.
pub mod Profile
pub mod Access
mod Tests
