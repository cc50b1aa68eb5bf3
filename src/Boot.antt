-- ===== src/Boot.antt =====
-- What runs before the service serves: internal/seeder/seeder.go and the fixtures of
-- internal/migrate/migrate.go.
pub mod Seeder
pub mod Seeded
pub mod Bootstrap
pub mod Fixtures
pub mod Migrations
pub mod Startup
pub mod Tests
