-- ===== src/Permission.antt =====
-- internal/permission: the resolver of effective permissions, its cache and the invalidation.
pub mod Bitfield
pub mod Store
pub mod Overrides
pub mod Cache
pub mod Resolver
pub mod ValkeyCache
pub mod Invalidate
pub mod Middleware
