-- ===== src/Upload.antt =====
-- apps/api/src/core/upload: chunked uploads.
mod Disk
mod Tests
pub mod Indexes
pub mod Types
pub mod Services
pub mod Names
pub mod Session
pub mod Chunk
pub mod WellFormed
pub mod Geometry
pub mod Tracking
pub mod ChunkSteps
pub mod Invariant
pub mod Opening
pub mod Accept
pub mod Taken
pub mod Completeness
pub mod Assembly
pub mod Assembled
pub mod RedisStore
pub mod Remote
pub mod Finish
pub mod Fallback
