-- ===== src/Tests.antt =====
-- Runs of the modelled code, and the theorems at concrete inputs.
mod CacheTests
mod AuthTests
mod BlobTests
mod ServiceTests
mod TransportTests
mod MigrationTests
mod ConfigTests
mod HandlerTests
