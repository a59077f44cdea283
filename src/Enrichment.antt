-- ===== src/Enrichment.antt =====
-- internal/enrichment: what the title of a track says of its artist.
pub mod Titles
pub mod Cleaning
pub mod Splitting
pub mod Tests
