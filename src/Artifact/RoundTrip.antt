-- ===== src/Artifact/RoundTrip.antt =====
-- The artifact that a project is written to is decoded to the project.
pub mod Records
pub mod Sections
pub mod Layouts
pub mod Directory
pub mod Header
pub mod Sizes
pub mod Graphs
pub mod Project
