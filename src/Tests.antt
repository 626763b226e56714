-- ===== src/Tests.antt =====
-- Runs of the definitions on concrete inputs, and the theorems applied to them.
mod Inodes
mod Paths
mod Identifiers
mod Attributes
mod Directories
mod CommandLine
mod Stats
mod Calls
mod Kernel
mod Renames
mod Reading
