-- ===== src/Tests.antt =====
-- Concrete inputs: the theorems at inputs that exercise the code, and runs of the definitions.
mod Codecs
mod Stores
mod RefPaths
mod Configs
mod Trees
mod Commits
mod Deltas
mod PackIndexes
mod Indexes
mod Merges
mod Iterators
mod Diffs
mod Requests
