-- ===== src/Tests.antt =====
-- Tests: the theorems applied to concrete objects, disks, signals and requests.
mod Toy
mod MerkleTests
mod StoreTests
mod CorsTests
mod CmdTests
mod StartTests
mod GcTests
mod PauseTests
mod ApiTests
mod RequestTests
mod CoverageTests
mod ChallengeTests
mod ChunkedTests
mod StagingTests
mod DirectoryTests
mod SystemTests
