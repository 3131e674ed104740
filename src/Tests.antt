-- ===== src/Tests.antt =====
-- Runs of the model at concrete inputs, and the theorems at inputs that meet their conditions.
mod Paths
mod Books
mod Files
mod Commands
mod Syncing
mod Keeping
mod Selecting
mod Fielded
mod Viewing
mod Elements
mod Archives
