-- ===== src/Examples.antt =====
-- Runs of the models on concrete inputs, and the theorems applied to them.
mod Folders
mod Paths
mod Queue
mod Entries
mod Database
mod Cache
mod Scanner
mod Watcher
mod Views
mod Navigation
mod Reading
mod Window
