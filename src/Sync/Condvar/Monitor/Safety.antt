-- ===== src/Sync/Condvar/Monitor/Safety.antt =====
-- The mutex keeps its promise when tasks also wait on a condition variable.
