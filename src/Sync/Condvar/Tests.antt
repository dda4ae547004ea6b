-- ===== src/Sync/Condvar/Tests.antt =====
-- Two tasks, of which the first waits until the second signals.
