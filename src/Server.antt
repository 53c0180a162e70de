-- ===== src/Server.antt =====
-- blastradius/server/: the response of a worker (results.py), the product events (events.py), the
-- life of an analysis (jobs.py), the quotas (quotas.py) and the lease of the service (lease.py).
pub mod Results
pub mod Jobs
pub mod Quotas
pub mod Lease
