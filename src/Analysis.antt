-- ===== src/Analysis.antt =====
-- blastradius/graph/attack_paths.py and blastradius/security/risk_score.py.
pub mod Outcome
pub mod Score
pub mod Routes
pub mod Bfs
pub mod Enumerate
pub mod Analyze
