-- ===== src/Flag.antt =====
-- Hazard flags (service/flagService.ts, repository/flagRepository.ts, utils/points.ts): riders'
-- votes, the consensus that confirms or rejects a flag, and the reporter's points.
pub mod Vote
pub mod Points
pub mod Handler
