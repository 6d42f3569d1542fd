-- ===== src/Proofs.antt =====
-- src/platforms/core/proofs.ts: the contracts of stored sync proofs.
mod Contracts
mod Lookup
