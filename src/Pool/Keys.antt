-- ===== src/Pool/Keys.antt =====
-- The keys of the maps of aris/src/proofs/pooledproof.rs, as 64-bit numbers.
use aris.Base.{nat_eq}
