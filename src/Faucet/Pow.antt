-- ===== src/Faucet/Pow.antt =====
-- The proof of work of the faucet (argus/faucet/pow.py): Target.antt has the difficulty of a request,
-- Token.antt the signed challenge and the check of a solution.
pub mod Target
pub mod Token
