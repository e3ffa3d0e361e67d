-- ===== src/Searxng.antt =====
-- searxng/engines/_x402_admission.py, _x402_payment.py and x402exa.py: the paid search engine. searxng/patches/sitecustomize.py:
-- the round robin of providers.
pub mod Admission
pub mod Payment
pub mod RoundRobin
mod Examples
