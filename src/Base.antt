-- ===== src/Base.antt =====
-- What the components share of Python and of src/contract_evidence_os/base.py.
pub mod Float
pub mod Json
pub mod Exec
pub mod Text
