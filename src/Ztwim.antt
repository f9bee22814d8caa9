-- ===== src/Ztwim.antt =====
-- pkg/controller/zero-trust-workload-identity-manager/controller.go: the controller that aggregates
-- the status of the four operands into the conditions of the ZeroTrustWorkloadIdentityManager, and
-- tells OLM whether the operator may be upgraded. The operand status type is that of
-- api/v1alpha1/zero_trust_workload_identity_manager_types.go.
pub mod Operand
pub mod Aggregate
pub mod Upgrade
pub mod Reconcile
