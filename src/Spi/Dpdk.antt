-- ===== src/Spi/Dpdk.antt =====
-- What the rule engine uses of DPDK, which is not part of this repository: byte order, the ACL
-- classifier, the member library and the CRC hash. The laws are those of the DPDK manual.
use dpdk_cpp.Base.{ℕ, ◌≤◌, List, Option, none, some, Bool, map, length, ◌≡◌, if◌then◌else◌}

-- `AclInputData`.
pub record AclInputData : Type 0 where
  pub src_ip_be : ℕ
  pub dst_ip_be : ℕ
  pub src_port_be : ℕ
  pub dst_port_be : ℕ
  pub protocol : ℕ

-- The bytes of `MemberKey`.
pub record MemberKey : Type 0 where
  pub dst_ip_be : ℕ
  pub dst_port_be : ℕ
  pub protocol : ℕ

-- `rte_acl_classify` for one category: a context that is not built or has no such classifier refuses
-- every call, any other gives the userdata of the best rule of each input, 0 for none.
pub record RteAcl : Type 1 where
  pub Context : Type 0
  pub classify : Context → List AclInputData → Option (List ℕ)
  pub is_ready : Context → Bool
  pub best : Context → AclInputData → ℕ
  pub classify_each :
      (c : Context) (inputs : List AclInputData)
      → classify c inputs ≡ (if is_ready c then some (map (best c) inputs) else none)

-- `rte_member_lookup_bulk`, whose bulk is at most 64 keys; 0 is `RTE_MEMBER_NO_MATCH`.
pub record RteMember : Type 1 where
  pub Setsum : Type 0
  pub lookup : Setsum → MemberKey → ℕ
  pub lookup_bulk : Setsum → List MemberKey → List ℕ
  pub lookup_bulk_each :
      (s : Setsum) (keys : List MemberKey)
      → length keys ≤ 64
      → lookup_bulk s keys ≡ map (lookup s) keys
