-- ===== src/Admin/Acls.antt =====
-- client/admin.go: access control lists.
use fluss_go_client.Prelude.{Option, none, some, List, map}
use fluss_go_client.Prelude.Int.{ℤ}
use fluss_go_client.Result.{Result}
use fluss_go_client.Bytes.{Bytes}
use fluss_go_client.Metadata.Cache.{Cache}
use fluss_go_client.Client.{or_zero, or_empty}
use fluss_go_client.Table.Retry.{GoError}
use fluss_go_client.Table.Send.{Net}
use fluss_go_client.Admin.{invoke_coordinator, answered}

pub record AclBinding : Type 0 where
  pub resource_name : Bytes
  pub resource_type : ℤ
  pub principal_name : Bytes
  pub principal_type : Bytes
  pub host : Bytes
  pub operation_type : ℤ
  pub permission_type : ℤ

-- A nil pointer is `none`.
pub record AclFilter : Type 0 where
  pub resource_name : Option Bytes
  pub resource_type : ℤ
  pub principal_name : Option Bytes
  pub principal_type : Option Bytes
  pub host : Option Bytes
  pub operation_type : ℤ
  pub permission_type : ℤ

-- An ACL with an error: CreateACLResult and DropACLMatchingResult have the same fields.
pub record AclResult : Type 0 where
  pub acl : AclBinding
  pub error_code : Option ℤ
  pub error_message : Option Bytes

pub record DropAclFilterResult : Type 0 where
  pub matching_acls : List AclResult
  pub error_code : Option ℤ
  pub error_message : Option Bytes

pub record PbAclInfo : Type 0 where
  pub resource_name : Option Bytes
  pub resource_type : Option ℤ
  pub principal_name : Option Bytes
  pub principal_type : Option Bytes
  pub host : Option Bytes
  pub operation_type : Option ℤ
  pub permission_type : Option ℤ

pub record PbAclFilter : Type 0 where
  pub resource_name : Option Bytes
  pub resource_type : Option ℤ
  pub principal_name : Option Bytes
  pub principal_type : Option Bytes
  pub host : Option Bytes
  pub operation_type : Option ℤ
  pub permission_type : Option ℤ

-- PbCreateAclRespInfo and PbDropAclsMatchingAcl.
pub record PbAclResult : Type 0 where
  pub acl : Option PbAclInfo
  pub error_code : Option ℤ
  pub error_message : Option Bytes

pub record PbDropAclsFilterResult : Type 0 where
  pub matching_acls : List PbAclResult
  pub error_code : Option ℤ
  pub error_message : Option Bytes

unfoldable pub build_acl_binding : AclBinding → PbAclInfo
build_acl_binding binding = record {
  resource_name = some binding.resource_name;
  resource_type = some binding.resource_type;
  principal_name = some binding.principal_name;
  principal_type = some binding.principal_type;
  host = some binding.host;
  operation_type = some binding.operation_type;
  permission_type = some binding.permission_type;
}

unfoldable pub build_acl_filter : AclFilter → PbAclFilter
build_acl_filter filter = record {
  resource_name = filter.resource_name;
  resource_type = some filter.resource_type;
  principal_name = filter.principal_name;
  principal_type = filter.principal_type;
  host = filter.host;
  operation_type = some filter.operation_type;
  permission_type = some filter.permission_type;
}

-- What the getters read in a nil message.
abbrev pub no_acl : PbAclInfo
no_acl = record {
  resource_name = none;
  resource_type = none;
  principal_name = none;
  principal_type = none;
  host = none;
  operation_type = none;
  permission_type = none;
}

abbrev pub or_no_acl : Option PbAclInfo → PbAclInfo
or_no_acl none = no_acl
or_no_acl (some item) = item

unfoldable pub parse_acl_binding : PbAclInfo → AclBinding
parse_acl_binding item = record {
  resource_name = or_empty item.resource_name;
  resource_type = or_zero item.resource_type;
  principal_name = or_empty item.principal_name;
  principal_type = or_empty item.principal_type;
  host = or_empty item.host;
  operation_type = or_zero item.operation_type;
  permission_type = or_zero item.permission_type;
}

abbrev pub acl_result : PbAclResult → AclResult
acl_result item = record {
  acl = parse_acl_binding (or_no_acl item.acl);
  error_code = item.error_code;
  error_message = item.error_message;
}

abbrev pub drop_result : PbDropAclsFilterResult → DropAclFilterResult
drop_result item = record {
  matching_acls = map acl_result item.matching_acls;
  error_code = item.error_code;
  error_message = item.error_message;
}

-- A request holds the filter, the infos or the filters; a response the infos or the results.
module _ {W : Type 0} (net : Net W) (endpoint : Bytes) where
  abbrev State : Type 0
  State = W × Cache

  unfoldable pub list_acls :
      (W → Bytes → PbAclFilter → W × Result GoError (List PbAclInfo))
      → State
      → AclFilter
      → State × Result GoError (List AclBinding)
  list_acls send s filter =
      answered (map parse_acl_binding)
        (invoke_coordinator net endpoint send s (build_acl_filter filter))

  unfoldable pub create_acls :
      (W → Bytes → List PbAclInfo → W × Result GoError (List PbAclResult))
      → State
      → List AclBinding
      → State × Result GoError (List AclResult)
  create_acls send s bindings =
      answered (map acl_result)
        (invoke_coordinator net endpoint send s (map build_acl_binding bindings))

  unfoldable pub drop_acls :
      (W → Bytes → List PbAclFilter → W × Result GoError (List PbDropAclsFilterResult))
      → State
      → List AclFilter
      → State × Result GoError (List DropAclFilterResult)
  drop_acls send s filters =
      answered (map drop_result)
        (invoke_coordinator net endpoint send s (map build_acl_filter filters))
