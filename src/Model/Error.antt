-- ===== src/Model/Error.antt =====
-- The errors of internal/model/types and internal/model, one constructor for each message, with the
-- text that the message quotes.
use kubedock.Base.{Str}

pub data Error : Type 0 where
  invalid_pull_policy : Str → Error
  invalid_resource : Str → Error
  invalid_quantity : Str → Error
  invalid_node_selector : Str → Error
  not_int64 : Str → Error
  invalid_port : Str → Error
  unsupported_protocol : Str → Error
  not_connected : Str → Error
  not_found : Str → Error
  invalid_regexp : Str → Error
