-- ===== src/Go/Value.antt =====
-- A value of Go's `any`, as a configuration map or the claims of a token hold it: the type assertions
-- that the code makes of it are parameters. Each gives none where the value has another type.
use go_gateway.Prelude.{ℤ, List, String, Option}

pub record Value (V : Type 0) : Type 0 where
  pub as_string : V → Option String
  pub as_list : V → Option (List V)
  pub as_int : V → Option ℤ
