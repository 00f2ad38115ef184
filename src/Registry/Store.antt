-- ===== src/Registry/Store.antt =====
-- internal/registry/registry.go and internal/registry/healthcheck.go: the registry and the health
-- checker hold pointers to service entries. A pointer is an index into `entries`, the entries
-- allocated so far; `cancels` also keeps for each running goroutine the pointer that it was given.
use go_gateway.Prelude.{
  ℕ, List, [], ◌∷◌, ◌++◌, String, Map, lookup, insert, delete, Option, none, some, map, length,
  get_elem?,
}
use go_gateway.Registry.{ServiceEntry}

abbrev pub Pointer : Type 0
Pointer = ℕ

pub record Registry : Type 0 where
  pub entries : List ServiceEntry
  pub services : Map Pointer
  pub cancels : Map Pointer

-- `New` and `NewHealthChecker`
unfoldable pub new : Registry
new = record { entries = []; services = []; cancels = [] }

-- `&registry.ServiceEntry{…}`
unfoldable pub allocate : ServiceEntry → Registry → Pointer × Registry
allocate e r = (length r.entries, record r { entries = r.entries ++ e ∷ [] })

-- `Register`
unfoldable pub register : Pointer → ServiceEntry → Registry → Registry
register p e r = record r { services = insert e.name p r.services }

-- `Lookup`
unfoldable pub lookup_service : String → Registry → Option Pointer
lookup_service name r = lookup name r.services

-- `ServiceNames`
unfoldable pub service_names : Registry → List String
service_names r = map (λ s. s.0) r.services

-- `StartForService`: nothing is done where a goroutine runs for that name.
unfoldable pub start_for_service : Pointer → ServiceEntry → Registry → Registry
start_for_service p e r = elim (lookup e.name r.cancels) [
  | none ↦ record r { cancels = insert e.name p r.cancels }
  | some q ↦ r
]

-- `StopForService`: to cancel the context ends the goroutine.
unfoldable pub stop_for_service : String → Registry → Registry
stop_for_service name r = record r { cancels = delete name r.cancels }

-- The entry that requests for a service see.
unfoldable pub served : String → Registry → Option ServiceEntry
served name r = elim (lookup name r.services) [ none ↦ none | some p ↦ get_elem? r.entries p ]

-- The entry that the running health check of a service looks at.
unfoldable pub checked : String → Registry → Option ServiceEntry
checked name r = elim (lookup name r.cancels) [ none ↦ none | some p ↦ get_elem? r.entries p ]
