-- ===== src/Jwt/Upstream.antt =====
-- The identity headers that a service behind the JWT plugin receives.
use go_gateway.Prelude.{List, [], ◌∷◌, String, Option, none, some, Map, ◌==◌, if◌then◌else◌, is_nil}
use go_gateway.Go.Value.{Value}
use go_gateway.Proxy.Headers.{Header}
use go_gateway.Jwt.{JwtPlugin, Libraries, string_at}

-- The values of a header, in order.
unfoldable pub values : String → Header → List String
values name [] = []
values name ((k, v) ∷ h) = if k == name then v ∷ values name h else values name h

module _ {V : Type 0} (value : Value V) (lib : Libraries V) where
  -- The user that the plugin tells the service of.
  abbrev pub told_user : JwtPlugin → Map V → Option String
  told_user p claims = if is_nil p.forward_claims then none else string_at value "sub" claims

  abbrev pub user_values : Option String → Header → List String
  user_values none h = values "X-User-Id" h
  user_values (some sub) h = sub ∷ []
