-- ===== src/Jwt/Examples.antt =====
-- The JWT plugin with a parser that accepts one text, where the secret is "k", the first method
-- allowed is HS256, the issuer, if any is asked for, is "idp" and no audience is asked for.
use go_gateway.Prelude.{
  ◌≡◌, ◌⊎◌, refl, sym, ap, ◌∙◌, true, false, Bool, List, [], ◌∷◌, String, Option, none, some, Map,
  In, arith, if◌then◌else◌, ◌==◌, ◌&&◌, Bool-cases, inl, inr, eq_iff, some_inj,
}
use go_gateway.Go.Value.{Value}
use go_gateway.Plugin.{passed, abort_error}
use go_gateway.Proxy.Headers.{Inbound}
use go_gateway.Jwt.{
  JwtPlugin, Request, Libraries, ParserOptions, parse_error, token, plugin_of, new_jwt, split_space,
  strings_of, forward, identify, authenticate, after_split, after_parse,
}
use go_gateway.Jwt.Verified.{Verifying, Authentic, authenticate_sound}

abbrev texts : Value String
texts = record { as_string = λ v. some v; as_list = λ v. some (v ∷ []); as_int = λ v. none }

abbrev key_is_k : Option String → Bool
key_is_k none = false
key_is_k (some k) = k == "k"

abbrev first_is : String → List String → Bool
first_is name [] = false
first_is name (x ∷ xs) = x == name

abbrev from_idp : Option String → Bool
from_idp none = true
from_idp (some i) = i == "idp"

abbrev unasked : Option String → Bool
unasked none = true
unasked (some a) = false

abbrev accepted : ParserOptions → (String → Option String) → String → Bool
accepted o key text =
    text == "t.t.t"
    && key_is_k (key "HS256")
    && first_is "HS256" o.valid_methods
    && from_idp o.issuer
    && unasked o.audience

abbrev ann : Map String
ann = ("sub", "ann") ∷ []

abbrev libraries : Libraries String
libraries = record {
  Method = String;
  is_none_method = λ m. m == "none";
  parse = λ o key text. if accepted o key text then token true (some ann) else parse_error;
  equal_fold = λ s t. s == t;
  encode = λ m. some "{}";
}

parts_of :
    (a b c d e : Bool)
    → (a && b && c && d && e) ≡ true
    → (a ≡ true) × (b ≡ true) × (c ≡ true) × (d ≡ true) × (e ≡ true)
parts_of a b c d e h = ground (arith, h)

key_there : (k : Option String) → key_is_k k ≡ true → k ≡ some "k"
key_there none h = absurd (ground (arith, h))
key_there (some k) h = ap some ((eq_iff k "k").0 h)

first_there : (name : String) (xs : List String) → first_is name xs ≡ true → In name xs
first_there name [] h = absurd (ground (arith, h))
first_there name (x ∷ xs) h = In.here (sym ((eq_iff x name).0 h))

issuer_there : (o : Option String) (i : String) → from_idp o ≡ true → o ≡ some i → i ≡ "idp"
issuer_there none i h e = absurd (ground (arith, e))
issuer_there (some j) i h e = sym (some_inj e) ∙ (eq_iff j "idp").0 h

audience_there : (o : Option String) (a : String) → unasked o ≡ true → o ≡ some a → ⊥
audience_there none a h e = ground (arith, e)
audience_there (some b) a h e = ground (arith, h)

libraries-Verifying : Verifying libraries
libraries-Verifying = record {
  name_of = λ m. m;
  Signed = λ m k text. (m ≡ "HS256") × (k ≡ "k") × (text ≡ "t.t.t");
  Issued = λ i claims. i ≡ "idp";
  Meant = λ a claims. ⊥;
  parse_sound = sound;
}
  where
    sound :
        (o : ParserOptions) (key : String → Option String) (text : String) (claims : Map String)
        → (if accepted o key text then token true (some ann) else parse_error)
          ≡ token true (some claims)
        → (method : String) × (k : String) × (key method ≡ some k)
          × ((method ≡ "HS256") × (k ≡ "k") × (text ≡ "t.t.t"))
          × In method o.valid_methods
          × ((i : String) → o.issuer ≡ some i → i ≡ "idp")
          × ((a : String) → o.audience ≡ some a → ⊥)
    sound o key text claims e = elim (Bool-cases (accepted o key text)) [
      | inr no_t ↦ absurd (ground (arith, rw no_t at e))
      | inl yes_t ↦
          (let (is_text, is_k, first, idp, none_asked) =
              parts_of (text == "t.t.t") (key_is_k (key "HS256")) (first_is "HS256" o.valid_methods)
                (from_idp o.issuer) (unasked o.audience) yes_t in
            (
              "HS256",
              "k",
              key_there (key "HS256") is_k,
              (refl, refl, (eq_iff text "t.t.t").0 is_text),
              first_there "HS256" o.valid_methods first,
              λ i. issuer_there o.issuer i idp,
              λ a. audience_there o.audience a none_asked,
            ))
    ]

abbrev settings : Map String
settings = ("secret", "k") ∷ ("issuer", "idp") ∷ ("forward_claims", "sub") ∷ []

abbrev request : Request String
request = record {
  headers = ("Authorization", "Bearer t.t.t") ∷ ("X-User-Id", "root") ∷ [];
  context = none;
}

abbrev auth : JwtPlugin
auth = plugin_of texts settings

authenticate_sound_example :
    (authenticate texts libraries auth request ≡ (abort_error 401 "invalid_token", request))
    ⊎ ((claims : Map String) × Authentic texts libraries libraries-Verifying auth request claims
        × (authenticate texts libraries auth request ≡ (
          passed,
          record {
            headers = forward texts libraries auth claims request.headers;
            context = identify texts libraries claims request.context;
          },
        )))
unfolding new_jwt plugin_of strings_of
authenticate_sound_example =
    authenticate_sound texts libraries libraries-Verifying settings auth request refl
      (λ e. ground (arith, (eq_iff "hybrid" "passthrough").1 e))

bearer-passes : (authenticate texts libraries auth request).0 ≡ passed
unfolding new_jwt plugin_of strings_of authenticate after_split after_parse split_space
bearer-passes = refl

abbrev client : Inbound
client = record { client_ip = "10.1.1.1"; host = "api"; tls = true }
